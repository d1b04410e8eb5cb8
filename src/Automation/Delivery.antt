-- ===== src/Automation/Delivery.antt =====
-- Leases on deliveries: claiming, acknowledging and failing (internal/automation/dispatcher.go).
use Prim.Native.String.{◌++◌ as text_append}
pub mod Rows
pub mod Fencing
pub mod Retries
pub mod Attempts
mod Tests
use delmos.Base.{
  ℕ, zero, suc, ◌+◌, String, Bool, true, false, ◌&&◌, Option, none, some, List, [], ◌∷◌, Dict,
  lookup, Result, ok, err, ltb, leb, ◌==◌, if◌then◌else◌,
}
use delmos.Automation.Outbox.{
  Envelope, OutboxRow, Subscription, Status, pending, leased, delivered, dead_letter, Delivery,
  Queue,
}

-- status = 'pending' OR (status = 'leased' AND lease_until < now()); a comparison with NULL fails.
abbrev pub expired : ℕ → Option ℕ → Bool
expired now none = false
expired now (some t) = ltb t now

abbrev pub claimable_status : Status → ℕ → Option ℕ → Bool
claimable_status pending now t = true
claimable_status leased now t = expired now t
claimable_status delivered now t = false
claimable_status dead_letter now t = false

abbrev pub claimable : ℕ → Delivery → Bool
claimable now d = claimable_status d.status now d.lease_until

abbrev pub lease : ℕ → ℕ → Delivery → Delivery
lease token until d = record d {
  status = leased;
  lease_token = some token;
  lease_until = some until;
  delivery_attempts = d.delivery_attempts + 1;
}

-- The UPDATE of `ClaimAndProcess`: the first `limit` claimable rows are leased; their ids.
pub claim : ℕ → ℕ → ℕ → ℕ → List Delivery → List Delivery × List ℕ
claim token now until zero ds = (ds, [])
claim token now until (suc limit) [] = ([], [])
claim token now until (suc limit) (d ∷ ds) =
    let (taken, ids) = claim token now until limit ds in
    let (passed, others) = claim token now until (suc limit) ds in
    if claimable now d then (lease token until d ∷ taken, d.id ∷ ids) else (d ∷ passed, others)

abbrev pub has_token : ℕ → Option ℕ → Bool
has_token token none = false
has_token token (some t) = t == token

abbrev pub ack_row : ℕ → Delivery → Delivery
ack_row now d = record d { status = delivered; completed_at = some now; lease_token = none }

-- The rows that WHERE id = $1 AND lease_token = $2 selects.
abbrev pub held : ℕ → ℕ → Delivery → Bool
held id token d = d.id == id && has_token token d.lease_token

-- The acknowledging UPDATE, and whether it affected a row.
pub acknowledge : ℕ → ℕ → ℕ → List Delivery → List Delivery × Bool
acknowledge now id token [] = ([], false)
acknowledge now id token (d ∷ ds) =
    let (rest, hit) = acknowledge now id token ds in
    if held id token d then (ack_row now d ∷ rest, true) else (d ∷ rest, hit)

abbrev pub fail_row : String → Delivery → Delivery
fail_row reason d = record d {
  status = if leb d.max_attempts d.delivery_attempts then dead_letter else pending;
  last_error = some reason;
  lease_token = none;
}

-- `markFailed`. Its UPDATE has WHERE id = $1 and looks at no token.
pub mark_failed : ℕ → String → List Delivery → List Delivery
mark_failed id reason [] = []
mark_failed id reason (d ∷ ds) =
    (if d.id == id then fail_row reason d else d) ∷ mark_failed id reason ds

-- `claimedDelivery`
pub record ClaimedDelivery : Type 0 where
  pub delivery_id : ℕ
  pub event_key : String
  pub trigger_key : String
  pub envelope : Envelope

pub find_event : ℕ → List OutboxRow → Option OutboxRow
find_event id [] = none
find_event id (r ∷ rs) = if r.id == id then some r else find_event id rs

pub find_subscription : ℕ → List Subscription → Option Subscription
find_subscription id [] = none
find_subscription id (s ∷ ss) = if s.id == id then some s else find_subscription id ss

abbrev pub listed : ℕ → List ℕ → Bool
listed n [] = false
listed n (m ∷ ms) = if n == m then true else listed n ms

-- The join of `loadDeliveryDetails`, for the rows with ids in the list.
pub load_details : List ℕ → Queue → List Delivery → List ClaimedDelivery
unfolding find_event find_subscription
load_details ids q [] = []
load_details ids q (d ∷ ds) =
    let rest = load_details ids q ds in
    if listed d.id ids
    then elim (find_event d.outbox_event_id q.outbox) [
      | none ↦ rest
      | some r ↦ elim (find_subscription d.subscription_id q.subscriptions) [
        | none ↦ rest
        | some s ↦
            record {
              delivery_id = d.id;
              event_key = r.event_key;
              trigger_key = s.trigger_key;
              envelope = r.envelope;
            }
            ∷ rest
      ]
    ]
    else rest

-- A handler acts on the state `W` of the program's other tables, or fails with a message.
abbrev pub Handler : Type 0 → Type 0
Handler W = Envelope → W → Result String W

-- What `processOne` returns: nil, or which of its errors.
pub data Processed : Type 0 where
  committed no_handler handler_failed lease_lost : Processed

abbrev pub no_handler_for : String → String
no_handler_for trigger_key = text_append "немає зареєстрованого обробника для " trigger_key

module _ {W : Type 0} (handlers : Dict (Handler W)) where
  -- The transaction of `processOne` after the handler: the effect `w'` stays only if the
  -- acknowledgement affects a row.
  pub finish : ℕ → ℕ → ℕ → W → W → List Delivery → W × List Delivery × Processed
  unfolding acknowledge
  finish now token id w w' ds =
      let (ds', hit) = acknowledge now id token ds in
      if hit then (w', ds', committed) else (w, ds, lease_lost)

  pub process_one : ℕ → ℕ → ClaimedDelivery → W → List Delivery → W × List Delivery × Processed
  unfolding finish mark_failed
  process_one now token c w ds = elim (lookup c.trigger_key handlers) [
    | none ↦ (w, mark_failed c.delivery_id (no_handler_for c.trigger_key) ds, no_handler)
    | some h ↦ elim (h c.envelope w) [
      | err reason ↦ (w, mark_failed c.delivery_id reason ds, handler_failed)
      | ok w' ↦ finish now token c.delivery_id w w' ds
    ]
  ]

  -- The loop of `ClaimAndProcess` over the details; it counts the deliveries that succeeded.
  pub process_all : ℕ → ℕ → List ClaimedDelivery → ℕ → W → List Delivery → W × List Delivery × ℕ
  unfolding process_one
  process_all now token [] n w ds = (w, ds, n)
  process_all now token (c ∷ cs) n w ds =
      let (w', ds', r) = process_one now token c w ds in
      process_all now token cs (elim r [ committed ↦ n + 1 | _ ↦ n ]) w' ds'

  -- `ClaimAndProcess`, run with no other worker in between. `lease_duration` is `e.leaseDuration`, in
  -- nanoseconds like `now`; the statement hands it to make_interval as seconds.
  pub claim_and_process : ℕ → ℕ → ℕ → ℕ → W → Queue → W × Queue × ℕ
  unfolding claim load_details process_all
  claim_and_process now token lease_duration batch w q =
      let (ds, ids) = claim token now (now + lease_duration) batch q.deliveries in
      let (w', ds', n) = process_all now token (load_details ids q ds) 0 w ds in
      (w', record q { deliveries = ds' }, n)
