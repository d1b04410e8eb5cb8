-- ===== src/Automation/Outbox.antt =====
-- The transactional outbox: events (internal/automation/envelope.go) and their routing to
-- deliveries (internal/automation/dispatcher.go).
pub mod Dispatch
mod Tests
use delmos.Base.{
  ℕ, zero, suc, ◌+◌, String, Bool, true, false, not, ◌&&◌, Option, none, some, List, [], ◌∷◌, ◌++◌,
  Dict, str_eq, ◌==◌, if◌then◌else◌, length,
}
use delmos.Automation.Value.{Value}

-- `Envelope`; identifiers and times are numbers.
pub record Envelope : Type 0 where
  pub event_id : ℕ
  pub event_key : String
  pub schema_version : String
  pub source : String
  pub occurred_at : ℕ
  pub scope_type : String
  pub scope_id : Option ℕ
  pub actor_user_id : Option ℕ
  pub correlation_id : ℕ
  pub causation_id : ℕ
  pub payload : Dict Value

-- A row of core.event_outbox. The list of rows is in the order of created_at.
pub record OutboxRow : Type 0 where
  pub id : ℕ
  pub event_key : String
  pub project_id : Option ℕ
  pub envelope : Envelope
  pub dispatched_at : Option ℕ

-- A row of core.trigger_subscriptions.
pub record Subscription : Type 0 where
  pub id : ℕ
  pub trigger_key : String
  pub event_key : String
  pub active : Bool

pub data Status : Type 0 where
  pending leased delivered dead_letter : Status

-- A row of core.event_deliveries. The list of rows is in the order of created_at.
pub record Delivery : Type 0 where
  pub id : ℕ
  pub outbox_event_id : ℕ
  pub subscription_id : ℕ
  pub status : Status
  pub lease_token : Option ℕ
  pub lease_until : Option ℕ
  pub delivery_attempts : ℕ
  pub max_attempts : ℕ
  pub last_error : Option String
  pub completed_at : Option ℕ

-- The tables of the engine. `next_id` is the supply behind gen_random_uuid().
pub record Queue : Type 0 where
  pub outbox : List OutboxRow
  pub subscriptions : List Subscription
  pub deliveries : List Delivery
  pub next_id : ℕ

-- `EmitEvent`, with the fresh event id and the time as arguments.
abbrev pub emit_event : ℕ → ℕ → String → Option ℕ → Option ℕ → ℕ → Dict Value → Queue → Queue
emit_event event_id now event_key project_id actor_user_id correlation_id payload q = record q {
  outbox =
      q.outbox
      ++ record {
        id = q.next_id;
        event_key = event_key;
        project_id = project_id;
        envelope = record {
          event_id = event_id;
          event_key = event_key;
          schema_version = "1.0.0";
          source = "delmos.core";
          occurred_at = now;
          scope_type = "project";
          scope_id = project_id;
          actor_user_id = actor_user_id;
          correlation_id = correlation_id;
          causation_id = correlation_id;
          payload = payload;
        };
        dispatched_at = none;
      }
        ∷ [];
  next_id = q.next_id + 1;
}

-- The columns that the insert leaves to their defaults: status pending, five attempts at most.
abbrev pub new_delivery : ℕ → ℕ → ℕ → Delivery
new_delivery id outbox_event_id subscription_id = record {
  id = id;
  outbox_event_id = outbox_event_id;
  subscription_id = subscription_id;
  status = pending;
  lease_token = none;
  lease_until = none;
  delivery_attempts = 0;
  max_attempts = 5;
  last_error = none;
  completed_at = none;
}

abbrev pub subscribes : String → Subscription → Bool
subscribes event_key s = str_eq s.event_key event_key && s.active

-- INSERT INTO core.event_deliveries ... SELECT, for one event: a delivery for each active
-- subscription to its key. The first number is the next fresh id.
pub route : ℕ → OutboxRow → List Subscription → List Delivery
route next r [] = []
route next r (s ∷ ss) =
    let here = subscribes r.event_key s in
    let rest = route (if here then next + 1 else next) r ss in
    if here then new_delivery next r.id s.id ∷ rest else rest

abbrev pub undispatched : OutboxRow → Bool
undispatched r = elim r.dispatched_at [ none ↦ true | some t ↦ false ]

-- The pending rows, `limit` of them at most: the query of `DispatchPending` has LIMIT 100.
pub pending_rows : ℕ → List OutboxRow → List OutboxRow
pending_rows zero rows = []
pending_rows (suc limit) [] = []
pending_rows (suc limit) (r ∷ rows) =
    let taken = pending_rows limit rows in
    let passed = pending_rows (suc limit) rows in if undispatched r then r ∷ taken else passed

-- UPDATE core.event_outbox SET dispatched_at = now() WHERE id = $1
pub mark_dispatched : ℕ → ℕ → List OutboxRow → List OutboxRow
mark_dispatched now id [] = []
mark_dispatched now id (r ∷ rows) =
    (if r.id == id then record r { dispatched_at = some now } else r) ∷ mark_dispatched now id rows

-- The loop over the pending rows.
pub dispatch_rows : ℕ → List OutboxRow → Queue → Queue
unfolding route mark_dispatched
dispatch_rows now [] q = q
dispatch_rows now (r ∷ rows) q =
    let made = route q.next_id r q.subscriptions in
    dispatch_rows now rows (record q {
      outbox = mark_dispatched now r.id q.outbox;
      deliveries = q.deliveries ++ made;
      next_id = q.next_id + length made;
    })

-- `DispatchPending`: the tables after it, and how many rows of the outbox it took.
pub dispatch_pending : ℕ → Queue → Queue × ℕ
unfolding pending_rows dispatch_rows
dispatch_pending now q =
    let rows = pending_rows 100 q.outbox in (dispatch_rows now rows q, length rows)
