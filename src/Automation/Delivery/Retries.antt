-- ===== src/Automation/Delivery/Retries.antt =====
-- Processing one delivery, and failing over and over (`processOne` and `markFailed` in
-- internal/automation/dispatcher.go).
use delmos.Base.{
  ℕ, ◌≤◌, ◌<◌, ◌≡◌, ◌≢◌, ◌⊎◌, inl, inr, refl, ap, ◌∙◌, arith, String, true, false, Option, none,
  some, List, [], ◌∷◌, Dict, lookup, ok, err, ◌==◌, leb, Bool-cases, Option-cases, Result-cases,
}
use delmos.Automation.Outbox.{Status, pending, delivered, dead_letter, Delivery}
use delmos.Automation.Delivery.{
  has_token, held, ack_row, acknowledge, fail_row, mark_failed, Handler, ClaimedDelivery, Processed,
  committed, no_handler, handler_failed, lease_lost, process_one, no_handler_for,
}
use delmos.Automation.Delivery.Rows.{
  row, UniqueIds, row-acknowledge, row-mark_failed, acknowledge-hit, row-id,
}

-- All rows but one are as they were.
abbrev pub Elsewhere : ℕ → List Delivery → List Delivery → Type 0
Elsewhere id ds ds' = (k : ℕ) → k ≢ id → row k ds' ≡ row k ds

-- The status of a delivery that failed at its so-manieth attempt.
abbrev pub FailedStatus : ℕ → ℕ → Status → Type 0
FailedStatus attempts max s =
    ((attempts < max) × (s ≡ pending)) ⊎ ((max ≤ attempts) × (s ≡ dead_letter))

-- The row holds the error and no token; its attempts are counted already.
abbrev pub RecordsFailure : String → Delivery → Delivery → Type 0
RecordsFailure reason d e =
    FailedStatus d.delivery_attempts d.max_attempts e.status
    × (e.last_error ≡ some reason)
    × (e.lease_token ≡ none)
    × (e.delivery_attempts ≡ d.delivery_attempts)
    × (e.max_attempts ≡ d.max_attempts)

fail_row-RecordsFailure :
    (reason : String) (d : Delivery) → RecordsFailure reason d (fail_row reason d)
fail_row-RecordsFailure reason d = elim (Bool-cases (leb d.max_attempts d.delivery_attempts)) [
  | inl spent ↦ (inr (ground (arith, spent), rw spent refl), refl, refl, refl, refl)
  | inr again ↦ (inl (ground (arith, again), rw again refl), refl, refl, refl, refl)
]

-- A failure is recorded in the row of the delivery, if there is one, and nowhere else.
abbrev pub FailureRecorded : ℕ → String → List Delivery → List Delivery → Type 0
FailureRecorded id reason ds ds' =
    ((d : Delivery)
      → row id ds ≡ some d
      → (e : Delivery) × (row id ds' ≡ some e) × RecordsFailure reason d e)
    × Elsewhere id ds ds'

mark_failed-FailureRecorded :
    (id : ℕ) (reason : String) (ds : List Delivery)
    → FailureRecorded id reason ds (mark_failed id reason ds)
mark_failed-FailureRecorded id reason ds =
    let same : (id == id) ≡ true = ground arith in
    (
      λ d found. (
        fail_row reason d,
        row-mark_failed id id reason ds ∙ rw (same, found) refl,
        fail_row-RecordsFailure reason d,
      ),
      λ k other.
          let apart : (id == k) ≡ false = ground (arith, other) in
          row-mark_failed id k reason ds ∙ rw apart refl,
    )

-- The row held the worker's token, and is delivered now.
abbrev pub Acknowledged : ℕ → ℕ → ℕ → List Delivery → List Delivery → Type 0
Acknowledged now id token ds ds' =
    (d : Delivery) × (e : Delivery) × (row id ds ≡ some d)
    × (d.lease_token ≡ some token)
    × (row id ds' ≡ some e)
    × (e.status ≡ delivered)
    × (e.completed_at ≡ some now)
    × (e.lease_token ≡ none)
    × Elsewhere id ds ds'

has_token-some : (token : ℕ) (o : Option ℕ) → has_token token o ≡ true → o ≡ some token
has_token-some token none h = absurd (cc)
has_token-some token (some t) h = ap some (ground (arith, h))

acknowledge-Elsewhere :
    (now id token : ℕ) (ds : List Delivery) → Elsewhere id ds (acknowledge now id token ds).0
acknowledge-Elsewhere now id token ds k other = elim (Option-cases (row k ds)) [
  | inl missing ↦ row-acknowledge now id token k ds ∙ rw missing refl
  | inr (d, found) ↦
      let its = row-id k ds d found in
      let not_held : held id token d ≡ false = ground (arith, its, other) in
      row-acknowledge now id token k ds ∙ rw (found, not_held) refl
]

acknowledge-Acknowledged :
    (now id token : ℕ) (ds : List Delivery)
    → UniqueIds ds
    → (acknowledge now id token ds).1 ≡ true
    → Acknowledged now id token ds (acknowledge now id token ds).0
acknowledge-Acknowledged now id token ds unique hit =
    let (d, found, holds) = acknowledge-hit now id token ds unique hit in
    (
      d,
      ack_row now d,
      found,
      has_token-some token d.lease_token (ground (arith, holds)),
      row-acknowledge now id token id ds ∙ rw (found, holds) refl,
      refl,
      refl,
      refl,
      acknowledge-Elsewhere now id token ds,
    )

-- No row with the id holds the token.
abbrev pub Lost : ℕ → ℕ → List Delivery → Type 0
Lost id token ds = (d : Delivery) → row id ds ≡ some d → d.lease_token ≢ some token

acknowledge-Lost :
    (now id token : ℕ) (ds : List Delivery)
    → (acknowledge now id token ds).1 ≡ false
    → Lost id token ds
unfolding acknowledge
acknowledge-Lost now id token [] miss d found has = absurd (cc)
acknowledge-Lost now id token (e ∷ ds) miss d found has = elim (Bool-cases (held id token e)) [
  | inl it ↦ absurd (cc (rw (it, acknowledge) at miss))
  | inr other ↦
      let rest = rw (other, acknowledge) at miss in
      elim (Bool-cases (e.id == id)) [
        | inr past ↦ acknowledge-Lost now id token ds rest d (rw past at found) has
        | inl here ↦
            let same : e ≡ d = cc (rw here at found) in
            let token_of = ap (λ x. x.lease_token) same ∙ has in
            let yes : has_token token e.lease_token ≡ true = rw token_of (ground arith) in
            absurd (ground (arith, other, here, yes))
      ]
]

-- What a call of `processOne` on the other tables `w` and the deliveries `ds` has done, by the error
-- it returns.
abbrev pub Effect :
    {W : Type 0}
    → Dict (Handler W)
    → ℕ
    → ℕ
    → ClaimedDelivery
    → W
    → List Delivery
    → W
    → List Delivery
    → Processed
    → Type 0
Effect {W} handlers now token c w ds w' ds' committed =
    (h : Handler W) × (lookup c.trigger_key handlers ≡ some h)
    × (h c.envelope w ≡ ok w')
    × Acknowledged now c.delivery_id token ds ds'
Effect {W} handlers now token c w ds w' ds' lease_lost =
    (w' ≡ w) × (ds' ≡ ds) × Lost c.delivery_id token ds
Effect {W} handlers now token c w ds w' ds' handler_failed =
    (h : Handler W) × (reason : String) × (lookup c.trigger_key handlers ≡ some h)
    × (h c.envelope w ≡ err reason)
    × (w' ≡ w)
    × FailureRecorded c.delivery_id reason ds ds'
Effect {W} handlers now token c w ds w' ds' no_handler =
    (lookup c.trigger_key handlers ≡ none)
    × (w' ≡ w)
    × FailureRecorded c.delivery_id (no_handler_for c.trigger_key) ds ds'

-- In a table whose ids are unique, `processOne` keeps the effect of a handler that goes well exactly
-- when the row of the delivery held the worker's token, and then the row is delivered and without a token. If the
-- token is lost, neither the other tables nor the deliveries change. If the handler fails or is
-- missing, the other tables do not change, and the row holds the error and no token; it is pending
-- while its attempts are fewer than the maximum, and a dead letter otherwise. No other row changes.
pub process_one-Effect :
    {W : Type 0} (handlers : Dict (Handler W)) (now token : ℕ) (c : ClaimedDelivery) (w : W)
    (ds : List Delivery)
    → UniqueIds ds
    → let (w', ds', r) = process_one handlers now token c w ds in
      Effect handlers now token c w ds w' ds' r
unfolding process_one
process_one-Effect handlers now token c w ds unique =
    elim (Option-cases (lookup c.trigger_key handlers)) [
      | inl missing ↦
          rw (missing, process_one)
            (
              missing,
              refl,
              mark_failed-FailureRecorded c.delivery_id (no_handler_for c.trigger_key) ds,
            )
      | inr (h, found) ↦ elim (Result-cases (h c.envelope w)) [
        | inr (reason, broke) ↦
            rw (found, process_one)
              (rw broke (
                h,
                reason,
                found,
                broke,
                refl,
                mark_failed-FailureRecorded c.delivery_id reason ds,
              ))
        | inl (w', done) ↦ elim (Bool-cases (acknowledge now c.delivery_id token ds).1) [
          | inl hit ↦
              rw (found, process_one)
                (rw done (
                  rw hit (
                    h,
                    found,
                    done,
                    acknowledge-Acknowledged now c.delivery_id token ds unique hit,
                  )))
          | inr lost ↦
              rw (found, process_one)
                (rw done (rw lost (refl, refl, acknowledge-Lost now c.delivery_id token ds lost)))
        ]
      ]
    ]
