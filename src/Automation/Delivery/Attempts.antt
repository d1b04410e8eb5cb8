-- ===== src/Automation/Delivery/Attempts.antt =====
-- A delivery that fails over and over: claims and failures in turn (`ClaimAndProcess` and
-- `markFailed` in internal/automation/dispatcher.go).
use delmos.Base.{
  ℕ, zero, suc, ◌+◌, ◌≤◌, ◌<◌, ◌≡◌, ◌≢◌, ◌⊎◌, inl, inr, refl, ap, ◌∙◌, subst, arith, String, true,
  false, some, List, [], ◌∷◌, ◌==◌, if◌then◌else◌, All, length, leb, Bool-cases,
}
use delmos.Automation.Outbox.{pending, leased, dead_letter, Delivery}
use delmos.Automation.Delivery.{claimable, lease, claim, listed, fail_row, mark_failed}
use delmos.Automation.Delivery.Rows.{
  row, UniqueIds, Claimed, row-claim, row-mark_failed, claim-UniqueIds, mark_failed-UniqueIds,
}

-- One round of a worker whose batch has room for the whole table: it claims, and where it got the
-- delivery, that fails.
pub record Round : Type 0 where
  pub token : ℕ
  pub now : ℕ
  pub lease_until : ℕ
  pub reason : String

abbrev pub claimed_by : Round → List Delivery → List Delivery × List ℕ
claimed_by r ds = claim r.token r.now r.lease_until (length ds) ds

abbrev pub failed_round : ℕ → Round → List Delivery → List Delivery
failed_round id r ds =
    let (taken, ids) = claimed_by r ds in
    if listed id ids then mark_failed id r.reason taken else taken

abbrev pub failed_rounds : ℕ → List Round → List Delivery → List Delivery
failed_rounds id [] ds = ds
failed_rounds id (r ∷ rs) ds = failed_rounds id rs (failed_round id r ds)

claim-takes :
    (token now until limit id : ℕ) (ds : List Delivery) (d : Delivery)
    → length ds ≤ limit
    → row id ds ≡ some d
    → claimable now d ≡ true
    → (row id (claim token now until limit ds).0 ≡ some (lease token until d))
      × (listed id (claim token now until limit ds).1 ≡ true)
unfolding claim
claim-takes token now until zero id [] d room found open_row = absurd (cc)
claim-takes token now until zero id (e ∷ ds) d room found open_row = absurd (omega (arith, room))
claim-takes token now until (suc limit) id [] d room found open_row = absurd (cc)
claim-takes token now until (suc limit) id (e ∷ ds) d room found open_row =
    elim (Bool-cases (e.id == id)) [
      | inl it ↦
          let same : e ≡ d = cc (rw it at found) in
          let its : claimable now e ≡ true = ap (claimable now) same ∙ open_row in
          let other_way : (id == e.id) ≡ true = ground (arith, it) in
          rw (its, claim) (rw (it, other_way) (ap (λ x. some (lease token until x)) same, refl))
      | inr other ↦
          let other_way : (id == e.id) ≡ false = ground (arith, other) in
          let later = rw other at found in
          elim (Bool-cases (claimable now e)) [
            | inl taken ↦
                rw (taken, claim)
                  (rw (other, other_way)
                    (claim-takes token now until limit id ds d (omega (arith, room)) later
                      open_row))
            | inr shut ↦
                rw (shut, claim)
                  (rw other (
                    claim-takes token now until (suc limit) id ds d (omega (arith, room)) later
                      open_row))
          ]
    ]

not_listed :
    (token now until limit id : ℕ) (ds : List Delivery)
    → All (λ e. e.id ≢ id) ds
    → listed id (claim token now until limit ds).1 ≡ false
unfolding claim
not_listed token now until zero id ds h = refl
not_listed token now until (suc limit) id [] h = refl
not_listed token now until (suc limit) id (d ∷ ds) h = elim (Bool-cases (claimable now d)) [
  | inl taken ↦
      let other : (id == d.id) ≡ false = ground (arith, h.0) in
      rw (taken, claim) (rw other (not_listed token now until limit id ds h.1))
  | inr shut ↦ rw (shut, claim) (not_listed token now until (suc limit) id ds h.1)
]

claim-passes :
    (token now until limit id : ℕ) (ds : List Delivery) (d : Delivery)
    → UniqueIds ds
    → row id ds ≡ some d
    → claimable now d ≡ false
    → listed id (claim token now until limit ds).1 ≡ false
unfolding claim
claim-passes token now until zero id ds d unique found shut = refl
claim-passes token now until (suc limit) id [] d unique found shut = refl
claim-passes token now until (suc limit) id (e ∷ ds) d unique found shut =
    elim (Bool-cases (e.id == id)) [
      | inl it ↦
          let same : e ≡ d = cc (rw it at found) in
          let its : claimable now e ≡ false = ap (claimable now) same ∙ shut in
          let key : e.id ≡ id = ground (arith, it) in
          rw (its, claim) (not_listed token now until (suc limit) id ds (rw key at unique.0))
      | inr other ↦
          let other_way : (id == e.id) ≡ false = ground (arith, other) in
          let later = rw other at found in
          elim (Bool-cases (claimable now e)) [
            | inl taken ↦
                rw (taken, claim)
                  (rw other_way (claim-passes token now until limit id ds d unique.1 later shut))
            | inr closed ↦
                rw (closed, claim)
                  (claim-passes token now until (suc limit) id ds d unique.1 later shut)
          ]
    ]

row-stays :
    (token now until limit id : ℕ) (ds : List Delivery) (d : Delivery)
    → row id ds ≡ some d
    → claimable now d ≡ false
    → row id (claim token now until limit ds).0 ≡ some d
row-stays token now until limit id ds d found shut =
    let its =
      subst (λ o. Claimed token now until o (row id (claim token now until limit ds).0)) found
        (row-claim token now until limit id ds) in
    elim its [ inl same ↦ same | inr (taken, leased_now) ↦ absurd (cc) ]

-- What the next claim does to the row.
abbrev pub Taken : ℕ → List Delivery → Type 0
Taken id ds =
    (r : Round)
    → (e : Delivery) × (row id (claimed_by r ds).0 ≡ some e)
      × (e.status ≡ leased)
      × (e.lease_token ≡ some r.token)
      × (listed id (claimed_by r ds).1 ≡ true)

abbrev pub LeftAlone : ℕ → Delivery → List Delivery → Type 0
LeftAlone id d ds =
    (token now until limit : ℕ)
    → (row id (claim token now until limit ds).0 ≡ some d)
      × (listed id (claim token now until limit ds).1 ≡ false)

dead-LeftAlone :
    (id : ℕ) (ds : List Delivery) (d : Delivery)
    → UniqueIds ds
    → row id ds ≡ some d
    → d.status ≡ dead_letter
    → LeftAlone id d ds
dead-LeftAlone id ds d unique found dead token now until limit =
    let shut : claimable now d ≡ false = rw dead refl in
    (
      row-stays token now until limit id ds d found shut,
      claim-passes token now until limit id ds d unique found shut,
    )

failed_round-dead :
    (id : ℕ) (r : Round) (ds : List Delivery) (d : Delivery)
    → UniqueIds ds
    → row id ds ≡ some d
    → d.status ≡ dead_letter
    → row id (failed_round id r ds) ≡ some d
failed_round-dead id r ds d unique found dead =
    let (stays, missed) =
      dead-LeftAlone id ds d unique found dead r.token r.now r.lease_until (length ds) in
    rw missed stays

failed_round-pending :
    (id : ℕ) (r : Round) (ds : List Delivery) (d : Delivery)
    → row id ds ≡ some d
    → d.status ≡ pending
    → row id (failed_round id r ds) ≡ some (fail_row r.reason (lease r.token r.lease_until d))
failed_round-pending id r ds d found waits =
    let open_row : claimable r.now d ≡ true = rw waits refl in
    let (taken, got) =
      claim-takes r.token r.now r.lease_until (length ds) id ds d (omega arith) found open_row in
    let same : (id == id) ≡ true = ground arith in
    rw got (row-mark_failed id id r.reason (claimed_by r ds).0 ∙ rw (same, taken) refl)

failed_round-UniqueIds :
    (id : ℕ) (r : Round) (ds : List Delivery) → UniqueIds ds → UniqueIds (failed_round id r ds)
failed_round-UniqueIds id r ds unique =
    let taken = claim-UniqueIds r.token r.now r.lease_until (length ds) ds unique in
    elim (Bool-cases (listed id (claimed_by r ds).1)) [
      | inl got ↦ rw got (mark_failed-UniqueIds id r.reason (claimed_by r ds).0 taken)
      | inr missed ↦ rw missed taken
    ]

-- The row after `n` failed rounds from `attempts` attempts.
abbrev pub After : ℕ → ℕ → ℕ → ℕ → List Delivery → Type 0
After id attempts max n ds =
    (e : Delivery) × (row id ds ≡ some e)
    × (((attempts + n < max)
          × (e.status ≡ pending)
          × (e.delivery_attempts ≡ attempts + n)
          × Taken id ds)
        ⊎ ((max ≤ attempts + n)
            × (e.status ≡ dead_letter)
            × (e.delivery_attempts ≡ max)
            × LeftAlone id e ds))

rounds-dead :
    (id : ℕ) (rs : List Round) (ds : List Delivery) (d : Delivery)
    → UniqueIds ds
    → row id ds ≡ some d
    → d.status ≡ dead_letter
    → (row id (failed_rounds id rs ds) ≡ some d) × LeftAlone id d (failed_rounds id rs ds)
rounds-dead id [] ds d unique found dead = (found, dead-LeftAlone id ds d unique found dead)
rounds-dead id (r ∷ rs) ds d unique found dead =
    rounds-dead id rs (failed_round id r ds) d (failed_round-UniqueIds id r ds unique)
      (failed_round-dead id r ds d unique found dead) dead

pending-Taken :
    (id : ℕ) (ds : List Delivery) (d : Delivery)
    → row id ds ≡ some d
    → d.status ≡ pending
    → Taken id ds
pending-Taken id ds d found waits r =
    let open_row : claimable r.now d ≡ true = rw waits refl in
    let (taken, got) =
      claim-takes r.token r.now r.lease_until (length ds) id ds d (omega arith) found open_row in
    (lease r.token r.lease_until d, taken, refl, refl, got)

-- In a table whose ids are unique, a pending delivery with attempts left goes through so many rounds,
-- in each of which it fails if the claim takes it. While its attempts and the rounds are fewer than the maximum, it
-- is pending, has one attempt more for each round, and the next claim with room for the table takes
-- it. Once they reach the maximum, it is a dead letter with exactly the maximum of attempts, and no
-- claim takes or changes it.
pub failed_rounds-dead_letter :
    (id : ℕ) (rs : List Round) (ds : List Delivery) (d : Delivery)
    → UniqueIds ds
    → row id ds ≡ some d
    → d.status ≡ pending
    → d.delivery_attempts < d.max_attempts
    → After id d.delivery_attempts d.max_attempts (length rs) (failed_rounds id rs ds)
failed_rounds-dead_letter id [] ds d unique found waits left =
    (d, found, inl (omega (arith, left), waits, omega arith, pending-Taken id ds d found waits))
failed_rounds-dead_letter id (r ∷ rs) ds d unique found waits left =
    let next = fail_row r.reason (lease r.token r.lease_until d) in
    let ds' = failed_round id r ds in
    let unique' = failed_round-UniqueIds id r ds unique in
    let found' : row id ds' ≡ some next = failed_round-pending id r ds d found waits in
    elim (Bool-cases (leb d.max_attempts (d.delivery_attempts + 1))) [
      | inl spent ↦
          let dead : next.status ≡ dead_letter = rw spent refl in
          let (stays, alone) = rounds-dead id rs ds' next unique' found' dead in
          (next, stays, inr (ground (arith, spent), dead, ground (arith, spent, left), alone))
      | inr again ↦
          let waits' : next.status ≡ pending = rw again refl in
          let (e, at_end, outcome) =
            failed_rounds-dead_letter id rs ds' next unique' found' waits'
              (ground (arith, again)) in
          (
            e,
            at_end,
            elim outcome [
              | inl (fewer, still, attempts, taken) ↦
                  inl (omega (arith, fewer), still, omega (arith, attempts), taken)
              | inr (reached, dead, attempts, alone) ↦
                  inr (omega (arith, reached), dead, attempts, alone)
            ],
          )
    ]
