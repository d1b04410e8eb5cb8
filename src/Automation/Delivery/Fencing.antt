-- ===== src/Automation/Delivery/Fencing.antt =====
-- Leases and the commits of a delivery, however the workers interleave
-- (internal/automation/dispatcher.go).
use delmos.Base.{
  ℕ, ◌+◌, ◌≤◌, ◌<◌, ◌≡◌, inl, inr, refl, arith, String, true, false, Option, none, some, List, [],
  ◌∷◌, ◌==◌, if◌then◌else◌, Bool-cases, Option-cases,
}
use delmos.Automation.Outbox.{Status, pending, leased, delivered, dead_letter, Delivery}
use delmos.Automation.Delivery.{claim, held, has_token, acknowledge, fail_row, mark_failed}
use delmos.Automation.Delivery.Rows.{
  row, UniqueIds, Claimed, row-claim, row-mark_failed, row-acknowledge, claim-UniqueIds,
  mark_failed-UniqueIds, acknowledge-UniqueIds, acknowledge-hit, row-id,
}

-- The row of the id exists and holds the token.
abbrev pub HoldsLease : ℕ → ℕ → List Delivery → Type 0
HoldsLease id token ds =
    (d : Delivery) × (row id ds ≡ some d) × (has_token token d.lease_token ≡ true)

-- What the workers may do to the table, in any order; each is one transaction. The number is the
-- commits of delivery `k`.
pub data Runs (k : ℕ) (start : List Delivery) : ℕ → List Delivery → Type 0 where
  begin : Runs k start 0 start
  claims :
      {n : ℕ} {ds : List Delivery} (token now until limit : ℕ)
      → Runs k start n ds
      → Runs k start n (claim token now until limit ds).0
  commits :
      {n m : ℕ} {ds : List Delivery} (now id token : ℕ)
      → Runs k start n ds
      → (acknowledge now id token ds).1 ≡ true
      → m ≡ (if id == k then n + 1 else n)
      → Runs k start m (acknowledge now id token ds).0
  fails :
      {n : ℕ} {ds : List Delivery} (id token : ℕ) (reason : String)
      → Runs k start n ds
      → HoldsLease id token ds
      → Runs k start n (mark_failed id reason ds)

-- A delivered row without a token can no longer be committed: 0 commits are left, else 1.
abbrev pub left_of : Status → Option ℕ → ℕ
left_of delivered none = 0
left_of _ _ = 1

abbrev pub commits_left : Option Delivery → ℕ
commits_left none = 1
commits_left (some d) = left_of d.status d.lease_token

left_of-le : (s : Status) (t : Option ℕ) → left_of s t ≤ 1
left_of-le delivered none = omega arith
left_of-le delivered (some t) = omega arith
left_of-le pending t = omega arith
left_of-le leased t = omega arith
left_of-le dead_letter t = omega arith

commits_left-le : (r : Option Delivery) → commits_left r ≤ 1
commits_left-le none = omega arith
commits_left-le (some d) = left_of-le d.status d.lease_token

commits_left-Claimed :
    (token now until : ℕ) (r s : Option Delivery)
    → Claimed token now until r s
    → commits_left s ≤ commits_left r
commits_left-Claimed token now until none s h = rw h (omega arith)
commits_left-Claimed token now until (some d) s (inl same) = rw same (omega arith)
commits_left-Claimed token now until (some d) s (inr (open_row, e)) = rw e (ground arith)

left_of-held : (s : Status) (t : Option ℕ) (token : ℕ) → has_token token t ≡ true → left_of s t ≡ 1
left_of-held s none token h = absurd (cc)
left_of-held pending (some t) token h = refl
left_of-held leased (some t) token h = refl
left_of-held delivered (some t) token h = refl
left_of-held dead_letter (some t) token h = refl

-- Acknowledging another row leaves the row of `k` as it is.
row-acknowledge_ne :
    (now id token k : ℕ) (ds : List Delivery)
    → (id == k) ≡ false
    → row k (acknowledge now id token ds).0 ≡ row k ds
row-acknowledge_ne now id token k ds ne = rw row-acknowledge (elim (Option-cases (row k ds)) [
  | inl e ↦ rw e
  | inr (d, e) ↦
      let it = row-id k ds d e in
      let other : held id token d ≡ false = ground arith in rw e (rw other)
])

commits_left-acknowledge :
    (now id token k : ℕ) (ds : List Delivery)
    → UniqueIds ds
    → (acknowledge now id token ds).1 ≡ true
    → (if id == k then 1 else 0) + commits_left (row k (acknowledge now id token ds).0)
      ≤ commits_left (row k ds)
commits_left-acknowledge now id token k ds u hit = elim (Bool-cases (id == k)) [
  | inr other ↦ rw (other, row-acknowledge_ne now id token k ds other) (omega arith)
  | inl same ↦
      let (d, found, holds) = acknowledge-hit now id token ds u hit in
      let here : id ≡ k = ground arith in
      let token_held : has_token token d.lease_token ≡ true = ground arith in
      rw (same, row-acknowledge now id token k ds, ← here, found)
        (rw (holds, left_of-held d.status d.lease_token token token_held) (omega arith))
]

commits_left-mark_failed :
    (id token k : ℕ) (reason : String) (ds : List Delivery)
    → HoldsLease id token ds
    → commits_left (row k (mark_failed id reason ds)) ≤ commits_left (row k ds)
commits_left-mark_failed id token k reason ds (d, found, holds) = elim (Bool-cases (id == k)) [
  | inr other ↦ rw (row-mark_failed id k reason ds, other) (omega arith)
  | inl same ↦
      let here : id ≡ k = ground arith in
      let before = left_of-held d.status d.lease_token token holds in
      let after = left_of-le (fail_row reason d).status none in
      rw (row-mark_failed id k reason ds, same, ← here, found) (omega (arith, before, after))
]

-- The rows stay unique, and the commits made and left are at most those left at the start.
Runs-invariant :
    (k : ℕ) (start : List Delivery) {n : ℕ} {ds : List Delivery}
    → UniqueIds start
    → Runs k start n ds
    → UniqueIds ds × (n + commits_left (row k ds) ≤ commits_left (row k start))
Runs-invariant k start u begin = (u, omega arith)
Runs-invariant k start u (claims {ds = ds} token now until limit r) =
    let (unique, bound) = Runs-invariant k start u r in
    (
      claim-UniqueIds token now until limit ds unique,
      omega (
        arith,
        commits_left-Claimed token now until (row k ds) _ (row-claim token now until limit k ds),
      ),
    )
Runs-invariant k start u (commits {ds = ds} now id token r hit count) =
    let (unique, bound) = Runs-invariant k start u r in
    (
      acknowledge-UniqueIds now id token ds unique,
      ground (arith, commits_left-acknowledge now id token k ds unique hit),
    )
Runs-invariant k start u (fails {ds = ds} id token reason r holds) =
    let (unique, bound) = Runs-invariant k start u r in
    (
      mark_failed-UniqueIds id reason ds unique,
      omega (arith, commits_left-mark_failed id token k reason ds holds),
    )

-- However the transactions of the workers interleave, each delivery is committed at most once, if
-- every failure is reported by the holder of the lease.
pub Runs-commits_once :
    (k : ℕ) (start : List Delivery) {n : ℕ} {ds : List Delivery}
    → UniqueIds start
    → Runs k start n ds
    → n ≤ 1
Runs-commits_once k start u r =
    omega (arith, (Runs-invariant k start u r).1, commits_left-le (row k start))

-- Under the same condition a delivery that stands as delivered, with no token, is never committed
-- again.
pub Runs-delivered_final :
    (k : ℕ) (start : List Delivery) {n : ℕ} {ds : List Delivery} (d : Delivery)
    → UniqueIds start
    → row k start ≡ some d
    → d.status ≡ delivered
    → d.lease_token ≡ none
    → Runs k start n ds
    → n ≡ 0
Runs-delivered_final k start d u e s t r =
    let spent : commits_left (row k start) ≡ 0 = rw e (rw (s, t)) in
    omega (arith, (Runs-invariant k start u r).1, spent)

-- `markFailed` does not look at the token, so the report of a worker that has lost its lease takes
-- a delivered row back to the queue: every delivered row with attempts left can then be claimed and
-- committed a second time.
pub mark_failed-reopens :
    (now token until : ℕ) (reason : String) (d : Delivery)
    → d.status ≡ delivered
    → d.delivery_attempts < d.max_attempts
    → (acknowledge now d.id token (claim token now until 1 (mark_failed d.id reason (d ∷ []))).0).1
      ≡ true
unfolding claim mark_failed acknowledge
mark_failed-reopens now token until reason d s room = ground arith
