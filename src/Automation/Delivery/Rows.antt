-- ===== src/Automation/Delivery/Rows.antt =====
-- What claiming, acknowledging and failing do to the row of one delivery.
use delmos.Base.{
  ℕ, zero, suc, ◌≡◌, ◌≢◌, ◌⊎◌, inl, inr, refl, arith, String, true, Option, none, some, List, [],
  ◌∷◌, ◌==◌, if◌then◌else◌, All, Bool-cases,
}
use delmos.Automation.Outbox.{Delivery}
use delmos.Automation.Delivery.{
  claimable, lease, claim, ack_row, held, acknowledge, fail_row, mark_failed,
}

-- The row with the id, the table's primary key.
abbrev pub row : ℕ → List Delivery → Option Delivery
row k [] = none
row k (d ∷ ds) = let rest = row k ds in if d.id == k then some d else rest

-- No id stands twice: the primary key.
abbrev pub UniqueIds : List Delivery → Type 0
UniqueIds [] = Unit
UniqueIds (d ∷ ds) = All (λ e. e.id ≢ d.id) ds × UniqueIds ds

abbrev pub on_row : (Delivery → Delivery) → Option Delivery → Option Delivery
on_row f none = none
on_row f (some d) = some (f d)

-- The row that a claim leaves: leased if it was claimable and its turn came, else as it was.
abbrev pub Claimed : ℕ → ℕ → ℕ → Option Delivery → Option Delivery → Type 0
Claimed token now until none r = r ≡ none
Claimed token now until (some d) r =
    (r ≡ some d) ⊎ ((claimable now d ≡ true) × (r ≡ some (lease token until d)))

Claimed-same : (token now until : ℕ) (r : Option Delivery) → Claimed token now until r r
Claimed-same token now until none = refl
Claimed-same token now until (some d) = inl refl

pub row-claim :
    (token now until limit k : ℕ) (ds : List Delivery)
    → Claimed token now until (row k ds) (row k (claim token now until limit ds).0)
unfolding claim
row-claim token now until zero k ds = Claimed-same token now until (row k ds)
row-claim token now until (suc limit) k [] = refl
row-claim token now until (suc limit) k (d ∷ ds) = elim (Bool-cases (claimable now d)) [
  | inl open_row ↦ elim (Bool-cases (d.id == k)) [
    | inl it ↦ rw (open_row, claim) (rw it (inr (open_row, refl)))
    | inr other ↦ rw (open_row, claim) (rw other (row-claim token now until limit k ds))
  ]
  | inr shut ↦ elim (Bool-cases (d.id == k)) [
    | inl it ↦ rw (shut, claim) (rw it (inl refl))
    | inr other ↦ rw (shut, claim) (rw other (row-claim token now until (suc limit) k ds))
  ]
]

pub row-mark_failed :
    (id k : ℕ) (reason : String) (ds : List Delivery)
    → row k (mark_failed id reason ds)
      ≡ (if id == k then on_row (fail_row reason) (row k ds) else row k ds)
unfolding mark_failed
row-mark_failed id k reason [] = ground arith
row-mark_failed id k reason (d ∷ ds) = ground (arith, row-mark_failed id k reason ds)

abbrev pub ack_if_held : ℕ → ℕ → ℕ → Delivery → Delivery
ack_if_held now id token d = if held id token d then ack_row now d else d

pub row-acknowledge :
    (now id token k : ℕ) (ds : List Delivery)
    → row k (acknowledge now id token ds).0 ≡ on_row (ack_if_held now id token) (row k ds)
unfolding acknowledge
row-acknowledge now id token k [] = refl
row-acknowledge now id token k (d ∷ ds) = ground (arith, row-acknowledge now id token k ds)

-- Each operation keeps the ids of the rows.
abbrev Avoids : ℕ → List Delivery → Type 0
Avoids k ds = All (λ d. d.id ≢ k) ds

claim-Avoids :
    (token now until limit k : ℕ) (ds : List Delivery)
    → Avoids k ds
    → Avoids k (claim token now until limit ds).0
unfolding claim
claim-Avoids token now until zero k ds h = h
claim-Avoids token now until (suc limit) k [] h = tt
claim-Avoids token now until (suc limit) k (d ∷ ds) h = elim (Bool-cases (claimable now d)) [
  | inl open_row ↦ rw (open_row, claim) (h.0, claim-Avoids token now until limit k ds h.1)
  | inr shut ↦ rw (shut, claim) (h.0, claim-Avoids token now until (suc limit) k ds h.1)
]

pub claim-UniqueIds :
    (token now until limit : ℕ) (ds : List Delivery)
    → UniqueIds ds
    → UniqueIds (claim token now until limit ds).0
unfolding claim
claim-UniqueIds token now until zero ds h = h
claim-UniqueIds token now until (suc limit) [] h = tt
claim-UniqueIds token now until (suc limit) (d ∷ ds) h = elim (Bool-cases (claimable now d)) [
  | inl open_row ↦
      rw (open_row, claim)
        (
          claim-Avoids token now until limit d.id ds h.0,
          claim-UniqueIds token now until limit ds h.1,
        )
  | inr shut ↦
      rw (shut, claim)
        (
          claim-Avoids token now until (suc limit) d.id ds h.0,
          claim-UniqueIds token now until (suc limit) ds h.1,
        )
]

mark_failed-Avoids :
    (id k : ℕ) (reason : String) (ds : List Delivery)
    → Avoids k ds
    → Avoids k (mark_failed id reason ds)
unfolding mark_failed
mark_failed-Avoids id k reason [] h = tt
mark_failed-Avoids id k reason (d ∷ ds) h = (
  elim (Bool-cases (d.id == id)) [ inl it ↦ rw it h.0 | inr other ↦ rw other h.0 ],
  mark_failed-Avoids id k reason ds h.1,
)

pub mark_failed-UniqueIds :
    (id : ℕ) (reason : String) (ds : List Delivery)
    → UniqueIds ds
    → UniqueIds (mark_failed id reason ds)
unfolding mark_failed
mark_failed-UniqueIds id reason [] h = tt
mark_failed-UniqueIds id reason (d ∷ ds) h = elim (Bool-cases (d.id == id)) [
  | inl it ↦
      rw it (mark_failed-Avoids id d.id reason ds h.0, mark_failed-UniqueIds id reason ds h.1)
  | inr other ↦
      rw other (mark_failed-Avoids id d.id reason ds h.0, mark_failed-UniqueIds id reason ds h.1)
]

acknowledge-Avoids :
    (now id token k : ℕ) (ds : List Delivery)
    → Avoids k ds
    → Avoids k (acknowledge now id token ds).0
unfolding acknowledge
acknowledge-Avoids now id token k [] h = tt
acknowledge-Avoids now id token k (d ∷ ds) h = elim (Bool-cases (held id token d)) [
  | inl it ↦ rw (it, acknowledge) (h.0, acknowledge-Avoids now id token k ds h.1)
  | inr other ↦ rw (other, acknowledge) (h.0, acknowledge-Avoids now id token k ds h.1)
]

pub acknowledge-UniqueIds :
    (now id token : ℕ) (ds : List Delivery)
    → UniqueIds ds
    → UniqueIds (acknowledge now id token ds).0
unfolding acknowledge
acknowledge-UniqueIds now id token [] h = tt
acknowledge-UniqueIds now id token (d ∷ ds) h = elim (Bool-cases (held id token d)) [
  | inl it ↦
      rw (it, acknowledge)
        (acknowledge-Avoids now id token d.id ds h.0, acknowledge-UniqueIds now id token ds h.1)
  | inr other ↦
      rw (other, acknowledge)
        (acknowledge-Avoids now id token d.id ds h.0, acknowledge-UniqueIds now id token ds h.1)
]

row-Avoids : (k : ℕ) (ds : List Delivery) → Avoids k ds → row k ds ≡ none
row-Avoids k [] h = refl
row-Avoids k (d ∷ ds) h = ground (arith, row-Avoids k ds h.1, h.0)

-- An acknowledgement that affects a row affects the row of the id, which holds the token.
pub acknowledge-hit :
    (now id token : ℕ) (ds : List Delivery)
    → UniqueIds ds
    → (acknowledge now id token ds).1 ≡ true
    → (d : Delivery) × (row id ds ≡ some d) × (held id token d ≡ true)
unfolding acknowledge
acknowledge-hit now id token [] u h = absurd (cc)
acknowledge-hit now id token (d ∷ ds) u h = elim (Bool-cases (held id token d)) [
  | inl it ↦ (d, ground arith, it)
  | inr other ↦
      let (e, found, holds) = acknowledge-hit now id token ds u.1 (rw (other, acknowledge) at h) in
      elim (Bool-cases (d.id == id)) [
        | inl same ↦ absurd (ground (arith, row-Avoids d.id ds u.0))
        | inr differs ↦ (e, rw (differs) found, holds)
      ]
]

pub row-id : (k : ℕ) (ds : List Delivery) (d : Delivery) → row k ds ≡ some d → d.id ≡ k
row-id k [] d h = absurd (cc)
row-id k (e ∷ ds) d h = elim (Bool-cases (e.id == k)) [
  | inl it ↦ let same : e ≡ d = cc (rw it at h) in rw (← same) (ground arith)
  | inr other ↦ row-id k ds d (rw other at h)
]
