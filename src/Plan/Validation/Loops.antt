-- ===== src/Plan/Validation/Loops.antt =====
-- The loops over keys and references in the validation (internal/project/plan.go).
use text.Mathlib.TextEquality.{eq_iff}
use delmos.Base.{
  Distinct, ◌≡◌, ◌≢◌, ◌↔◌, refl, arith, String, Bool, true, false, not, ◌||◌, List, [], ◌∷◌, ok,
  err, ◌>>◌, fail_if, All, contains, str_eq,
}
use delmos.Plan.Validation.{
  ManifestError, bad_keys, bad_dependency, Check, matches_key, validate_keys_from, validate_keys,
  check_dependencies,
}
use delmos.Plan.Validation.Spec.{GoodKeys}

pub >>-ok : (a b : Check) → ((a >> b) ≡ ok tt) ↔ ((a ≡ ok tt) × (b ≡ ok tt))
>>-ok (ok tt) b = (λ h. (refl, h), λ h. h.1)
>>-ok (err e) b = (λ h. absurd (cc), λ h. absurd (cc))

pub fail_if-ok : (b : Bool) (e : ManifestError) → (fail_if b e ≡ ok tt) ↔ (b ≡ false)
fail_if-ok true e = (λ h. absurd (cc), λ h. absurd (cc))
fail_if-ok false e = (λ h. refl, λ h. refl)

-- No key of the list is in `seen`.
abbrev Apart : List String → List String → Type 0
Apart seen ks = All (λ k. contains k seen ≡ false) ks

Apart-none : (ks : List String) → Apart [] ks
Apart-none [] = tt
Apart-none (k ∷ ks) = (refl, Apart-none ks)

Apart-push :
    (k : String) (seen ks : List String)
    → Apart (k ∷ seen) ks ↔ ((contains k ks ≡ false) × Apart seen ks)
Apart-push k seen [] = (λ h. (refl, tt), λ h. tt)
Apart-push k seen (j ∷ ks) =
    let ih = Apart-push k seen ks in
    (
      λ h. (
        ground (arith, eq_iff k j, eq_iff j k, ih.0 h.1),
        (ground (arith, eq_iff k j, eq_iff j k), (ih.0 h.1).1),
      ),
      λ h. (
        ground (arith, eq_iff k j, eq_iff j k),
        ih.1 (ground (arith, eq_iff k j, eq_iff j k), h.1.1),
      ),
    )

validate_keys_from-ok :
    (section : String) (seen ks : List String)
    → (validate_keys_from section seen ks ≡ ok tt)
      ↔ (All (λ k. matches_key k ≡ true) ks × Distinct ks × Apart seen ks)
unfolding validate_keys_from
validate_keys_from-ok section seen [] = (λ h. (tt, tt, tt), λ h. refl)
validate_keys_from-ok section seen (k ∷ ks) =
    let rest = validate_keys_from section (k ∷ seen) ks in
    let ih = validate_keys_from-ok section (k ∷ seen) ks in
    let bad = not (matches_key k) || contains k seen in
    (
      λ h.
          let (test, later) = (>>-ok _ rest).0 h in
          let good = (fail_if-ok bad (bad_keys section)).0 test in
          let (spelled, distinct, apart) = ih.0 later in
          let (new, far) = (Apart-push k seen ks).0 apart in
          ((ground arith, spelled), (new, distinct), (ground arith, far)),
      λ (spelled, distinct, apart). (>>-ok _ rest).1 (
        (fail_if-ok bad (bad_keys section)).1 (ground arith),
        ih.1 (spelled.1, distinct.1, (Apart-push k seen ks).1 (distinct.0, apart.1)),
      ),
    )

-- `validateKeys` passes the lists of well-spelled keys without repetition, and no other.
pub validate_keys-ok :
    (section : String) (ks : List String) → (validate_keys section ks ≡ ok tt) ↔ GoodKeys ks
unfolding validate_keys
validate_keys-ok section ks =
    let lemma = validate_keys_from-ok section [] ks in
    (
      λ h.
          let (spelled, distinct, apart) = lemma.0 h in
          record { spelled = spelled; distinct = distinct },
      λ g. lemma.1 (g.spelled, g.distinct, Apart-none ks),
    )

check_dependencies-from_ok :
    (keys : List String) (key : String) (seen ds : List String)
    → (check_dependencies keys key seen ds ≡ ok tt)
      ↔ (All (λ d. (d ≢ key) × (contains d keys ≡ true)) ds × Distinct ds × Apart seen ds)
unfolding check_dependencies
check_dependencies-from_ok keys key seen [] = (λ h. (tt, tt, tt), λ h. refl)
check_dependencies-from_ok keys key seen (d ∷ ds) =
    let rest = check_dependencies keys key (d ∷ seen) ds in
    let ih = check_dependencies-from_ok keys key (d ∷ seen) ds in
    let bad = str_eq d key || not (contains d keys) || contains d seen in
    (
      λ h.
          let (test, later) = (>>-ok _ rest).0 h in
          let good = (fail_if-ok bad (bad_dependency key d)).0 test in
          let (others, distinct, apart) = ih.0 later in
          let (new, far) = (Apart-push d seen ds).0 apart in
          (
            ((λ e. ground (arith, eq_iff d key), ground arith), others),
            (new, distinct),
            (ground arith, far),
          ),
      λ (others, distinct, apart). (>>-ok _ rest).1 (
        (fail_if-ok bad (bad_dependency key d)).1 (ground (arith, eq_iff d key)),
        ih.1 (others.1, distinct.1, (Apart-push d seen ds).1 (distinct.0, apart.1)),
      ),
    )

-- The loop over `DependsOn` passes lists of other phases without repetition, and no other.
pub check_dependencies-ok :
    (keys : List String) (key : String) (ds : List String)
    → (check_dependencies keys key [] ds ≡ ok tt)
      ↔ (All (λ d. (d ≢ key) × (contains d keys ≡ true)) ds × Distinct ds)
check_dependencies-ok keys key ds =
    let lemma = check_dependencies-from_ok keys key [] ds in
    (
      λ h. let (others, distinct, apart) = lemma.0 h in (others, distinct),
      λ g. lemma.1 (g.0, g.1, Apart-none ds),
    )
