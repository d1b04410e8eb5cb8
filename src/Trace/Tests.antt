-- ===== src/Trace/Tests.antt =====
-- Work products 1, 2 and 3, whose links form a ring, and a fourth that relies on the first.
use delmos.Base.{
  ℕ, ◌≡◌, ◌↔◌, refl, inl, inr, arith, Bool, true, false, none, some, List, [], ◌∷◌, find,
}
use delmos.Trace.{TraceLink, propagate_suspect, impact, rounds, first_rows}
use delmos.Trace.Impact.{rounds-enough}
use delmos.Trace.Marks.{Reached, propagate_suspect-marks}

abbrev link : ℕ → ℕ → ℕ → Bool → TraceLink
link id source target suspect = record {
  id = id;
  project_id = 7;
  source_id = source;
  source_revision_id = none;
  target_id = target;
  target_revision_id = none;
  relation_kind = "refines";
  is_suspect = suspect;
}

abbrev links : List TraceLink
links =
    link 10 2 1 false
    ∷ link 11 3 2 false
    ∷ link 12 1 3 false
    ∷ link 13 4 1 false
    ∷ link 14 5 4 true
    ∷ link 15 2 6 false
    ∷ []

propagated : propagate_suspect 7 3 links ≡ (
  link 10 2 1 true
      ∷ link 11 3 2 true
      ∷ link 12 1 3 true
      ∷ link 13 4 1 true
      ∷ link 14 5 4 true
      ∷ link 15 2 6 false
      ∷ [],
  5,
)
unfolding propagate_suspect impact rounds
propagated = refl

propagate_suspect-marks_example :
    (b : Bool) × (find (λ x. x.id) 13 (propagate_suspect 7 3 links).0 ≡ some (link 13 4 1 b))
    × ((b ≡ true) ↔ Reached 7 3 links (link 13 4 1 false))
propagate_suspect-marks_example =
    propagate_suspect-marks 7 3 links (link 13 4 1 false)
      (refl, (refl, (refl, (refl, (refl, (refl, tt)))))) (inr (inr (inr (inl refl))))

rounds-enough_example : rounds 120 7 links (first_rows 7 3 links) ≡ impact 7 3 links
rounds-enough_example = rounds-enough 7 3 links 120 (omega arith)
