-- ===== src/Gate/Evidence.antt =====
-- What an accepted milestone rests on (`AcceptMilestone` in internal/project/milestone.go).
use mathlib.Core.List.{append-nil, append_assoc}
use delmos.Base.{
  ℕ, suc, ◌≡◌, ◌≢◌, refl, sym, ap, ◌∙◌, subst, arith, String, true, false, not, Option, none, some,
  List, [], ◌∷◌, ◌++◌, ok, ◌>>=◌, need-ok, need-some, ◌||◌, bind-ok, fail_if-ok, ok-same, ◌==◌,
  str_eq, str_eq→≡, All, Among, length, find, find-Among, first, first-passes, any, Bool-cases, inl,
  inr,
}
use delmos.Plan.Manifest.{GenericPlanManifest, Deliverable}
use delmos.Plan.Projection.{EvidenceRow}
use delmos.Review.Tables.{
  WorkStatus, draft, in_review, approved, obsolete, WorkProduct, WorkProductRevision, Tables, Call,
  in_project, find_work, latest_revision, status_text,
}
use delmos.Gate.Milestones

-- The rows belong to the keys, one to one and in their order.
abbrev pub Each : {A B : Type 0} → (A → B → Type 0) → List A → List B → Type 0
Each P [] [] = Unit
Each P [] (e ∷ es) = ⊥
Each P (k ∷ ks) [] = ⊥
Each P (k ∷ ks) (e ∷ es) = P k e × Each P ks es

pub Each-length :
    {A B : Type 0} (P : A → B → Type 0) (ks : List A) (es : List B)
    → Each P ks es
    → length es ≡ length ks
Each-length P [] [] h = refl
Each-length P [] (e ∷ es) h = absurd h
Each-length P (k ∷ ks) [] h = absurd h
Each-length P (k ∷ ks) (e ∷ es) h = ap suc (Each-length P ks es h.1)

pub Each-All :
    {A B : Type 0} (P : A → B → Type 0) (Q : B → Type 0) (ks : List A) (es : List B)
    → ((k : A) (e : B) → P k e → Q e)
    → Each P ks es
    → All Q es
Each-All P Q [] [] f h = tt
Each-All P Q [] (e ∷ es) f h = absurd h
Each-All P Q (k ∷ ks) [] f h = absurd h
Each-All P Q (k ∷ ks) (e ∷ es) f h = (f k e h.0, Each-All P Q ks es f h.1)

in_project-some :
    (p : ℕ) (o : Option WorkProduct) (w : WorkProduct)
    → in_project p o ≡ some w
    → (o ≡ some w) × (w.project_id ≡ p)
in_project-some p none w h = absurd (cc)
in_project-some p (some x) w h = elim (Bool-cases (x.project_id == p)) [
  | inl ours ↦
      let same : x ≡ w = cc (rw ours at h) in
      (ap some same, ap (λ y. y.project_id) (sym same) ∙ ground (arith, ours))
  | inr other ↦ absurd (cc (rw other at h))
]

different : (a b : ℕ) → (a == b) ≡ false → a ≢ b
different a b h e = ground (arith, h, e)

is_approved : (s : WorkStatus) → Milestones.is_approved_work s ≡ true → s ≡ approved
is_approved draft h = absurd (cc)
is_approved in_review h = absurd (cc)
is_approved approved h = refl
is_approved obsolete h = absurd (cc)

module _ (parse_uuid : String → Option ℕ) where
  -- The evidence is for the decision and for a deliverable of the manifest with the key: it names the
  -- work product of that deliverable, which is in the project, approved and in the status that the
  -- deliverable requires, and its latest revision with the hash of that, whose author is not the
  -- person who decides.
  abbrev pub Sound : Call → ℕ → Tables → GenericPlanManifest → String → EvidenceRow → Type 0
  Sound c decision_id t m key e =
      (d : Deliverable) × (w : WorkProduct) × (v : WorkProductRevision) × (Among d m.deliverables
        × (d.key ≡ key))
      × (parse_uuid d.work_product_id ≡ some e.work_product_id)
      × ((find (λ x. x.id) e.work_product_id t.works ≡ some w) × (w.project_id ≡ c.project_id))
      × ((w.status ≡ approved) × (status_text w.status ≡ d.required_status))
      × (latest_revision e.work_product_id t.revisions ≡ some v)
      × ((e.revision_id ≡ v.id) × (e.payload_hash ≡ v.payload_hash))
      × (c.actor_id ≢ v.created_by)
      × (e.gate_decision_id ≡ decision_id)

  checked_evidence-Sound :
      (c : Call) (id : ℕ) (t : Tables) (m : GenericPlanManifest) (key : String) (d : Deliverable)
      (w : WorkProduct) (v : WorkProductRevision) (e : EvidenceRow)
      → Among d m.deliverables
      → d.key ≡ key
      → parse_uuid d.work_product_id ≡ some w.id
      → find (λ x. x.id) w.id t.works ≡ some w
      → w.project_id ≡ c.project_id
      → latest_revision w.id t.revisions ≡ some v
      → Milestones.checked_evidence c id d w v ≡ ok e
      → Sound c id t m key e
  checked_evidence-Sound c id t m key d w v e on its parsed found ours last h =
      let (other, on_status) = fail_if-ok (c.actor_id == v.created_by) _ _ e h in
      let (good, result) =
        fail_if-ok
          (not (str_eq (status_text w.status) d.required_status)
            || not (Milestones.is_approved_work w.status))
          _ _ e on_status in
      let it = ok-same _ e result in
      let approved_work : Milestones.is_approved_work w.status ≡ true = ground (arith, good) in
      let required = str_eq→≡ (status_text w.status) d.required_status (ground (arith, good)) in
      subst (Sound c id t m key) (sym it) (
        d,
        w,
        v,
        (on, its),
        parsed,
        (found, ours),
        (is_approved w.status approved_work, required),
        last,
        (refl, refl),
        different _ _ other,
        refl,
      )

  evidence_for-Sound :
      (c : Call) (id : ℕ) (t : Tables) (m : GenericPlanManifest) (key : String) (e : EvidenceRow)
      → Milestones.evidence_for parse_uuid c id t m key ≡ ok e
      → Sound c id t m key e
  unfolding Milestones.evidence_for
  evidence_for-Sound c id t m key e h =
      let (d, deliverable, on_work) =
        need-ok Milestones.milestone_not_ready (first (λ d. str_eq d.key key) m.deliverables)
          (λ d. Milestones.deliverable_work parse_uuid c t d >>= Milestones.evidence_from c id t d)
          e h in
      let (on, its) = first-passes (λ d. str_eq d.key key) m.deliverables d deliverable in
      let (w, work, on_revision) =
        bind-ok (Milestones.deliverable_work parse_uuid c t d) (Milestones.evidence_from c id t d) e
          on_work in
      let (named, on_parse) = fail_if-ok (str_eq d.work_product_id "") _ _ w work in
      let (n, parsed, on_found) = need-ok _ (parse_uuid d.work_product_id) _ w on_parse in
      let (found, ours) =
        in_project-some c.project_id _ w
          (need-some _ (find_work n c.project_id t.works) w on_found) in
      let same = (find-Among (λ x. x.id) n t.works w found).1 in
      let (v, last, checked) = need-ok _ _ (Milestones.checked_evidence c id d w) e on_revision in
      checked_evidence-Sound c id t m key d w v e on (str_eq→≡ d.key key its)
        (parsed ∙ ap some (sym same)) (ap (λ i. find (λ x. x.id) i t.works) same ∙ found) ours last
        checked

  -- The loop adds a sound piece of evidence for each deliverable.
  pub gather_evidence-Sound :
      (c : Call) (id : ℕ) (t : Tables) (m : GenericPlanManifest) (rows out : List EvidenceRow)
      (keys : List String)
      → Milestones.gather_evidence parse_uuid c id t m rows keys ≡ ok out
      → (added : List EvidenceRow) × (out ≡ rows ++ added) × Each (Sound c id t m) keys added
  unfolding Milestones.gather_evidence
  gather_evidence-Sound c id t m rows out [] h =
      ([], ok-same rows out h ∙ sym (append-nil rows), tt)
  gather_evidence-Sound c id t m rows out (key ∷ keys) h =
      let (e, evidence, rest) = bind-ok (Milestones.evidence_for parse_uuid c id t m key) _ out h in
      let (once, more) =
        fail_if-ok (any (λ x. x.work_product_id == e.work_product_id) rows) _ _ out rest in
      let one = evidence_for-Sound c id t m key e evidence in
      let (added, same, all) = gather_evidence-Sound c id t m (rows ++ e ∷ []) out keys more in
      (e ∷ added, same ∙ append_assoc rows (e ∷ []) added, (one, all))
