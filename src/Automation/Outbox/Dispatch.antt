-- ===== src/Automation/Outbox/Dispatch.antt =====
-- The deliveries of the pending events (`DispatchPending` in internal/automation/dispatcher.go).
use delmos.Base.{
  ℕ, zero, suc, ◌+◌, ◌≤◌, ◌≡◌, ◌⊎◌, refl, sym, ap, subst, arith, true, List, [], ◌∷◌, ◌++◌,
  Bool-cases, inl, inr, All, Among, All-map, keep, length, length-append, ◌==◌,
}
use delmos.Automation.Outbox.{
  OutboxRow, Subscription, Delivery, Queue, new_delivery, subscribes, route, undispatched,
  pending_rows, mark_dispatched, dispatch_rows, dispatch_pending,
}

-- Each undispatched row of the table stands in the list, by its id.
abbrev Listed : ℕ → List OutboxRow → Type 0
Listed id [] = ⊥
Listed id (r ∷ rs) = (id ≡ r.id) ⊎ Listed id rs

abbrev Covered : List OutboxRow → List OutboxRow → Type 0
Covered rs table = All (λ t. undispatched t ≡ true → Listed t.id rs) table

mark_dispatched-Covered :
    (now : ℕ) (r : OutboxRow) (rs table : List OutboxRow)
    → Covered (r ∷ rs) table
    → Covered rs (mark_dispatched now r.id table)
unfolding mark_dispatched
mark_dispatched-Covered now r rs [] cover = tt
mark_dispatched-Covered now r rs (t ∷ table) cover =
    let ih = mark_dispatched-Covered now r rs table cover.1 in
    elim (Bool-cases (t.id == r.id)) [
      | inl it ↦ rw (it, mark_dispatched) (λ open_row. absurd (cc open_row), ih)
      | inr other ↦
          rw (other, mark_dispatched)
            (
              λ open_row. elim (cover.0 open_row) [ inl same ↦ ground arith | inr below ↦ below ],
              ih,
            )
    ]

dispatch_rows-Covered :
    (now : ℕ) (rs : List OutboxRow) (q : Queue)
    → Covered rs q.outbox
    → Covered [] (dispatch_rows now rs q).outbox
unfolding dispatch_rows
dispatch_rows-Covered now [] q cover = cover
dispatch_rows-Covered now (r ∷ rs) q cover =
    dispatch_rows-Covered now rs _ (mark_dispatched-Covered now r rs q.outbox cover)

-- The limit does not cut the pending rows.
pending_rows-Covered :
    (limit : ℕ) (table : List OutboxRow)
    → length (keep undispatched table) ≤ limit
    → Covered (pending_rows limit table) table
unfolding pending_rows
pending_rows-Covered limit [] few = tt
pending_rows-Covered zero (t ∷ table) few = elim (Bool-cases (undispatched t)) [
  | inl open_row ↦ absurd (omega (arith, (rw open_row at few)))
  | inr shut ↦ (λ open_row. absurd (cc), pending_rows-Covered zero table (rw shut at few))
]
pending_rows-Covered (suc limit) (t ∷ table) few = elim (Bool-cases (undispatched t)) [
  | inl open_row ↦
      let less : length (keep undispatched table) ≤ limit = omega (arith, (rw open_row at few)) in
      let step : pending_rows (suc limit) (t ∷ table) ≡ t ∷ pending_rows limit table =
        rw (open_row, pending_rows) refl in
      subst (λ rs. Covered rs (t ∷ table)) (sym step)
        (
          λ here. inl refl,
          All-map _ table (λ u f here. inr (f here)) (pending_rows-Covered limit table less),
        )
  | inr shut ↦
      let step : pending_rows (suc limit) (t ∷ table) ≡ pending_rows (suc limit) table =
        rw (shut, pending_rows) refl in
      subst (λ rs. Covered rs (t ∷ table)) (sym step)
        (
          λ open_row. absurd (cc (rw shut at open_row)),
          pending_rows-Covered (suc limit) table (rw shut at few),
        )
]

Covered-nothing :
    (limit : ℕ) (table : List OutboxRow) → Covered [] table → pending_rows limit table ≡ []
unfolding pending_rows
Covered-nothing zero table cover = refl
Covered-nothing (suc limit) [] cover = refl
Covered-nothing (suc limit) (t ∷ table) cover = elim (Bool-cases (undispatched t)) [
  | inl open_row ↦ absurd (cover.0 open_row)
  | inr shut ↦ rw (shut, pending_rows) (Covered-nothing (suc limit) table cover.1)
]

-- Where at most 100 events wait, one call dispatches them all: a second call changes nothing.
pub dispatch_pending-again :
    (now later : ℕ) (q : Queue)
    → length (keep undispatched q.outbox) ≤ 100
    → dispatch_pending later (dispatch_pending now q).0 ≡ ((dispatch_pending now q).0, 0)
unfolding dispatch_pending dispatch_rows
dispatch_pending-again now later q few =
    let done =
      dispatch_rows-Covered now (pending_rows 100 q.outbox) q
        (pending_rows-Covered 100 q.outbox few) in
    rw (Covered-nothing 100 _ done) refl

-- The row of a delivery that nobody has claimed.
abbrev pub Routed : OutboxRow → Subscription → List Delivery → Type 0
Routed r s ds = (id : ℕ) × Among (new_delivery id r.id s.id) ds

Routed-left :
    (r : OutboxRow) (s : Subscription) (ds es : List Delivery)
    → Routed r s ds
    → Routed r s (ds ++ es)
Routed-left r s [] es (id, on) = absurd on
Routed-left r s (d ∷ ds) es (id, inl here) = (id, inl here)
Routed-left r s (d ∷ ds) es (id, inr below) =
    let (k, on) = Routed-left r s ds es (id, below) in (k, inr on)

Routed-right :
    (r : OutboxRow) (s : Subscription) (ds es : List Delivery)
    → Routed r s es
    → Routed r s (ds ++ es)
Routed-right r s [] es made = made
Routed-right r s (d ∷ ds) es made = let (k, on) = Routed-right r s ds es made in (k, inr on)

-- How many active subscriptions the key of an event has, and how many those of several events.
abbrev pub audience : OutboxRow → List Subscription → ℕ
audience r ss = length (keep (subscribes r.event_key) ss)

abbrev pub total_audience : List OutboxRow → List Subscription → ℕ
total_audience [] ss = 0
total_audience (r ∷ rs) ss = audience r ss + total_audience rs ss

-- Each active subscription to the key of the event has its delivery in the list.
abbrev pub Routes : OutboxRow → List Subscription → List Delivery → Type 0
Routes r ss ds = All (λ s. subscribes r.event_key s ≡ true → Routed r s ds) ss

route-Routed :
    (next : ℕ) (r : OutboxRow) (ss : List Subscription)
    → Routes r ss (route next r ss) × (length (route next r ss) ≡ audience r ss)
unfolding route
route-Routed next r [] = (tt, refl)
route-Routed next r (s ∷ ss) = elim (Bool-cases (subscribes r.event_key s)) [
  | inl wanted ↦
      let (made, many) = route-Routed (next + 1) r ss in
      let step : route next r (s ∷ ss) ≡ new_delivery next r.id s.id ∷ route (next + 1) r ss =
        rw (wanted, route) refl in
      let size : length (route next r (s ∷ ss)) ≡ audience r (s ∷ ss) =
        rw (step, wanted) (ap suc many) in
      (
        subst (λ ds. Routes r (s ∷ ss) ds) (sym step)
            (λ w. (next, inl refl), All-map _ ss (λ t f w. let (k, on) = f w in (k, inr on)) made),
        size,
      )
  | inr unwanted ↦
      let (made, many) = route-Routed next r ss in
      let step : route next r (s ∷ ss) ≡ route next r ss = rw (unwanted, route) refl in
      let size : length (route next r (s ∷ ss)) ≡ audience r (s ∷ ss) = rw (step, unwanted) many in
      (
        subst (λ ds. Routes r (s ∷ ss) ds) (sym step) (λ w. absurd (cc (rw unwanted at w)), made),
        size,
      )
]

dispatch_rows-old :
    (now : ℕ) (rs : List OutboxRow) (q : Queue) (r : OutboxRow) (s : Subscription)
    → Routed r s q.deliveries
    → Routed r s (dispatch_rows now rs q).deliveries
unfolding dispatch_rows
dispatch_rows-old now [] q r s made = made
dispatch_rows-old now (t ∷ rs) q r s made =
    dispatch_rows-old now rs _ r s (Routed-left r s q.deliveries _ made)

dispatch_rows-Routed :
    (now : ℕ) (rs : List OutboxRow) (q : Queue)
    → All (λ r. Routes r q.subscriptions (dispatch_rows now rs q).deliveries) rs
      × (length (dispatch_rows now rs q).deliveries
          ≡ length q.deliveries + total_audience rs q.subscriptions)
unfolding dispatch_rows
dispatch_rows-Routed now [] q = (tt, omega arith)
dispatch_rows-Routed now (r ∷ rs) q =
    let (made, many) = route-Routed q.next_id r q.subscriptions in
    let (later, sum) = dispatch_rows-Routed now rs _ in
    let joined = length-append q.deliveries (route q.next_id r q.subscriptions) in
    (
      (
        All-map _ q.subscriptions
            (λ s f w. dispatch_rows-old now rs _ r s (Routed-right r s q.deliveries _ (f w))) made,
        later,
      ),
      omega (arith, sum, joined, many),
    )

-- One call gives each event it takes a fresh delivery for every active subscription to its key,
-- and makes no other delivery.
pub dispatch_pending-Routed :
    (now : ℕ) (q : Queue)
    → All
        (λ r. Routes r q.subscriptions (dispatch_pending now q).0.deliveries)
        (pending_rows 100 q.outbox)
      × (length (dispatch_pending now q).0.deliveries
          ≡ length q.deliveries + total_audience (pending_rows 100 q.outbox) q.subscriptions)
unfolding dispatch_pending
dispatch_pending-Routed now q = dispatch_rows-Routed now (pending_rows 100 q.outbox) q
