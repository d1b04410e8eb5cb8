-- ===== src/Automation/Cron/Search.antt =====
-- The search of `nextCronMatch` over the minutes (internal/automation/cron.go).
use mathlib.Core.Path.{subst, sym}
use delmos.Base.{
  ℕ, zero, suc, ◌+◌, ◌-◌, ◌*◌, ◌%◌, ◌/◌, ◌≤◌, ◌<◌, ◌≡◌, arith, String, true, false, Option, none,
  some, Result, ok, err, Bool-cases, Result-cases, inl, inr,
}
use delmos.Automation.Clock.{minute, civil}
use delmos.Automation.Cron.{
  CronError, CronFields, no_match, fits, search_minutes, first_candidate, max_iterations,
  next_cron_match, parse_cron, or_no_match,
}

-- No minute from `c` on, `n` of them, matches.
abbrev pub Barren : CronFields → ℕ → ℕ → Type 0
Barren f c n = (j : ℕ) → j < n → fits f (civil (c + j * minute)) ≡ false

-- What the loop returns when it starts at `c` with `n` iterations.
pub data Searched (f : CronFields) (c n : ℕ) : Option ℕ → Type 0 where
  found :
      (i : ℕ)
      → i < n
      → fits f (civil (c + i * minute)) ≡ true
      → Barren f c i
      → Searched f c n (some (c + i * minute))
  missed : Barren f c n → Searched f c n none

Barren-next :
    (f : CronFields) (c n : ℕ)
    → fits f (civil c) ≡ false
    → Barren f (c + minute) n
    → Barren f c (suc n)
Barren-next f c n here later zero h = rw (same) here
  where
    same : c + 0 * minute ≡ c
    same = omega arith
Barren-next f c n here later (suc j) h = rw (shift) (later j (omega arith))
  where
    shift : c + suc j * minute ≡ c + minute + j * minute
    shift = omega arith

Searched-next :
    (f : CronFields) (c n : ℕ) (r : Option ℕ)
    → fits f (civil c) ≡ false
    → Searched f (c + minute) n r
    → Searched f c (suc n) r
Searched-next f c n r here (missed b) = missed (Barren-next f c n here b)
Searched-next f c n r here (found i h m b) =
    let shift : c + minute + i * minute ≡ c + suc i * minute = omega arith in
    rw shift (found (suc i) (omega arith) (rw shift at m) (Barren-next f c i here b))

pub search_minutes-Searched : (f : CronFields) (n c : ℕ) → Searched f c n (search_minutes f n c)
unfolding search_minutes
search_minutes-Searched f zero c = missed (λ j h. elim h [ ])
search_minutes-Searched f (suc n) c = elim (Bool-cases (fits f (civil c))) [
  | inl match ↦
      let same : c ≡ c + 0 * minute = omega arith in
      rw (match, search_minutes)
        (subst (λ t. Searched f c (suc n) (some t)) (sym same)
          (found 0 (omega arith) (rw same at match) (λ j h. elim h [ ])))
  | inr other ↦
      rw (other, search_minutes)
        (Searched-next f c n _ other (search_minutes-Searched f n (c + minute)))
]

-- The first matching minute strictly after `from`, at most 366 days ahead.
pub record NextMatch (f : CronFields) (from t : ℕ) : Type 0 where
  pub later : from < t
  pub whole : t % minute ≡ 0
  pub near : t ≤ from + max_iterations * minute
  pub fitting : fits f (civil t) ≡ true
  pub first : (u : ℕ) → from < u → u < t → u % minute ≡ 0 → fits f (civil u) ≡ false

pub data NextOutcome (f : CronFields) (from : ℕ) : Result CronError ℕ → Type 0 where
  next : (t : ℕ) → NextMatch f from t → NextOutcome f from (ok t)
  never :
      ((u : ℕ)
        → from < u
        → u + minute ≤ from + max_iterations * minute
        → u % minute ≡ 0
        → fits f (civil u) ≡ false)
      → NextOutcome f from (err no_match)

-- A whole minute after `from` is one of the candidates.
candidate_of :
    (from u : ℕ)
    → from < u
    → u % minute ≡ 0
    → first_candidate from + (u / minute - (from + minute) / minute) * minute ≡ u
candidate_of from u h w = omega arith

Barren-before :
    (f : CronFields) (from n u : ℕ)
    → Barren f (first_candidate from) n
    → from < u
    → u < first_candidate from + n * minute
    → u % minute ≡ 0
    → fits f (civil u) ≡ false
Barren-before f from n u b h near w =
    let j = u / minute - (from + minute) / minute in
    let hit = b j (omega arith) in rw (candidate_of from u h w) at hit

Searched-NextOutcome :
    (f : CronFields) (from : ℕ) (r : Option ℕ)
    → Searched f (first_candidate from) max_iterations r
    → NextOutcome f from (or_no_match r)
Searched-NextOutcome f from r (missed b) =
    never (λ u h near w. Barren-before f from max_iterations u b h (omega arith) w)
Searched-NextOutcome f from r (found i h m b) = next (first_candidate from + i * minute) (record {
  later = omega arith;
  whole = omega arith;
  near = omega arith;
  fitting = m;
  first = λ u after before w. Barren-before f from i u b after before w;
})

-- On an expression that parses, `nextCronMatch` returns the first matching minute strictly after
-- the moment given, at most 366 days after it; and it reports that there is none only if no whole
-- minute that ends within those 366 days matches.
pub next_cron_match-NextOutcome :
    (cron : String) (f : CronFields) (from : ℕ)
    → parse_cron cron ≡ ok f
    → NextOutcome f from (next_cron_match cron from)
unfolding next_cron_match
next_cron_match-NextOutcome cron f from h =
    rw (h, next_cron_match)
      (Searched-NextOutcome f from _
        (search_minutes-Searched f max_iterations (first_candidate from)))

outcome_later :
    (f : CronFields) (from : ℕ) (r : Result CronError ℕ) (t : ℕ)
    → NextOutcome f from r
    → r ≡ ok t
    → from < t
outcome_later f from r t (next u m) h = let same : u ≡ t = cc in rw (← same) m.later
outcome_later f from r t (never b) h = absurd (cc)

-- A time that `nextCronMatch` returns lies after the moment given.
pub next_cron_match-later :
    (cron : String) (from t : ℕ) → next_cron_match cron from ≡ ok t → from < t
next_cron_match-later cron from t h = elim (Result-cases (parse_cron cron)) [
  | inr (e, bad) ↦ absurd (unfold next_cron_match in cc (rw (bad, next_cron_match) at h))
  | inl (f, good) ↦ outcome_later f from _ t (next_cron_match-NextOutcome cron f from good) h
]
