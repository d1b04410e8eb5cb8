-- ===== src/Automation/Cron.antt =====
-- Calendar schedules in five fields (internal/automation/cron.go).
pub mod Search
pub mod Fields
mod Tests
use delmos.Base.{
  ℕ, zero, suc, ◌+◌, ◌-◌, ◌*◌, ◌%◌, ◌^◌, String, Bool, true, false, not, ◌&&◌, ◌||◌, Option, none,
  some, List, [], ◌∷◌, ◌++◌, Result, ok, err, ◌>>=◌, ltb, leb, ◌==◌, if◌then◌else◌, codes,
}
use delmos.Automation.Clock.{minute, truncate, Civil, civil}

pub data CronError : Type 0 where
  field_count bad_step bad_value no_match : CronError

-- `cronField`: the map's keys, each an int in two's complement.
pub data CronField : Type 0 where
  wildcard : CronField
  values : List ℕ → CronField

abbrev is_digit : ℕ → Bool
is_digit c = leb b'0' c && leb c b'9'

digits_value : ℕ → List ℕ → Option ℕ
digits_value acc [] = some acc
digits_value acc (c ∷ cs) =
    let rest = digits_value (acc * 10 + (c - b'0')) cs in if is_digit c then rest else none

abbrev some_digits : List ℕ → Option ℕ
some_digits [] = none
some_digits (c ∷ cs) = digits_value 0 (c ∷ cs)

-- The sign is whether the number is negative; a number that is no int64 is an error.
abbrev in_range : Bool → Option ℕ → Option (Bool × ℕ)
in_range negative none = none
in_range negative (some n) =
    if ltb n (2 ^ 63) || negative && n == 2 ^ 63 then some (negative, n) else none

-- `strconv.Atoi`
unfoldable pub atoi : List ℕ → Option (Bool × ℕ)
unfolding digits_value
atoi [] = none
atoi (c ∷ cs) =
    if c == b'-'
    then in_range true (some_digits cs)
    else (if c == b'+'
        then in_range false (some_digits cs)
        else in_range false (some_digits (c ∷ cs)))

-- `for v := min; v <= max; v += step { values[v] = true }`. The sum wraps round, and numbers from
-- 2 ^ 63 on are negative. The fuel is more than the turns of the loop.
unfoldable pub step_values : ℕ → ℕ → ℕ → ℕ → List ℕ
step_values zero v max step = []
step_values (suc fuel) v max step =
    let rest = step_values fuel ((v + step) % 2 ^ 64) max step in
    if leb v max || leb (2 ^ 63) v then v ∷ rest else []

-- `strings.Split(field, ",")`; `part` is the part being read, in order.
split_from : List ℕ → List ℕ → List (List ℕ)
split_from part [] = part ∷ []
split_from part (c ∷ cs) =
    if c == b',' then part ∷ split_from [] cs else split_from (part ++ c ∷ []) cs

abbrev step_part : ℕ → ℕ → Option (Bool × ℕ) → Result CronError (List ℕ)
step_part min max none = err bad_step
step_part min max (some (negative, n)) =
    if negative || n == 0 then err bad_step else ok (step_values (max + 4) min max n)

abbrev value_part : ℕ → ℕ → Option (Bool × ℕ) → Result CronError (List ℕ)
value_part min max none = err bad_value
value_part min max (some (negative, n)) =
    if negative && not (n == 0) || ltb n min || ltb max n then err bad_value else ok (n ∷ [])

-- One part of the list: a step behind "*/", or a number.
parse_part : ℕ → ℕ → List ℕ → Result CronError (List ℕ)
unfolding atoi step_values
parse_part min max (s ∷ t ∷ cs) =
    if s == b'*' && t == b'/'
    then step_part min max (atoi cs)
    else value_part min max (atoi (s ∷ t ∷ cs))
parse_part min max cs = value_part min max (atoi cs)

parse_parts : ℕ → ℕ → List (List ℕ) → Result CronError (List ℕ)
unfolding parse_part
parse_parts min max [] = ok []
parse_parts min max (part ∷ parts) =
    let rest = parse_parts min max parts in
    do here ← parse_part min max part; others ← rest; ok (here ++ others)

-- `parseCronField`
unfoldable pub parse_cron_field : List ℕ → ℕ → ℕ → Result CronError CronField
unfolding parse_parts split_from
parse_cron_field (c ∷ []) min max =
    if c == b'*'
    then ok wildcard
    else parse_parts min max (split_from [] (c ∷ [])) >>= λ vs. ok (values vs)
parse_cron_field cs min max = parse_parts min max (split_from [] cs) >>= λ vs. ok (values vs)

abbrev pub holds : ℕ → List ℕ → Bool
holds v [] = false
holds v (w ∷ ws) = v == w || holds v ws

abbrev pub matches : CronField → ℕ → Bool
matches wildcard v = true
matches (values vs) v = holds v vs

abbrev between : ℕ → ℕ → ℕ → Bool
between lo hi c = leb lo c && leb c hi

-- `unicode.IsSpace`
abbrev is_space : ℕ → Bool
is_space c =
    between 9 13 c
    || c == 32
    || c == 0x85
    || c == 0xa0
    || c == 0x1680
    || between 0x2000 0x200a c
    || c == 0x2028
    || c == 0x2029
    || c == 0x202f
    || c == 0x205f
    || c == 0x3000

abbrev flush : List ℕ → List (List ℕ) → List (List ℕ)
flush [] rest = rest
flush (c ∷ cs) rest = (c ∷ cs) ∷ rest

-- `strings.Fields(cron)`; `word` is the word being read.
words_from : List ℕ → List ℕ → List (List ℕ)
words_from word [] = flush word []
words_from word (c ∷ cs) =
    let next = words_from [] cs in
    let more = words_from (word ++ c ∷ []) cs in if is_space c then flush word next else more

-- The five fields of an expression.
pub record CronFields : Type 0 where
  pub minute_field : CronField
  pub hour_field : CronField
  pub dom_field : CronField
  pub month_field : CronField
  pub dow_field : CronField

-- The first half of `nextCronMatch`: five fields, each within its bounds.
parse_words : List (List ℕ) → Result CronError CronFields
unfolding parse_cron_field
parse_words (mi ∷ h ∷ dom ∷ mo ∷ dow ∷ []) = do
  minute_field ← parse_cron_field mi 0 59
  hour_field ← parse_cron_field h 0 23
  dom_field ← parse_cron_field dom 1 31
  month_field ← parse_cron_field mo 1 12
  dow_field ← parse_cron_field dow 0 6
  ok (record {
    minute_field = minute_field;
    hour_field = hour_field;
    dom_field = dom_field;
    month_field = month_field;
    dow_field = dow_field;
  })
parse_words _ = err field_count

unfoldable pub parse_cron : String → Result CronError CronFields
unfolding words_from parse_words
parse_cron cron = parse_words (words_from [] (codes cron))

-- The test of the loop: all five fields match the candidate.
abbrev pub fits : CronFields → Civil → Bool
fits f c =
    matches f.month_field c.month
    && matches f.dom_field c.day
    && matches f.dow_field c.weekday
    && matches f.hour_field c.hour
    && matches f.minute_field c.minute_of_hour

-- The loop of `nextCronMatch`, on the iterations that are left.
pub search_minutes : CronFields → ℕ → ℕ → Option ℕ
search_minutes f zero candidate = none
search_minutes f (suc n) candidate = elim (fits f (civil candidate)) [
  | true ↦ some candidate
  | false ↦ search_minutes f n (candidate + minute)
]

abbrev or_no_match : Option ℕ → Result CronError ℕ
or_no_match none = err no_match
or_no_match (some t) = ok t

-- 366 * 24 * 60
abbrev pub max_iterations : ℕ
max_iterations = 527040

abbrev pub first_candidate : ℕ → ℕ
first_candidate from = truncate (from + minute) minute

pub next_cron_match : String → ℕ → Result CronError ℕ
next_cron_match cron from = do
  f ← parse_cron cron
  or_no_match (search_minutes f max_iterations (first_candidate from))
