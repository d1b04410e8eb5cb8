-- ===== src/Automation/Cron/Tests.antt =====
-- Calendar expressions; times are nanoseconds since 1970-01-01.
use delmos.Base.{ℕ, ◌≡◌, ◌≤◌, ◌+◌, ◌*◌, ◌↔◌, refl, arith, true, [], ◌∷◌, ok, err}
use delmos.Automation.Clock.{second, minute, civil}
use delmos.Automation.Cron.{
  wildcard, values, CronFields, field_count, bad_value, matches, step_values, parse_cron,
  parse_cron_field, parse_words, parse_part, parse_parts, words_from, split_from, atoi,
  digits_value, next_cron_match, search_minutes,
}
use delmos.Automation.Cron.Search.{NextOutcome, next_cron_match-NextOutcome}
use delmos.Automation.Cron.Fields.{step_values-matches}

abbrev quarterly : CronFields
quarterly = record {
  minute_field = values (0 ∷ 15 ∷ 30 ∷ 45 ∷ []);
  hour_field = wildcard;
  dom_field = wildcard;
  month_field = wildcard;
  dow_field = wildcard;
}

parsed : parse_cron "*/15 * * * *" ≡ ok quarterly
unfolding parse_cron parse_words words_from parse_cron_field parse_parts parse_part split_from atoi
    digits_value step_values
parsed = refl

four_fields : parse_cron "* * * *" ≡ err field_count
unfolding parse_cron parse_words words_from
four_fields = refl

no_hour_24 : parse_cron "0 24 * * *" ≡ err bad_value
unfolding parse_cron parse_words words_from parse_cron_field parse_parts parse_part split_from atoi
    digits_value step_values
no_hour_24 = refl

-- 00:07:30 is followed by 00:15.
next_quarter : next_cron_match "*/15 * * * *" (450 * second) ≡ ok (15 * minute)
unfolding next_cron_match search_minutes parse_cron parse_words words_from parse_cron_field
    parse_parts parse_part split_from atoi digits_value step_values civil
next_quarter = refl

next_cron_match-NextOutcome_example :
    NextOutcome quarterly (450 * second) (next_cron_match "*/15 * * * *" (450 * second))
next_cron_match-NextOutcome_example =
    next_cron_match-NextOutcome "*/15 * * * *" quarterly (450 * second) parsed

step_values-matches_example :
    (matches (values (step_values 63 0 59 15)) 30 ≡ true)
    ↔ ((k : ℕ) × (30 ≡ 0 + k * 15) × (30 ≤ 59))
step_values-matches_example =
    step_values-matches 0 59 15 30 (omega arith) (omega arith) (omega arith)
