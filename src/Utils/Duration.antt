-- ===== src/Utils/Duration.antt =====
-- `ConvertDurationToString` of internal/utils/converter.go. A time.Duration is a number of
-- nanoseconds; Go's `/` and `%` round towards zero, also below zero.
use snmp_olt_zte.Common.{
  ℕ, zero, suc, ◌+◌, ◌*◌, ◌/◌, ◌%◌, ◌<◌, ◌≡◌, refl, ◌++◌, arith, Text, codes, ℤ, pos, neg_ℕ, tdiv,
  tmod, itoa, text_key, int_key,
}
use native.Mathlib.Nat.{zero-div, zero-mod}

abbrev pub second : ℕ
second = 1000000000

abbrev pub minute : ℕ
minute = 60000000000

abbrev pub hour : ℕ
hour = 3600000000000

pub record Parts : Type 0 where
  pub days : ℤ
  pub hours : ℤ
  pub minutes : ℤ
  pub seconds : ℤ

unfoldable pub duration_parts : ℤ → Parts
duration_parts duration =
    let d1 = tmod duration (24 * hour) in
    let d2 = tmod d1 hour in
    let d3 = tmod d2 minute in
    record {
      days = tdiv duration (24 * hour);
      hours = tdiv d1 hour;
      minutes = tdiv d2 minute;
      seconds = tdiv d3 second;
    }

unfoldable pub convert_duration_to_string : ℤ → Text
unfolding duration_parts
convert_duration_to_string duration =
    let p = duration_parts duration in
    itoa p.days
    ++ codes " days "
    ++ itoa p.hours
    ++ codes " hours "
    ++ itoa p.minutes
    ++ codes " minutes "
    ++ itoa p.seconds
    ++ codes " seconds"

-- What a duration's parts mean: they add up to its whole seconds, and each is below one of the next
-- unit.
pub record IsParts (whole : ℕ) (d h m s : ℕ) : Type 0 where
  pub total : d * 86400 + h * 3600 + m * 60 + s ≡ whole
  pub hours_lt : h < 24
  pub minutes_lt : m < 60
  pub seconds_lt : s < 60

-- The parts of a number of nanoseconds.
unfoldable pub parts_ℕ : ℕ → ℕ × ℕ × ℕ × ℕ
parts_ℕ n = (
  n / 86400000000000,
  n % 86400000000000 / hour,
  n % 86400000000000 % hour / minute,
  n % 86400000000000 % hour % minute / second,
)

parts_ℕ-IsParts :
    (n : ℕ) → IsParts (n / second) (parts_ℕ n).0 (parts_ℕ n).1 (parts_ℕ n).2 (parts_ℕ n).3
unfolding parts_ℕ
parts_ℕ-IsParts n = omega arith

tdiv-neg_ℕ : (n d : ℕ) → tdiv (neg_ℕ n) d ≡ neg_ℕ (n / d)
unfolding tdiv
tdiv-neg_ℕ zero d = rw zero-div
tdiv-neg_ℕ (suc n) d = refl

tmod-neg_ℕ : (n d : ℕ) → tmod (neg_ℕ n) d ≡ neg_ℕ (n % d)
unfolding tmod
tmod-neg_ℕ zero d = rw zero-mod
tmod-neg_ℕ (suc n) d = refl

-- With a sign in front of each part.
abbrev pub signed_parts : (ℕ → ℤ) → ℕ × ℕ × ℕ × ℕ → Parts
signed_parts sign p = record {
  days = sign p.0;
  hours = sign p.1;
  minutes = sign p.2;
  seconds = sign p.3;
}

duration_parts_pos : (n : ℕ) → duration_parts (pos n) ≡ signed_parts pos (parts_ℕ n)
unfolding duration_parts parts_ℕ tdiv tmod
duration_parts_pos n = refl

duration_parts_neg : (n : ℕ) → duration_parts (neg_ℕ n) ≡ signed_parts neg_ℕ (parts_ℕ n)
unfolding duration_parts parts_ℕ
duration_parts_neg n = simp (tdiv-neg_ℕ, tmod-neg_ℕ)

-- A duration of n nanoseconds is printed as days, hours, minutes and seconds that add up to its
-- whole seconds, each below one of the next unit; a negative one has the same parts, negated.
pub duration_parts-IsParts :
    (n : ℕ)
    → (p : ℕ × ℕ × ℕ × ℕ) × IsParts (n / second) p.0 p.1 p.2 p.3
      × (duration_parts (pos n) ≡ signed_parts pos p)
      × (duration_parts (neg_ℕ n) ≡ signed_parts neg_ℕ p)
duration_parts-IsParts n =
    (parts_ℕ n, parts_ℕ-IsParts n, duration_parts_pos n, duration_parts_neg n)
