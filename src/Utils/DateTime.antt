-- ===== src/Utils/DateTime.antt =====
-- `ConvertByteArrayToDateTime` of internal/utils/converter.go: the DateAndTime of SNMP as text. The
-- bytes are numbers below 256. `time.Date` takes a day beyond the end of its month as a day of the
-- next month; since the day is at most 31, one month is the most that it moves.
use snmp_olt_zte.Common.{
  ℕ, ◌+◌, ◌-◌, ◌*◌, ◌/◌, ◌%◌, ◌≤◌, ◌<◌, ◌≡◌, refl, sym, ap, ◌∙◌, inl, inr, Bool, ◌&&◌, ◌||◌, not,
  Option, none, some, List, [], ◌∷◌, ◌++◌, arith, ltb, leb, ◌==◌, if◌then◌else◌, Option-cases,
  length, Text, itoa_ℕ, Result, ok, err, text_key, int_key,
}

pub data DateError : Type 0 where
  invalid_length : DateError
  invalid_month : ℕ → DateError
  invalid_day : ℕ → DateError
  invalid_hour : ℕ → DateError
  invalid_minute : ℕ → DateError
  invalid_second : ℕ → DateError

pub record Fields : Type 0 where
  pub year : ℕ
  pub month : ℕ
  pub day : ℕ
  pub hour : ℕ
  pub minute : ℕ
  pub second : ℕ

-- The Gregorian calendar, as package time counts it.
abbrev pub is_leap : ℕ → Bool
is_leap y = y % 4 == 0 && (not (y % 100 == 0) || y % 400 == 0)

unfoldable pub days_in : ℕ → ℕ → ℕ
days_in y m =
    if m == 2
    then (if is_leap y then 29 else 28)
    else if m == 4 || (m == 6 || (m == 9 || m == 11))
    then 30
    else 31

-- `time.Date` of a month in 1..12 and a day in 1..31.
unfoldable pub date : Fields → Fields
unfolding days_in
date f =
    if leb f.day (days_in f.year f.month)
    then f
    else record f { month = f.month + 1; day = f.day - days_in f.year f.month }

pad2 : ℕ → Text
pad2 n = (b'0' + n / 10 % 10) ∷ (b'0' + n % 10) ∷ []

pad4 : ℕ → Text
unfolding pad2
pad4 n = if ltb n 10000 then pad2 (n / 100) ++ pad2 n else itoa_ℕ n

-- The layout 2006-01-02 15:04:05.
unfoldable pub format : Fields → Text
unfolding pad2 pad4
format f =
    pad4 f.year
    ++ b'-'
      ∷ (pad2 f.month
          ++ b'-'
            ∷ (pad2 f.day
                ++ b' ' ∷ (pad2 f.hour ++ b':' ∷ (pad2 f.minute ++ b':' ∷ pad2 f.second))))

-- The checks of the fields, in the order of the source.
unfoldable pub check : Fields → Option DateError
check f =
    if ltb f.month 1 || ltb 12 f.month
    then some (invalid_month f.month)
    else if ltb f.day 1 || ltb 31 f.day
    then some (invalid_day f.day)
    else if ltb 23 f.hour
    then some (invalid_hour f.hour)
    else if ltb 59 f.minute
    then some (invalid_minute f.minute)
    else if ltb 59 f.second
    then some (invalid_second f.second)
    else none

unfoldable pub convert_byte_array_to_date_time : List ℕ → Result DateError Text
convert_byte_array_to_date_time (y1 ∷ y0 ∷ mo ∷ d ∷ h ∷ mi ∷ s ∷ reserved ∷ []) =
    let f : Fields = record {
      year = y1 * 256 + y0;
      month = mo;
      day = d;
      hour = h;
      minute = mi;
      second = s;
    } in
    elim (check f) [ some e ↦ err e | none ↦ ok (format (date f)) ]
convert_byte_array_to_date_time _ = err invalid_length

-- A date and time of the calendar.
pub record IsDate (f : Fields) : Type 0 where
  pub month_pos : 1 ≤ f.month
  pub month_le : f.month ≤ 12
  pub day_pos : 1 ≤ f.day
  pub day_le : f.day ≤ days_in f.year f.month
  pub hour_lt : f.hour < 24
  pub minute_lt : f.minute < 60
  pub second_lt : f.second < 60

days_in_bounds : (y m : ℕ) → (28 ≤ days_in y m) × (days_in y m ≤ 31)
unfolding days_in
days_in_bounds y m = ground arith

last_month : (y m : ℕ) → 12 ≤ m → days_in y m ≡ 31
unfolding days_in
last_month y m h = ground arith

-- What passes the checks is turned into a date of the calendar: the same one if it is one, and
-- otherwise one in the next month, as many days after the first as the day was beyond the end.
pub date-IsDate : (f : Fields) → check f ≡ none → IsDate (date f)
unfolding date check
date-IsDate f h = ground (
  arith,
  days_in_bounds f.year f.month,
  days_in_bounds f.year (f.month + 1),
  last_month f.year f.month,
)

-- The year, month and so on that an 8-byte array holds.
abbrev pub fields_of : ℕ → ℕ → ℕ → ℕ → ℕ → ℕ → ℕ → Fields
fields_of y1 y0 mo d h mi s = record {
  year = y1 * 256 + y0;
  month = mo;
  day = d;
  hour = h;
  minute = mi;
  second = s;
}

check_of_IsDate : (f : Fields) → IsDate f → check f ≡ none
unfolding check
check_of_IsDate f d = ground (arith, days_in_bounds f.year f.month)

date_of_IsDate : (f : Fields) → IsDate f → date f ≡ f
unfolding date
date_of_IsDate f d = ground arith

-- Eight bytes that hold a date of the calendar are printed as they are; eight bytes that pass the
-- checks are printed as a date of the calendar; otherwise the conversion fails.
pub convert_of_IsDate :
    (y1 y0 mo d h mi s r : ℕ)
    → IsDate (fields_of y1 y0 mo d h mi s)
    → convert_byte_array_to_date_time (y1 ∷ y0 ∷ mo ∷ d ∷ h ∷ mi ∷ s ∷ r ∷ [])
      ≡ ok (format (fields_of y1 y0 mo d h mi s))
unfolding convert_byte_array_to_date_time
convert_of_IsDate y1 y0 mo d h mi s r v =
    rw (convert_byte_array_to_date_time, check_of_IsDate _ v)
      (ap (λ f. ok (format f)) (date_of_IsDate _ v))

ok-injective : {s t : Text} → ◌≡◌ {A = Result DateError Text} (ok s) (ok t) → s ≡ t
ok-injective e = cc

err-ne-ok : {b : DateError} {t : Text} → ◌≡◌ {A = Result DateError Text} (err b) (ok t) → ⊥
err-ne-ok e = cc

-- A conversion that succeeds was given eight bytes, and its text is the print of a date of the
-- calendar.
pub convert-eq-ok_sound :
    (bs : List ℕ) {t : Text}
    → convert_byte_array_to_date_time bs ≡ ok t
    → (length bs ≡ 8) × ((f : Fields) × IsDate f × (t ≡ format f))
unfolding convert_byte_array_to_date_time
convert-eq-ok_sound (y1 ∷ y0 ∷ mo ∷ d ∷ h ∷ mi ∷ s ∷ r ∷ []) {t} e =
    elim (Option-cases (check (fields_of y1 y0 mo d h mi s))) [
      | inl good ↦ (
        refl,
        (
          date (fields_of y1 y0 mo d h mi s),
          date-IsDate (fields_of y1 y0 mo d h mi s) good,
          ok-injective (sym e ∙ rw (convert_byte_array_to_date_time, good)),
        ),
      )
      | inr (bad, fails) ↦
          absurd (err-ne-ok {b = bad} (sym (rw (convert_byte_array_to_date_time, fails)) ∙ e))
    ]
convert-eq-ok_sound _ e = cc
