-- ===== src/Utils/Power.antt =====
-- `ConvertAndMultiply` of internal/utils/extractor.go: an optical power. The source computes
-- v * 0.002 - 30 in float64 and prints two decimals. The exact result is a whole number of
-- thousandths whose last digit is even, so that no print is a tie: the model rounds the exact
-- result, and agrees with the floats as long as their error is below one thousandth (|v| < 2 ^ 31).
use snmp_olt_zte.Common.{
  ℕ, suc, ◌+◌, ◌-◌, ◌*◌, ◌/◌, ◌%◌, ◌≤◌, ◌<◌, ◌≡◌, refl, ◌∙◌, Option, none, some, [], ◌∷◌, ◌++◌,
  arith, ◌==◌, if◌then◌else◌, Text, ℤ, pos, negsuc, ◌-ℤ◌, ◌*ℤ◌, itoa_ℕ, AllDigits, itoa_ℕ-AllDigits,
  parse_digits, parse_digits-itoa_ℕ, text_key, int_key,
}
use snmp_olt_zte.Utils.Extract.{Value, int}

-- The power in thousandths of a dBm.
unfoldable pub thousandths : ℤ → ℤ
thousandths v = v *ℤ pos 2 -ℤ pos 30000

-- A number of thousandths, rounded to the nearest hundredth.
unfoldable pub round_hundredths : ℕ → ℕ
round_hundredths t = (t + 5) / 10

-- The digits of a number of hundredths.
print_hundredths : ℕ → Text
print_hundredths h = itoa_ℕ (h / 100) ++ b'.' ∷ (b'0' + h % 100 / 10) ∷ (b'0' + h % 10) ∷ []

-- strconv.FormatFloat(x, 'f', 2, 64)
unfoldable pub format_thousandths : ℤ → Text
unfolding print_hundredths round_hundredths
format_thousandths (pos t) = print_hundredths (round_hundredths t)
format_thousandths (negsuc t) = b'-' ∷ print_hundredths (round_hundredths (suc t))

-- `none` is the error "value is not an integer".
unfoldable pub convert_and_multiply : Value → Option Text
unfolding thousandths format_thousandths
convert_and_multiply (int v) = some (format_thousandths (thousandths v))
convert_and_multiply _ = none

-- Reading a print of `print_hundredths` back, in hundredths.
unfoldable pub read_hundredths : Text → ℕ → ℕ
read_hundredths [] n = n
read_hundredths (c ∷ s) n = read_hundredths s (if c == b'.' then n else n * 10 + (c - b'0'))

read_hundredths-append :
    (s r : Text) (n : ℕ) → read_hundredths (s ++ r) n ≡ read_hundredths r (read_hundredths s n)
unfolding read_hundredths
read_hundredths-append [] r n = refl
read_hundredths-append (c ∷ s) r n = read_hundredths-append s r _

read_digits : (s : Text) (n : ℕ) → AllDigits s → parse_digits s n ≡ some (read_hundredths s n)
unfolding read_hundredths parse_digits
read_digits [] n h = refl
read_digits (c ∷ s) n (hc, hs) = ground (arith, read_digits s (n * 10 + (c - b'0')) hs)

read-itoa_ℕ : (n : ℕ) → read_hundredths (itoa_ℕ n) 0 ≡ n
read-itoa_ℕ n = cc (read_digits (itoa_ℕ n) 0 (itoa_ℕ-AllDigits n), parse_digits-itoa_ℕ n)

read-print : (h : ℕ) → read_hundredths (print_hundredths h) 0 ≡ h
unfolding print_hundredths
read-print h =
    read_hundredths-append (itoa_ℕ (h / 100)) _ 0
    ∙ (rw read-itoa_ℕ (unfold read_hundredths in ground arith))

-- The number that a print stands for is the nearest to `t` thousandths.
abbrev pub IsNearest : ℕ → Text → Type 0
IsNearest t s = (read_hundredths s 0 * 10 ≤ t + 5) × (t < read_hundredths s 0 * 10 + 5)

print-IsNearest : (t : ℕ) → IsNearest t (print_hundredths (round_hundredths t))
unfolding round_hundredths
print-IsNearest t = rw (read-print) (omega arith)

-- The print of a power: a minus sign if it is below 0, and two decimals that are nearest to it.
abbrev pub IsPrint : ℤ → Text → Type 0
IsPrint (pos t) s = IsNearest t s
IsPrint (negsuc t) [] = ⊥
IsPrint (negsuc t) (c ∷ s) = (c ≡ b'-') × IsNearest (suc t) s

-- Every int is converted, and the text is the print of v * 2 - 30000 thousandths of a dBm.
pub convert_and_multiply-IsPrint :
    (v : ℤ)
    → (s : Text) × (convert_and_multiply (int v) ≡ some s) × IsPrint (v *ℤ pos 2 -ℤ pos 30000) s
unfolding convert_and_multiply
convert_and_multiply-IsPrint v = (_, refl, printed (v *ℤ pos 2 -ℤ pos 30000))
  where
    printed : (x : ℤ) → IsPrint x (format_thousandths x)
    printed (pos t) = print-IsNearest t
    printed (negsuc t) = (refl, print-IsNearest (suc t))
