-- ===== src/Common/Decimal.antt =====
-- strconv.Itoa and strconv.Atoi. Printing takes fuel: `suc n` rounds are enough for `n`, since each
-- round divides by ten, and `value-digits` shows that no digit is lost.
use mathlib.Core.Path.{◌≡◌, refl, ◌∙◌}
use Prim.Native.Nat.{ℕ, zero, suc, ◌+◌, ◌-◌, ◌*◌, ◌/◌, ◌%◌, ◌^◌, ◌<◌}
use mathlib.Core.Bool.{Bool, true, ◌&&◌}
use mathlib.Core.Option.{Option, none, some}
use mathlib.Core.List.{[], ◌∷◌}
use native.Mathlib.Omega.{arith}
use snmp_olt_zte.Common.Tests.{ltb, leb, ◌==◌, if◌then◌else◌}
use snmp_olt_zte.Common.Strings.{Text}
use snmp_olt_zte.Common.Int.{ℤ, pos, negsuc, neg_ℕ}

-- The digits of `n` in front of `out`.
digits : ℕ → ℕ → Text → Text
digits zero n out = out
digits (suc f) n out =
    let d = (b'0' + n % 10) ∷ out in let rest = digits f (n / 10) d in if ltb n 10 then d else rest

unfoldable pub itoa_ℕ : ℕ → Text
unfolding digits
itoa_ℕ n = digits (suc n) n []

-- strconv.Itoa
unfoldable pub itoa : ℤ → Text
unfolding itoa_ℕ
itoa (pos n) = itoa_ℕ n
itoa (negsuc n) = b'-' ∷ itoa_ℕ (suc n)

abbrev pub is_digit : ℕ → Bool
is_digit c = leb b'0' c && leb c b'9'

unfoldable pub parse_digits : Text → ℕ → Option ℕ
parse_digits [] n = some n
parse_digits (c ∷ s) n =
    let rest = parse_digits s (n * 10 + (c - b'0')) in if is_digit c then rest else none

-- One digit at least; a number beyond `most` is a range error.
unfoldable pub parse_within : ℕ → Text → Option ℕ
unfolding parse_digits
parse_within most [] = none
parse_within most (c ∷ s) = elim (parse_digits (c ∷ s) 0) [
  | none ↦ none
  | some n ↦ if leb n most then some n else none
]

negated : Option ℕ → Option ℤ
negated none = none
negated (some n) = some (neg_ℕ n)

positive : Option ℕ → Option ℤ
positive none = none
positive (some n) = some (pos n)

-- strconv.Atoi
unfoldable pub atoi : Text → Option ℤ
unfolding parse_within negated positive
atoi [] = none
atoi (c ∷ s) =
    if c == b'-'
    then negated (parse_within (2 ^ 63) s)
    else positive (parse_within (2 ^ 63 - 1) (if c == b'+' then s else c ∷ s))

parse_digits-cons :
    (n m : ℕ) (out : Text)
    → parse_digits ((b'0' + n % 10) ∷ out) m ≡ parse_digits out (m * 10 + n % 10)
unfolding parse_digits
parse_digits-cons n m out = ground arith

parse_digits-digits :
    (f n : ℕ) (out : Text) → n < f → parse_digits (digits f n out) 0 ≡ parse_digits out n
unfolding digits
parse_digits-digits zero n out h = elim h [ ]
parse_digits-digits (suc f) n out h = ground (
  arith,
  parse_digits-digits f (n / 10) ((b'0' + n % 10) ∷ out),
  parse_digits-cons n (n / 10) out,
  parse_digits-cons n 0 out,
)

-- The first byte of a print is a digit.
abbrev StartsWithDigit : Text → Type 0
StartsWithDigit [] = ⊥
StartsWithDigit (c ∷ s) = is_digit c ≡ true

digits-StartsWithDigit : (f n : ℕ) (out : Text) → StartsWithDigit (digits (suc f) n out)
unfolding digits
digits-StartsWithDigit zero n out = ground arith
digits-StartsWithDigit (suc f) n out =
    ground (arith, digits-StartsWithDigit f (n / 10) ((b'0' + n % 10) ∷ out))

abbrev pub AllDigits : Text → Type 0
AllDigits [] = Unit
AllDigits (c ∷ s) = (is_digit c ≡ true) × AllDigits s

digits-AllDigits : (f n : ℕ) (out : Text) → AllDigits out → AllDigits (digits f n out)
unfolding digits
digits-AllDigits zero n out h = h
digits-AllDigits (suc f) n out h =
    ground (arith, digits-AllDigits f (n / 10) ((b'0' + n % 10) ∷ out))

pub itoa_ℕ-AllDigits : (n : ℕ) → AllDigits (itoa_ℕ n)
unfolding itoa_ℕ
itoa_ℕ-AllDigits n = digits-AllDigits (suc n) n [] tt

pub parse_digits-itoa_ℕ : (n : ℕ) → parse_digits (itoa_ℕ n) 0 ≡ some n
unfolding itoa_ℕ
parse_digits-itoa_ℕ n =
    parse_digits-digits (suc n) n [] (omega arith) ∙ (unfold parse_digits in refl)

atoi_of_StartsWithDigit :
    (s : Text) (n : ℕ)
    → StartsWithDigit s
    → parse_digits s 0 ≡ some n
    → n < 2 ^ 63
    → atoi s ≡ some (pos n)
unfolding atoi
atoi_of_StartsWithDigit [] n h e lt = absurd h
atoi_of_StartsWithDigit (c ∷ s) n h e lt = ground arith

-- A number that fits an int is read back from its print.
pub atoi-itoa_ℕ : (n : ℕ) → n < 2 ^ 63 → atoi (itoa_ℕ n) ≡ some (pos n)
atoi-itoa_ℕ n h =
    atoi_of_StartsWithDigit (itoa_ℕ n) n (unfold itoa_ℕ in digits-StartsWithDigit n n [])
      (parse_digits-itoa_ℕ n) h

pub itoa_ℕ_injective : (n m : ℕ) → itoa_ℕ n ≡ itoa_ℕ m → n ≡ m
itoa_ℕ_injective n m e = cc (parse_digits-itoa_ℕ n, parse_digits-itoa_ℕ m)
