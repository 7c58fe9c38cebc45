-- ===== src/Usecase/Uplink/Names.antt =====
-- The names of uplink interfaces: shelf, slot and port are read back from a name as the OLT writes it.
use snmp_olt_zte.Common.{
  ℕ, ◌<◌, ◌^◌, ◌≡◌, ◌≢◌, refl, ap, ◌∙◌, false, some, [], ◌∷◌, ◌++◌, arith, Text, cut, pos, itoa_ℕ,
  atoi, atoi-itoa_ℕ, AllDigits, itoa_ℕ-AllDigits, is_digit, Lacks, ==_refl,
}
use snmp_olt_zte.Usecase.Uplink.{
  span_digits, slash_after, non_empty, find_submatch, or_largest, parse_name,
}

cut-append : (sep : ℕ) (p s : Text) → Lacks sep p → cut sep (p ++ sep ∷ s) ≡ (p, some s)
unfolding cut
cut-append sep [] s h = rw (==_refl sep) refl
cut-append sep (c ∷ p) s (h, hs) = ground (arith, cut-append sep p s hs)

-- A text that does not go on with a digit.
abbrev pub NoDigit : Text → Type 0
NoDigit [] = Unit
NoDigit (c ∷ s) = is_digit c ≡ false

span_digits-append :
    (ds rest : Text) → AllDigits ds → NoDigit rest → span_digits (ds ++ rest) ≡ (ds, rest)
unfolding span_digits
span_digits-append [] [] h k = refl
span_digits-append [] (c ∷ s) h k = rw k refl
span_digits-append (d ∷ ds) rest (h, hs) k = rw (span_digits-append ds rest hs k, h) refl

pub itoa_ℕ-ne_nil : (n : ℕ) → n < 2 ^ 63 → itoa_ℕ n ≢ []
unfolding atoi
itoa_ℕ-ne_nil n h e = let w : atoi [] ≡ some (pos n) = rw e at (atoi-itoa_ℕ n h) in ground arith

slash_after-append : (ds rest : Text) → ds ≢ [] → slash_after (ds, b'/' ∷ rest) ≡ some (ds, rest)
slash_after-append [] rest h = absurd (h refl)
slash_after-append (d ∷ ds) rest h = refl

non_empty_lem : (ds rest : Text) → ds ≢ [] → non_empty (ds, rest) ≡ some ds
non_empty_lem [] rest h = absurd (h refl)
non_empty_lem (d ∷ ds) rest h = refl

slash-digits :
    (n : ℕ) (rest : Text)
    → n < 2 ^ 63
    → slash_after (span_digits (itoa_ℕ n ++ b'/' ∷ rest)) ≡ some (itoa_ℕ n, rest)
slash-digits n rest h =
    ap slash_after (span_digits-append (itoa_ℕ n) (b'/' ∷ rest) (itoa_ℕ-AllDigits n) refl)
    ∙ slash_after-append (itoa_ℕ n) rest (itoa_ℕ-ne_nil n h)

last-digits :
    (n : ℕ) (rest : Text)
    → n < 2 ^ 63
    → NoDigit rest
    → non_empty (span_digits (itoa_ℕ n ++ rest)) ≡ some (itoa_ℕ n)
last-digits n rest h k =
    ap non_empty (span_digits-append (itoa_ℕ n) rest (itoa_ℕ-AllDigits n) k)
    ∙ non_empty_lem (itoa_ℕ n) rest (itoa_ℕ-ne_nil n h)

-- The name of the interface of a kind, `xgei` or `gei`.
abbrev pub interface_name : Text → ℕ → ℕ → ℕ → Text → Text
interface_name kind shelf slot port rest =
    kind ++ b'_' ∷ (itoa_ℕ shelf ++ b'/' ∷ (itoa_ℕ slot ++ b'/' ∷ (itoa_ℕ port ++ rest)))

-- The numbers of the name <kind>_<shelf>/<slot>/<port>, with anything behind it that does not start
-- with a digit, are read back, if the kind has no underscore and each number fits an int.
pub parse_name-interface_name :
    (kind : Text) (shelf slot port : ℕ) (rest : Text)
    → Lacks b'_' kind
    → shelf < 2 ^ 63
    → slot < 2 ^ 63
    → port < 2 ^ 63
    → NoDigit rest
    → parse_name (interface_name kind shelf slot port rest) ≡ (pos shelf, pos slot, pos port)
unfolding parse_name find_submatch
parse_name-interface_name kind shelf slot port rest k h1 h2 h3 d =
    rw
      (
        parse_name,
        cut-append b'_' kind (itoa_ℕ shelf ++ b'/' ∷ (itoa_ℕ slot ++ b'/' ∷ (itoa_ℕ port ++ rest)))
            k,
        find_submatch,
        slash-digits shelf (itoa_ℕ slot ++ b'/' ∷ (itoa_ℕ port ++ rest)) h1,
        slash-digits slot (itoa_ℕ port ++ rest) h2,
        last-digits port rest h3 d,
        ap or_largest (atoi-itoa_ℕ shelf h1),
        ap or_largest (atoi-itoa_ℕ slot h2),
        ap or_largest (atoi-itoa_ℕ port h3),
      )
      refl
