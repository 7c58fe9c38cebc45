-- ===== src/Common/Strings.antt =====
-- Go strings as lists of bytes, with the parts of the packages strings and strconv that the
-- service calls: comparison, HasPrefix, Contains, ToLower, Split, Itoa and Atoi.
use Prim.Native.Nat.{ℕ, zero, suc, ◌+◌}
use Prim.Native.Char.{code}
use Prim.Native.String.{String}
use mathlib.Core.Path.{◌≡◌, refl}
use mathlib.Core.Logic.{◌↔◌}
use mathlib.Core.Bool.{Bool, true, false, ◌&&◌, ◌||◌}
use mathlib.Core.List.{List, [], ◌∷◌, ◌++◌}
use mathlib.Core.Option.{Option, none, some}
use native.Mathlib.Omega.{arith}
use snmp_olt_zte.Common.Tests.{leb, ◌==◌, if◌then◌else◌}

abbrev pub Text : Type 0
Text = List ℕ

-- The bytes of an ASCII literal.
abbrev pub codes : String → Text
codes String.[] = []
codes (String.◌∷◌ c s) = code c ∷ codes s

-- `a == b` on strings.
unfoldable pub text_eq : Text → Text → Bool
text_eq [] [] = true
text_eq [] (_ ∷ _) = false
text_eq (_ ∷ _) [] = false
text_eq (a ∷ s) (b ∷ t) = a == b && text_eq s t

pub text_eq→eq : (s t : Text) → text_eq s t ≡ true → s ≡ t
unfolding text_eq
text_eq→eq [] [] h = refl
text_eq→eq [] (b ∷ t) h = ground arith
text_eq→eq (a ∷ s) [] h = ground arith
text_eq→eq (a ∷ s) (b ∷ t) h = ground (arith, text_eq→eq s t)

pub text_eq_refl : (s : Text) → text_eq s s ≡ true
unfolding text_eq
text_eq_refl [] = refl
text_eq_refl (a ∷ s) = ground (arith, text_eq_refl s)

pub text_eq_iff : (s t : Text) → (text_eq s t ≡ true) ↔ (s ≡ t)
text_eq_iff s t = (text_eq→eq s t, λ e. rw (← e) (text_eq_refl s))

-- strings.HasPrefix
unfoldable pub has_prefix : Text → Text → Bool
has_prefix s [] = true
has_prefix [] (_ ∷ _) = false
has_prefix (a ∷ s) (b ∷ p) = a == b && has_prefix s p

-- strings.TrimPrefix
unfoldable pub trim_prefix : Text → Text → Text
trim_prefix s [] = s
trim_prefix [] (b ∷ p) = []
trim_prefix (a ∷ s) (b ∷ p) = if a == b && has_prefix s p then trim_prefix s p else a ∷ s

-- strings.Contains
unfoldable pub contains : Text → Text → Bool
unfolding has_prefix
contains [] p = has_prefix [] p
contains (a ∷ s) p = has_prefix (a ∷ s) p || contains s p

-- strings.ToLower on the letters that become ASCII: those of ASCII, the Kelvin sign (U+212A) and the
-- dotted capital I (U+0130). The bytes of other runes are kept: the service only compares the result
-- with ASCII texts or searches it for them. `skip` bytes of a rune are still to be dropped.
unfoldable pub lower_from : ℕ → Text → Text
unfolding has_prefix
lower_from skip [] = []
lower_from (suc skip) (c ∷ s) = lower_from skip s
lower_from zero (c ∷ s) =
    if has_prefix (c ∷ s) (226 ∷ 132 ∷ 170 ∷ [])
    then b'k' ∷ lower_from 2 s
    else if has_prefix (c ∷ s) (196 ∷ 176 ∷ [])
    then b'i' ∷ lower_from 1 s
    else (if leb b'A' c && leb c b'Z' then c + 32 else c) ∷ lower_from 0 s

unfoldable pub to_lower : Text → Text
unfolding lower_from
to_lower s = lower_from 0 s

-- strings.Split, at a separator of one byte.
abbrev pub prepend : ℕ → List Text → List Text
prepend c [] = (c ∷ []) ∷ []
prepend c (p ∷ ps) = (c ∷ p) ∷ ps

unfoldable pub split : ℕ → Text → List Text
split sep [] = [] ∷ []
split sep (c ∷ s) = if c == sep then [] ∷ split sep s else prepend c (split sep s)

-- strings.Join, with a separator of one byte.
unfoldable pub join : ℕ → List Text → Text
join sep [] = []
join sep (p ∷ []) = p
join sep (p ∷ q ∷ ps) = p ++ sep ∷ join sep (q ∷ ps)

-- parts[len(parts)-1]; Split returns a part at least.
unfoldable pub last_part : List Text → Text
last_part [] = []
last_part (p ∷ []) = p
last_part (p ∷ q ∷ ps) = last_part (q ∷ ps)

-- strings.Cut, at a separator of one byte: what stands before it, and what stands behind the first
-- one if there is one.
unfoldable pub cut : ℕ → Text → Text × Option Text
cut sep [] = ([], none)
cut sep (c ∷ s) =
    let (before, after) = cut sep s in if c == sep then ([], some s) else (c ∷ before, after)
