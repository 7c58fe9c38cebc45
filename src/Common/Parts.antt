-- ===== src/Common/Parts.antt =====
-- Laws of prefixes and of splitting at a separator byte.
use Prim.Native.Nat.{ℕ}
use mathlib.Core.Path.{◌≡◌, refl}
use mathlib.Core.Logic.{◌≢◌, inl, inr}
use mathlib.Core.Bool.{true, false}
use mathlib.Core.List.{List, [], ◌∷◌, ◌++◌}
use native.Mathlib.Omega.{arith}
use snmp_olt_zte.Common.Tests.{◌==◌, ==_refl, Bool-cases}
use snmp_olt_zte.Common.Strings.{Text, has_prefix, trim_prefix, split, last_part, prepend}
use snmp_olt_zte.Common.Decimal.{AllDigits, itoa_ℕ, itoa_ℕ-AllDigits, is_digit}

pub has_prefix-append : (p s : Text) → has_prefix (p ++ s) p ≡ true
unfolding has_prefix
has_prefix-append [] s = refl
has_prefix-append (c ∷ p) s = ground (arith, has_prefix-append p s)

pub trim_prefix-append : (p s : Text) → trim_prefix (p ++ s) p ≡ s
unfolding trim_prefix
trim_prefix-append [] s = refl
trim_prefix-append (c ∷ p) s = ground (arith, has_prefix-append p s, trim_prefix-append p s)

-- No byte of the text is the separator.
abbrev pub Lacks : ℕ → Text → Type 0
Lacks sep [] = Unit
Lacks sep (c ∷ s) = (c ≢ sep) × Lacks sep s

pub Lacks-of_AllDigits : (sep : ℕ) (s : Text) → is_digit sep ≡ false → AllDigits s → Lacks sep s
Lacks-of_AllDigits sep [] h d = tt
Lacks-of_AllDigits sep (c ∷ s) h (d, ds) = (ground arith, Lacks-of_AllDigits sep s h ds)

pub Lacks-itoa_ℕ : (sep n : ℕ) → is_digit sep ≡ false → Lacks sep (itoa_ℕ n)
Lacks-itoa_ℕ sep n h = Lacks-of_AllDigits sep (itoa_ℕ n) h (itoa_ℕ-AllDigits n)

pub split-Lacks : (sep : ℕ) (p : Text) → Lacks sep p → split sep p ≡ p ∷ []
unfolding split
split-Lacks sep [] h = refl
split-Lacks sep (c ∷ p) (h, hs) = ground (arith, split-Lacks sep p hs)

pub split-append :
    (sep : ℕ) (p rest : Text) → Lacks sep p → split sep (p ++ sep ∷ rest) ≡ p ∷ split sep rest
unfolding split
split-append sep [] rest h = ground arith
split-append sep (c ∷ p) rest (h, hs) = ground (arith, split-append sep p rest hs)

split-ne-nil : (sep : ℕ) (s : Text) → split sep s ≢ []
unfolding split
split-ne-nil sep [] = cc
split-ne-nil sep (c ∷ s) = ground (arith, split-ne-nil sep s)

-- Two parts at least, and the last is `p`.
abbrev EndsIn : Text → List Text → Type 0
EndsIn p [] = ⊥
EndsIn p (q ∷ []) = ⊥
EndsIn p (q ∷ r ∷ rs) = last_part (r ∷ rs) ≡ p

EndsIn-cons : (p q : Text) (ps : List Text) → ps ≢ [] → last_part ps ≡ p → EndsIn p (q ∷ ps)
EndsIn-cons p q [] h e = h refl
EndsIn-cons p q (r ∷ rs) h e = e

EndsIn-prepend : (c : ℕ) (p : Text) (ps : List Text) → EndsIn p ps → EndsIn p (prepend c ps)
EndsIn-prepend c p [] h = absurd h
EndsIn-prepend c p (q ∷ []) h = absurd h
EndsIn-prepend c p (q ∷ r ∷ rs) h = h

last_part_of_EndsIn : (p : Text) (ps : List Text) → EndsIn p ps → last_part ps ≡ p
unfolding last_part
last_part_of_EndsIn p [] h = absurd h
last_part_of_EndsIn p (q ∷ []) h = absurd h
last_part_of_EndsIn p (q ∷ r ∷ rs) h = h

last_part-singleton : (p : Text) → last_part (p ∷ []) ≡ p
unfolding last_part
last_part-singleton p = refl

split-EndsIn : (sep : ℕ) (s p : Text) → Lacks sep p → EndsIn p (split sep (s ++ sep ∷ p))
unfolding split
split-EndsIn sep [] p h = rw (==_refl sep, split-Lacks sep p h) (unfold last_part in refl)
split-EndsIn sep (c ∷ s) p h = elim (Bool-cases (c == sep)) [
  | inl same ↦ rw same (
      EndsIn-cons p [] _ (split-ne-nil sep (s ++ sep ∷ p))
        (last_part_of_EndsIn p _ (split-EndsIn sep s p h)))
  | inr other ↦ rw other (EndsIn-prepend c p _ (split-EndsIn sep s p h))
]

-- Only what stands behind the last separator matters for the last part.
pub last_part-split :
    (sep : ℕ) (s p : Text) → Lacks sep p → last_part (split sep (s ++ sep ∷ p)) ≡ p
last_part-split sep s p h = last_part_of_EndsIn p _ (split-EndsIn sep s p h)

-- Where the parts lack the separator, a joined text determines them.
pub cut_injective :
    (sep : ℕ) (p q s t : Text)
    → Lacks sep p
    → Lacks sep q
    → p ++ sep ∷ s ≡ q ++ sep ∷ t
    → (p ≡ q) × (s ≡ t)
cut_injective sep [] [] s t hp hq e = ground arith
cut_injective sep [] (b ∷ q) s t hp hq e = ground arith
cut_injective sep (a ∷ p) [] s t hp hq e = ground arith
cut_injective sep (a ∷ p) (b ∷ q) s t (_, hp) (_, hq) e =
    let (same, rest) = cut_injective sep p q s t hp hq (ground arith) in (ground arith, rest)
