-- ===== src/Common/Space.antt =====
-- The function TrimSpace of package strings.
use Prim.Native.Nat.{ℕ, zero, suc, ◌-◌}
use mathlib.Core.Bool.{Bool, ◌||◌, ◌&&◌}
use mathlib.Core.List.{List, [], ◌∷◌, map, reverse}
use mathlib.Core.Option.{Option, none, some}
use snmp_olt_zte.Common.Tests.{leb, ◌==◌, if◌then◌else◌}
use snmp_olt_zte.Common.Lists.{length}
use snmp_olt_zte.Common.Strings.{Text, has_prefix}

-- The white space of strings.TrimSpace: ASCII, and the UTF-8 encodings of the other runes of
-- unicode.IsSpace.
abbrev pub is_space : ℕ → Bool
is_space c = c == b' ' || (leb 9 c && leb c 13)

abbrev wide_spaces : List Text
wide_spaces =
    (194 ∷ 133 ∷ [])
    ∷ (194 ∷ 160 ∷ [])
    ∷ (225 ∷ 154 ∷ 128 ∷ [])
    ∷ (226 ∷ 128 ∷ 128 ∷ [])
    ∷ (226 ∷ 128 ∷ 129 ∷ [])
    ∷ (226 ∷ 128 ∷ 130 ∷ [])
    ∷ (226 ∷ 128 ∷ 131 ∷ [])
    ∷ (226 ∷ 128 ∷ 132 ∷ [])
    ∷ (226 ∷ 128 ∷ 133 ∷ [])
    ∷ (226 ∷ 128 ∷ 134 ∷ [])
    ∷ (226 ∷ 128 ∷ 135 ∷ [])
    ∷ (226 ∷ 128 ∷ 136 ∷ [])
    ∷ (226 ∷ 128 ∷ 137 ∷ [])
    ∷ (226 ∷ 128 ∷ 138 ∷ [])
    ∷ (226 ∷ 128 ∷ 168 ∷ [])
    ∷ (226 ∷ 128 ∷ 169 ∷ [])
    ∷ (226 ∷ 128 ∷ 175 ∷ [])
    ∷ (226 ∷ 129 ∷ 159 ∷ [])
    ∷ (227 ∷ 128 ∷ 128 ∷ [])
    ∷ []

-- The bytes that follow the first one of the rune of white space that the text begins with.
unfoldable pub space_tail : List Text → Text → Option ℕ
unfolding has_prefix
space_tail [] [] = none
space_tail [] (c ∷ s) = if is_space c then some 0 else none
space_tail (w ∷ ws) s = if has_prefix s w then some (length w - 1) else space_tail ws s

-- `skip` bytes of a rune of white space are still to be dropped.
unfoldable pub trim_left : List Text → ℕ → Text → Text
unfolding space_tail
trim_left ws skip [] = []
trim_left ws (suc skip) (c ∷ s) = trim_left ws skip s
trim_left ws zero (c ∷ s) = elim (space_tail ws (c ∷ s)) [
  | none ↦ c ∷ s
  | some n ↦ trim_left ws n s
]

-- strings.TrimSpace; the end is trimmed on the reversed bytes.
unfoldable pub trim_space : Text → Text
unfolding trim_left
trim_space s = reverse (trim_left (map reverse wide_spaces) 0 (reverse (trim_left wide_spaces 0 s)))
