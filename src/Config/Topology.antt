-- ===== src/Config/Topology.antt =====
-- config/config.go and config/oid_generator.go: which slots and PON ports an OLT has, and the map of
-- their OIDs.
pub mod Ports
pub mod Parse
use snmp_olt_zte.Common.{
  ℕ, zero, suc, ◌≡◌, ◌↔◌, Bool, true, ◌&&◌, ◌||◌, Option, none, some, List, [], ◌∷◌, map, arith,
  if◌then◌else◌, Text, split, trim_space, cut, ℤ, pos, pos_part, ltb_ℤ, leb_ℤ, eq_ℤ, eq_ℤ_iff, atoi,
  Result, ok, err, ◌>>=◌, Map, Key, lookup, insert, text_key, int_key,
}
use snmp_olt_zte.Config.Oid.{
  max_board_id, max_pon_id, ConfigError, board_pon, config_not_found, missing_configuration,
  BoardPonConfig, generate_board_pon_oid,
}

pub record BoardPonKey : Type 0 where
  pub board_id : ℤ
  pub pon_id : ℤ

abbrev pub port : ℤ → ℤ → BoardPonKey
port b p = record { board_id = b; pon_id = p }

abbrev pub same_port : BoardPonKey → BoardPonKey → Bool
same_port a b = eq_ℤ a.board_id b.board_id && eq_ℤ a.pon_id b.pon_id

pub same_port_iff : (a b : BoardPonKey) → (same_port a b ≡ true) ↔ (a ≡ b)
same_port_iff a b = ground (arith, eq_ℤ_iff a.board_id b.board_id, eq_ℤ_iff a.pon_id b.pon_id)

instance abbrev pub board_pon_key : Key BoardPonKey
board_pon_key = record { same = same_port; same_iff = same_port_iff }

abbrev pub BoardPonMap : Type 0
BoardPonMap = Map BoardPonKey BoardPonConfig

-- `if pons < 1 || pons > MaxPonID { pons = MaxPonID }`
abbrev pub clamp_pons : ℤ → ℤ
clamp_pons pons = if ltb_ℤ pons (pos 1) || ltb_ℤ (pos max_pon_id) pons then pos max_pon_id else pons

-- The map {1: pons, 2: pons} of the C320.
abbrev pub default_specs : ℤ → Map ℤ ℤ
default_specs pons = (pos 1, pons) ∷ (pos 2, pons) ∷ []

-- One part of OLT_BOARDS, "slot" or "slot:pons".
abbrev pub pons_of : ℤ → Option Text → ℤ
pons_of default_pons none = default_pons
pons_of default_pons (some pon_str) = elim (atoi (trim_space pon_str)) [
  | none ↦ default_pons
  | some p ↦ if leb_ℤ (pos 1) p && leb_ℤ p (pos max_pon_id) then p else default_pons
]

unfoldable pub add_spec : ℤ → Text → Map ℤ ℤ → Map ℤ ℤ
add_spec default_pons part specs =
    let (slot_str, pon_str) = cut b':' part in
    elim (atoi (trim_space slot_str)) [
      | none ↦ specs
      | some slot ↦
          if ltb_ℤ slot (pos 1) || ltb_ℤ (pos max_board_id) slot
          then specs
          else insert slot (pons_of default_pons pon_str) specs
    ]

-- An empty part is skipped.
abbrev pub add_part : ℤ → Text → Map ℤ ℤ → Map ℤ ℤ
add_part default_pons [] specs = specs
add_part default_pons (c ∷ part) specs = add_spec default_pons (c ∷ part) specs

unfoldable pub add_specs : ℤ → List Text → Map ℤ ℤ → Map ℤ ℤ
add_specs default_pons [] specs = specs
add_specs default_pons (part ∷ parts) specs =
    add_specs default_pons parts (add_part default_pons (trim_space part) specs)

-- `if len(specs) == 0` fall back to the default slots.
abbrev pub or_default : ℤ → Map ℤ ℤ → Map ℤ ℤ
or_default default_pons [] = default_specs default_pons
or_default default_pons (s ∷ specs) = s ∷ specs

-- sort.Ints
insert_sorted : ℤ → List ℤ → List ℤ
insert_sorted a [] = a ∷ []
insert_sorted a (b ∷ l) = if leb_ℤ a b then a ∷ b ∷ l else b ∷ insert_sorted a l

unfoldable pub sort_ints : List ℤ → List ℤ
unfolding insert_sorted
sort_ints [] = []
sort_ints (a ∷ l) = insert_sorted a (sort_ints l)

unfoldable pub parse_board_specs : Text → ℤ → List ℤ × Map ℤ ℤ
unfolding add_specs sort_ints
parse_board_specs raw default_pons =
    let pons = clamp_pons default_pons in
    let specs = or_default pons (add_specs pons (split b',' raw) []) in
    (sort_ints (map (λ s. s.0) specs), specs)

-- The inner loop of `InitializeBoardPonMapFromSpecs`, with the rounds that are left.
unfoldable pub fill_pons : ℤ → ℕ → ℕ → BoardPonMap → Result ConfigError BoardPonMap
fill_pons slot zero pon m = ok m
fill_pons slot (suc rounds) pon m = elim (generate_board_pon_oid slot (pos pon)) [
  | err e ↦ err (board_pon slot (pos pon) e)
  | ok cfg ↦ fill_pons slot rounds (suc pon) (insert (port slot (pos pon)) cfg m)
]

unfoldable pub fill_boards : Map ℤ ℤ → BoardPonMap → Result ConfigError BoardPonMap
fill_boards [] m = ok m
fill_boards ((slot, pons) ∷ specs) m =
    fill_pons slot (pos_part (clamp_pons pons)) 1 m >>= λ m'. fill_boards specs m'

abbrev pub or_c320 : Map ℤ ℤ → Map ℤ ℤ
or_c320 [] = default_specs (pos max_pon_id)
or_c320 (s ∷ specs) = s ∷ specs

unfoldable pub initialize_board_pon_map_from_specs : Map ℤ ℤ → Result ConfigError BoardPonMap
unfolding fill_boards fill_pons
initialize_board_pon_map_from_specs board_pons = fill_boards (or_c320 board_pons) []

-- `for _, slot := range boards { specs[slot] = ponsPerBoard }`
add_boards : ℤ → List ℤ → Map ℤ ℤ → Map ℤ ℤ
add_boards pons [] specs = specs
add_boards pons (slot ∷ boards) specs = add_boards pons boards (insert slot pons specs)

abbrev boards_or_default : List ℤ → List ℤ
boards_or_default [] = pos 1 ∷ pos 2 ∷ []
boards_or_default (b ∷ boards) = b ∷ boards

unfoldable pub initialize_board_pon_map : List ℤ → ℤ → Result ConfigError BoardPonMap
unfolding add_boards initialize_board_pon_map_from_specs
initialize_board_pon_map boards pons_per_board =
    initialize_board_pon_map_from_specs
      (add_boards (clamp_pons pons_per_board) (boards_or_default boards) [])

unfoldable pub get_board_pon_config : BoardPonMap → ℤ → ℤ → Result ConfigError BoardPonConfig
get_board_pon_config m board_id pon_id = elim (lookup (port board_id pon_id) m) [
  | none ↦ err (config_not_found board_id pon_id)
  | some cfg ↦ ok cfg
]

-- The loops of `ValidateConfig`: none is the nil error.
unfoldable pub check_pons : BoardPonMap → ℤ → ℕ → ℕ → Option ConfigError
check_pons m slot zero pon = none
check_pons m slot (suc rounds) pon = elim (lookup (port slot (pos pon)) m) [
  | none ↦ some (missing_configuration slot (pos pon))
  | some _ ↦ check_pons m slot rounds (suc pon)
]

unfoldable pub check_boards : BoardPonMap → Map ℤ ℤ → Option ConfigError
check_boards m [] = none
check_boards m ((slot, pons) ∷ specs) = elim (check_pons m slot (pos_part (clamp_pons pons)) 1) [
  | none ↦ check_boards m specs
  | some e ↦ some e
]

unfoldable pub validate_config : Map ℤ ℤ → BoardPonMap → Option ConfigError
unfolding check_boards check_pons
validate_config board_pons m = check_boards m (or_c320 board_pons)
