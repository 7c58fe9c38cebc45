-- ===== src/Config/Topology/Parse.antt =====
-- `parseBoardSpecs` of config/config.go: whatever OLT_BOARDS holds, the topology is one that the
-- hardware can have, and the service gets a complete OID map from it.
use snmp_olt_zte.Common.{
  ◌≡◌, refl, ◌≢◌, inl, inr, ◌||◌, Option, none, some, List, [], ◌∷◌, arith, Bool-cases,
  Option-cases, Text, split, trim_space, cut, ℤ, pos, ltb_ℤ, eq_ℤ, atoi, ok, Map, lookup, insert,
  Distinct, text_key, int_key, insert-Distinct,
}
use snmp_olt_zte.Config.Oid.{IsSlot, IsPort}
use snmp_olt_zte.Config.Topology.{
  BoardPonMap, clamp_pons, or_c320, pons_of, add_spec, add_specs, add_part, or_default,
  parse_board_specs, initialize_board_pon_map_from_specs, get_board_pon_config, validate_config,
  default_specs,
}
use snmp_olt_zte.Config.Topology.Ports.{AllSlots, fill_boards-IsBuilt, config_at}

-- Slots of the hardware, each once, with a port count of the hardware.
abbrev pub AllPorts : Map ℤ ℤ → Type 0
AllPorts [] = Unit
AllPorts ((slot, pons) ∷ specs) = (IsSlot slot × IsPort pons) × AllPorts specs

pub record IsTopology (specs : Map ℤ ℤ) : Type 0 where
  pub ports : AllPorts specs
  pub distinct : Distinct specs

insert-AllPorts :
    (s pons : ℤ) (specs : Map ℤ ℤ)
    → IsSlot s
    → IsPort pons
    → AllPorts specs
    → AllPorts (insert s pons specs)
unfolding insert
insert-AllPorts s pons [] hs hp h = ((hs, hp), tt)
insert-AllPorts s pons ((t, n) ∷ specs) hs hp (h, r) = elim (Bool-cases (eq_ℤ t s)) [
  | inl same ↦ rw same ((hs, hp), r)
  | inr other ↦ rw other (h, insert-AllPorts s pons specs hs hp r)
]

pons_of-IsPort : (d : ℤ) (o : Option Text) → IsPort d → IsPort (pons_of d o)
pons_of-IsPort d none h = h
pons_of-IsPort d (some s) h = elim (Option-cases (atoi (trim_space s))) [
  | inl bad ↦ rw (pons_of, bad) h
  | inr (p, good) ↦ rw (pons_of, good) (ground arith)
]

insert-IsTopology :
    (s pons : ℤ) (specs : Map ℤ ℤ)
    → IsSlot s
    → IsPort pons
    → IsTopology specs
    → IsTopology (insert s pons specs)
insert-IsTopology s pons specs hs hp t = record {
  ports = insert-AllPorts s pons specs hs hp t.ports;
  distinct = insert-Distinct s pons specs t.distinct;
}

add_spec-IsTopology :
    (d : ℤ) (part : Text) (specs : Map ℤ ℤ)
    → IsPort d
    → IsTopology specs
    → IsTopology (add_spec d part specs)
unfolding add_spec
add_spec-IsTopology d part specs hd t = elim (Option-cases (atoi (trim_space (cut b':' part).0))) [
  | inl bad ↦ rw (bad, add_spec) t
  | inr (s, good) ↦ elim (Bool-cases (ltb_ℤ s (pos 1) || ltb_ℤ (pos 30) s)) [
    | inl out ↦ rw (good, add_spec, out) t
    | inr inside ↦
        rw (good, add_spec, inside)
          (insert-IsTopology s _ specs (ground arith) (pons_of-IsPort d (cut b':' part).1 hd) t)
  ]
]

add_part-IsTopology :
    (d : ℤ) (part : Text) (specs : Map ℤ ℤ)
    → IsPort d
    → IsTopology specs
    → IsTopology (add_part d part specs)
add_part-IsTopology d [] specs hd t = t
add_part-IsTopology d (c ∷ part) specs hd t = add_spec-IsTopology d (c ∷ part) specs hd t

add_specs-IsTopology :
    (d : ℤ) (parts : List Text) (specs : Map ℤ ℤ)
    → IsPort d
    → IsTopology specs
    → IsTopology (add_specs d parts specs)
unfolding add_specs
add_specs-IsTopology d [] specs hd t = t
add_specs-IsTopology d (part ∷ parts) specs hd t =
    add_specs-IsTopology d parts _ hd (add_part-IsTopology d (trim_space part) specs hd t)

default_specs-IsTopology : (d : ℤ) → IsPort d → IsTopology (default_specs d)
unfolding lookup
default_specs-IsTopology d hd = record {
  ports = (((omega arith, omega arith), hd), (((omega arith, omega arith), hd), tt));
  distinct = (refl, (refl, tt));
}

or_default-IsTopology :
    (d : ℤ) (specs : Map ℤ ℤ) → IsPort d → IsTopology specs → IsTopology (or_default d specs)
or_default-IsTopology d [] hd t = default_specs-IsTopology d hd
or_default-IsTopology d (s ∷ specs) hd t = t

or_default-ne-nil : (d : ℤ) (specs : Map ℤ ℤ) → or_default d specs ≢ []
or_default-ne-nil d [] = cc
or_default-ne-nil d (s ∷ specs) = cc

clamp_pons-IsPort : (d : ℤ) → IsPort (clamp_pons d)
clamp_pons-IsPort d = ground arith

-- Whatever the text, the topology names slots 1..30 once each, with 1..16 ports, and one slot at
-- least.
pub parse_board_specs-IsTopology :
    (raw : Text) (default_pons : ℤ)
    → IsTopology (parse_board_specs raw default_pons).1
      × ((parse_board_specs raw default_pons).1 ≢ [])
unfolding parse_board_specs
parse_board_specs-IsTopology raw d = (
  or_default-IsTopology _ _ (clamp_pons-IsPort d) (
      add_specs-IsTopology _ (split b',' raw) [] (clamp_pons-IsPort d)
        (record { ports = tt; distinct = tt })),
  or_default-ne-nil _ _,
)

AllSlots-of_AllPorts : (specs : Map ℤ ℤ) → AllPorts specs → AllSlots specs
AllSlots-of_AllPorts [] h = tt
AllSlots-of_AllPorts ((s, pons) ∷ specs) ((hs, _), h) = (hs, AllSlots-of_AllPorts specs h)

or_c320_lem : (specs : Map ℤ ℤ) → specs ≢ [] → or_c320 specs ≡ specs
or_c320_lem [] h = absurd (h refl)
or_c320_lem (s ∷ specs) h = refl

-- The OID map of a topology as the code builds it, checks it and reads it.
pub record IsServed (specs : Map ℤ ℤ) (m : BoardPonMap) : Type 0 where
  pub initialized : initialize_board_pon_map_from_specs specs ≡ ok m
  pub validated : validate_config specs m ≡ none
  pub served : (b p : ℤ) → get_board_pon_config m b p ≡ config_at specs b p

pub IsTopology-IsServed :
    (specs : Map ℤ ℤ) → IsTopology specs → specs ≢ [] → (m : BoardPonMap) × IsServed specs m
unfolding initialize_board_pon_map_from_specs validate_config
IsTopology-IsServed specs t ne =
    let (m, b) = fill_boards-IsBuilt specs (AllSlots-of_AllPorts specs t.ports) t.distinct in
    (
      m,
      record {
        initialized = rw (or_c320_lem specs ne) b.built;
        validated = rw (or_c320_lem specs ne) b.valid;
        served = b.answers;
      },
    )

-- Whatever OLT_BOARDS holds, the OID map is built without an error, `ValidateConfig` accepts it, and
-- `GetBoardPonConfig` gives the generated OIDs at each port of the parsed topology and the error
-- "config not found" at every other slot and port.
pub parse_board_specs-IsServed :
    (raw : Text) (default_pons : ℤ)
    → (m : BoardPonMap) × IsServed (parse_board_specs raw default_pons).1 m
parse_board_specs-IsServed raw d =
    let (t, ne) = parse_board_specs-IsTopology raw d in IsTopology-IsServed _ t ne
