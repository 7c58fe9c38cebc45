-- ===== src/Access/Valid.antt =====
-- The port of a request that is valid is one that the OLT's configuration has OIDs for.
use snmp_olt_zte.Common.{
  ℕ, ◌^◌, ◌<◌, ◌≡◌, refl, ◌∙◌, ◌≢◌, ◌↔◌, inl, inr, true, ◌&&◌, some, [], ◌∷◌, arith, Bool-cases,
  Option-cases, Text, ℤ, pos, ◌≤ℤ◌, leb_ℤ, eq_ℤ, itoa_ℕ, atoi, ok, Map, lookup, atoi-itoa_ℕ,
  text_key, int_key,
}
use snmp_olt_zte.Config.Oid.{oids_at, IsPort}
use snmp_olt_zte.Config.Topology.{BoardPonMap, get_board_pon_config, clamp_pons}
use snmp_olt_zte.Config.Topology.Ports.{has_port, config_at}
use snmp_olt_zte.Config.Topology.Parse.{AllPorts, IsTopology, IsServed}
use snmp_olt_zte.Access.{validate_board_pon_params, check_pon, or_c320_ports, validate_onu_id_param}

IsPort-of : (specs : Map ℤ ℤ) → AllPorts specs → (b n : ℤ) → lookup b specs ≡ some n → IsPort n
unfolding lookup
IsPort-of [] w b n h = ground arith
IsPort-of ((s, m) ∷ specs) ((_, port), w) b n h = elim (Bool-cases (eq_ℤ s b)) [
  | inl hit ↦ ground arith
  | inr miss ↦ IsPort-of specs w b n (ground arith)
]

configured : (specs : Map ℤ ℤ) → specs ≢ [] → or_c320_ports specs ≡ specs
configured [] h = elim (h refl) [ ]
configured (s ∷ specs) h = refl

check_pon-ok :
    (b n p c : ℤ) (s : Text)
    → IsPort n
    → check_pon b n s ≡ ok (c, p)
    → (c ≡ b) × ((leb_ℤ (pos 1) p && leb_ℤ p (clamp_pons n)) ≡ true)
check_pon-ok b n p c s w h = elim (Option-cases (atoi s)) [
  | inl bad ↦ ground arith
  | inr (q, read) ↦ ground arith
]

-- A board and a PON that pass the validation against the topology of an OLT are a port that it has
-- OIDs for, so no handler behind it meets a configuration error.
pub validate-served :
    (specs : Map ℤ ℤ) (m : BoardPonMap) (board_id pon_id : Text) (b p : ℤ)
    → IsTopology specs
    → specs ≢ []
    → IsServed specs m
    → validate_board_pon_params specs board_id pon_id ≡ ok (b, p)
    → get_board_pon_config m b p ≡ ok (oids_at b p)
unfolding validate_board_pon_params
validate-served specs m board_id pon_id b p t ne w h = elim (Option-cases (atoi board_id)) [
  | inl bad ↦ ground arith
  | inr (c, read) ↦ elim (Option-cases (lookup c (or_c320_ports specs))) [
    | inl missing ↦ ground arith
    | inr (n, found) ↦
        let slot : lookup c specs ≡ some n = rw (configured specs ne) at found in
        let (board, within) =
          check_pon-ok c n p b pon_id (IsPort-of specs t.ports c n slot)
            (rw (validate_board_pon_params, read, found) at h) in
        w.served b p ∙ is_port c n slot board within
  ]
]
  where
    is_port :
        (c n : ℤ)
        → lookup c specs ≡ some n
        → b ≡ c
        → (leb_ℤ (pos 1) p && leb_ℤ p (clamp_pons n)) ≡ true
        → config_at specs b p ≡ ok (oids_at b p)
    is_port c n slot board within = rw (board, slot, within) refl

-- And it lets pass every port of the topology, written in decimal.
pub validate-has_port :
    (specs : Map ℤ ℤ) (b p : ℕ)
    → IsTopology specs
    → specs ≢ []
    → has_port specs (pos b) (pos p) ≡ true
    → b < 2 ^ 63
    → validate_board_pon_params specs (itoa_ℕ b) (itoa_ℕ p) ≡ ok (pos b, pos p)
unfolding validate_board_pon_params
validate-has_port specs b p t ne h small = elim (Option-cases (lookup (pos b) specs)) [
  | inl missing ↦ ground arith
  | inr (n, found) ↦
      rw (validate_board_pon_params, atoi-itoa_ℕ b small, configured specs ne, found)
        (passes n (IsPort-of specs t.ports (pos b) n found) (rw found at h))
]
  where
    passes :
        (n : ℤ)
        → IsPort n
        → (leb_ℤ (pos 1) (pos p) && leb_ℤ (pos p) (clamp_pons n)) ≡ true
        → check_pon (pos b) n (itoa_ℕ p) ≡ ok (pos b, pos p)
    passes n port within =
        let few : p < 2 ^ 63 = ground arith in rw (check_pon, atoi-itoa_ℕ p few) (ground arith)

-- An ONU id passes just if it is a decimal number from 1 to 128.
pub validate_onu_id_param_lem :
    (s : Text) (o : ℤ)
    → (validate_onu_id_param s ≡ ok o) ↔ ((atoi s ≡ some o) × (pos 1 ≤ℤ o) × (o ≤ℤ pos 128))
unfolding validate_onu_id_param
validate_onu_id_param_lem s o = elim (Option-cases (atoi s)) [
  | inl bad ↦ ground arith
  | inr (n, read) ↦ ground arith
]
