-- ===== src/Config/Topology/Ports.antt =====
-- The OID map of config/oid_generator.go holds exactly the ports of the topology.
use snmp_olt_zte.Common.{
  ℕ, zero, suc, ◌+◌, ◌≤◌, ◌<◌, ◌≡◌, refl, sym, ap, ◌∙◌, ◌≢◌, inl, inr, Bool, true, false, ◌&&◌,
  Option, none, some, [], ◌∷◌, arith, if◌then◌else◌, Bool-cases, Option-cases, ℤ, pos, pos_part,
  ltb_ℤ, leb_ℤ, eq_ℤ, eq_ℤ_iff, Result, ok, err, Map, lookup, insert, lookup-insert, Distinct,
  text_key, int_key,
}
use snmp_olt_zte.Config.Oid.{
  ConfigError, BoardPonConfig, oids_at, IsSlot, generate_of_valid, config_not_found,
}
use snmp_olt_zte.Config.Topology.{
  port, same_port, board_pon_key, BoardPonMap, clamp_pons, fill_pons, fill_boards,
  get_board_pon_config, check_pons, check_boards,
}

-- Every slot of a topology is one that the hardware can have.
abbrev pub AllSlots : Map ℤ ℤ → Type 0
AllSlots [] = Unit
AllSlots ((slot, pons) ∷ specs) = IsSlot slot × AllSlots specs

-- Is `p` one of the ports 1, 2, … of the card in slot `b`?
abbrev within : Option ℤ → ℤ → Bool
within none p = false
within (some pons) p = leb_ℤ (pos 1) p && leb_ℤ p (clamp_pons pons)

abbrev pub has_port : Map ℤ ℤ → ℤ → ℤ → Bool
has_port specs b p = within (lookup b specs) p

-- The ports that the inner loop has filled after `k` rounds from `n`.
abbrev filled : ℤ → ℕ → ℕ → ℤ → ℤ → Bool
filled s k n b p = eq_ℤ s b && (leb_ℤ (pos n) p && ltb_ℤ p (pos (n + k)))

filled_step :
    (s : ℤ) (k n : ℕ) (b p : ℤ) (l : Option BoardPonConfig)
    → (if filled s k (suc n) b p
        then some (oids_at b p)
        else (if same_port (port s (pos n)) (port b p) then some (oids_at s (pos n)) else l))
      ≡ (if filled s (suc k) n b p then some (oids_at b p) else l)
filled_step s k n b p l = ground (arith, eq_ℤ_iff s b, eq_ℤ_iff (pos n) p)

fill_pons_lem :
    (s : ℤ) (k n : ℕ) (m : BoardPonMap)
    → IsSlot s
    → 1 ≤ n
    → n + k ≤ 17
    → (m' : BoardPonMap) × (fill_pons s k n m ≡ ok m')
      × ((b p : ℤ)
          → lookup (port b p) m'
            ≡ (if filled s k n b p then some (oids_at b p) else lookup (port b p) m))
unfolding fill_pons
fill_pons_lem s zero n m hs h1 h17 = (m, refl, λ b p. ground arith)
fill_pons_lem s (suc k) n m hs h1 h17 =
    let (m', done, looks) =
      fill_pons_lem s k (suc n) (insert (port s (pos n)) (oids_at s (pos n)) m) hs (omega arith)
        (omega arith) in
    (
      m',
      rw (fill_pons, generate_of_valid s (pos n) hs (omega arith)) done,
      λ b p. looks b p ∙ (rw lookup-insert (filled_step s k n b p (lookup (port b p) m))),
    )

clamp_pons_bounds :
    (pons : ℤ) → (1 ≤ pos_part (clamp_pons pons)) × (pos_part (clamp_pons pons) ≤ 16)
clamp_pons_bounds pons = ground arith

within_lem :
    (c p : ℤ)
    → 1 ≤ pos_part c
    → (leb_ℤ (pos 1) p && ltb_ℤ p (pos (1 + pos_part c))) ≡ (leb_ℤ (pos 1) p && leb_ℤ p c)
within_lem c p h = ground arith

boards_step :
    (s pons : ℤ) (specs : Map ℤ ℤ) (b p : ℤ) (l : Option BoardPonConfig)
    → lookup s specs ≡ none
    → (if has_port specs b p
        then some (oids_at b p)
        else (if filled s (pos_part (clamp_pons pons)) 1 b p then some (oids_at b p) else l))
      ≡ (if has_port ((s, pons) ∷ specs) b p then some (oids_at b p) else l)
unfolding lookup
boards_step s pons specs b p l fresh = elim (Bool-cases (eq_ℤ s b)) [
  | inl same ↦
      let e = (eq_ℤ_iff s b).0 same in
      rw (same, within_lem (clamp_pons pons) p (clamp_pons_bounds pons).0) (rw (← e, fresh))
  | inr other ↦ rw other
]

-- After all boards: a port of the topology has its OIDs, any other key is as before.
fill_boards_lem :
    (specs : Map ℤ ℤ) (m : BoardPonMap)
    → AllSlots specs
    → Distinct specs
    → (m' : BoardPonMap) × (fill_boards specs m ≡ ok m')
      × ((b p : ℤ)
          → lookup (port b p) m'
            ≡ (if has_port specs b p then some (oids_at b p) else lookup (port b p) m))
unfolding fill_boards
fill_boards_lem [] m hs d = (m, refl, λ b p. unfold lookup in refl)
fill_boards_lem ((s, pons) ∷ specs) m (h, hs) (fresh, d) =
    let (m1, done1, looks1) =
      fill_pons_lem s (pos_part (clamp_pons pons)) 1 m h (omega arith)
        (omega (arith, clamp_pons_bounds pons)) in
    let (m2, done2, looks2) = fill_boards_lem specs m1 hs d in
    (
      m2,
      rw done1 done2,
      λ b p. looks2 b p ∙ (rw looks1 (boards_step s pons specs b p (lookup (port b p) m) fresh)),
    )

false-ne-true : false ≡ true → ⊥
false-ne-true e = cc

check_pons_lem :
    (m : BoardPonMap) (s : ℤ) (k n : ℕ)
    → ((j : ℕ) → n ≤ j → j < n + k → lookup (port s (pos j)) m ≢ none)
    → check_pons m s k n ≡ none
unfolding check_pons
check_pons_lem m s zero n h = refl
check_pons_lem m s (suc k) n h = elim (Option-cases (lookup (port s (pos n)) m)) [
  | inl missing ↦ absurd (h n (omega arith) (omega arith) missing)
  | inr (cfg, found) ↦
      rw (check_pons, found)
        (check_pons_lem m s k (suc n) (λ j lo hi. h j (omega arith) (omega arith)))
]

-- Every port of the topology is in the map.
abbrev Covers : BoardPonMap → Map ℤ ℤ → Type 0
Covers m specs = (b p : ℤ) → has_port specs b p ≡ true → lookup (port b p) m ≢ none

Covers-tail :
    (m : BoardPonMap) (s pons : ℤ) (specs : Map ℤ ℤ)
    → lookup s specs ≡ none
    → Covers m ((s, pons) ∷ specs)
    → Covers m specs
unfolding lookup
Covers-tail m s pons specs fresh h b p e = h b p (elim (Bool-cases (eq_ℤ s b)) [
  | inl same ↦
      absurd
        (false-ne-true (ap (λ o. within o p) (sym fresh) ∙ (rw (← (eq_ℤ_iff s b).0 same) at e)))
  | inr other ↦ rw other e
])

has_port_head :
    (s pons : ℤ) (specs : Map ℤ ℤ) (j : ℕ)
    → 1 ≤ j
    → j ≤ pos_part (clamp_pons pons)
    → has_port ((s, pons) ∷ specs) s (pos j) ≡ true
unfolding lookup
has_port_head s pons specs j lo hi = rw ((eq_ℤ_iff s s).1 refl) (inside (clamp_pons pons) hi)
  where
    inside : (c : ℤ) → j ≤ pos_part c → (leb_ℤ (pos 1) (pos j) && leb_ℤ (pos j) c) ≡ true
    inside c h = ground arith

check_boards_lem :
    (m : BoardPonMap) (specs : Map ℤ ℤ)
    → Distinct specs
    → Covers m specs
    → check_boards m specs ≡ none
unfolding check_boards
check_boards_lem m [] d h = refl
check_boards_lem m ((s, pons) ∷ specs) (fresh, d) h =
    rw
      (
        check_boards,
        check_pons_lem m s (pos_part (clamp_pons pons)) 1
            (λ j lo hi. h s (pos j) (has_port_head s pons specs j lo (omega arith))),
      )
      (check_boards_lem m specs d (Covers-tail m s pons specs fresh h))

-- What the topology gives at `b` and `p`.
abbrev pub config_at : Map ℤ ℤ → ℤ → ℤ → Result ConfigError BoardPonConfig
config_at specs b p = if has_port specs b p then ok (oids_at b p) else err (config_not_found b p)

get_board_pon_config_lem :
    (m : BoardPonMap) (b p : ℤ) (t : Bool)
    → lookup (port b p) m ≡ (if t then some (oids_at b p) else none)
    → get_board_pon_config m b p ≡ (if t then ok (oids_at b p) else err (config_not_found b p))
unfolding get_board_pon_config
get_board_pon_config_lem m b p t h = rw (h, get_board_pon_config) (ground arith)

-- The map that a topology leads to: building it succeeds, `ValidateConfig` accepts it, and
-- `GetBoardPonConfig` answers at the ports of the topology and nowhere else.
pub record IsBuilt (specs : Map ℤ ℤ) (m : BoardPonMap) : Type 0 where
  pub built : fill_boards specs [] ≡ ok m
  pub valid : check_boards m specs ≡ none
  pub answers : (b p : ℤ) → get_board_pon_config m b p ≡ config_at specs b p

pub fill_boards-IsBuilt :
    (specs : Map ℤ ℤ) → AllSlots specs → Distinct specs → (m : BoardPonMap) × IsBuilt specs m
fill_boards-IsBuilt specs hs d =
    let (m, done, looks) = fill_boards_lem specs [] hs d in
    (
      m,
      record {
        built = done;
        valid = check_boards_lem m specs d (λ b p e. rw (looks, e) (cc));
        answers =
            λ b p. get_board_pon_config_lem m b p (has_port specs b p) (unfold lookup in looks b p);
      },
    )
