-- ===== src/Config/Olts/Checked.antt =====
-- What the checks on the configured OLTs leave: OLTs that can be told apart, each with a topology.
use snmp_olt_zte.Common.{
  ◌≤◌, ◌≡◌, refl, ◌≢◌, inl, inr, true, false, Option, none, List, [], ◌∷◌, arith, ◌==◌,
  if◌then◌else◌, Bool-cases, Option-cases, Text, text_eq, text_eq_iff, ℤ, pos, negsuc, ◌≤ℤ◌, Result,
  ok, err, Result-cases, text_key, int_key, All, All-map,
}
use snmp_olt_zte.Common.{any}
use mathlib.Core.Path.{subst}
use snmp_olt_zte.Config.Olts.{
  or_one, read_olts, OltRuntimeConfig, OltJson, OltsError, olt_from_json, uint16, is_olt_id,
  check_ids, default_of, check_registry, build_olt_registry,
}
use snmp_olt_zte.Config.Topology.{parse_board_specs, clamp_pons}
use snmp_olt_zte.Config.Topology.Parse.{IsServed, parse_board_specs-IsServed}

-- No two of the configured OLTs have one id.
abbrev pub Once : List OltRuntimeConfig → Type 0
Once [] = Unit
Once (o ∷ os) = All (λ p. text_eq o.id p.id ≡ false) os × Once os

abbrev pub HasOlt : List OltRuntimeConfig → Text → Type 0
HasOlt olts id = any (λ o. text_eq o.id id) olts ≡ true

-- What the registry is built from.
pub record IsRegistry (olts : List OltRuntimeConfig) (default_olt : Text) : Type 0 where
  pub once : Once olts
  pub ids : All (λ o. is_olt_id o.id ≡ true) olts
  pub has_default : HasOlt olts default_olt

abbrev Unseen : List Text → OltRuntimeConfig → Type 0
Unseen seen o = (any (λ s. text_eq s o.id) seen ≡ false) × (is_olt_id o.id ≡ true)

check_ids-Once :
    (seen : List Text) (os : List OltRuntimeConfig)
    → check_ids seen os ≡ none
    → Once os × All (Unseen seen) os
unfolding check_ids
check_ids-Once seen [] e = (tt, tt)
check_ids-Once seen (o ∷ os) e =
    let (once, unseen) = check_ids-Once (o.id ∷ seen) os (ground arith) in
    (
      (All-map (λ p h. ground arith) os unseen, once),
      ((ground arith, ground arith), All-map (λ p h. (ground arith, h.1)) os unseen),
    )

check_registry-IsRegistry :
    (env : Text) (olts os : List OltRuntimeConfig) (d : Text)
    → check_registry env olts ≡ ok (os, d)
    → IsRegistry os d
unfolding check_registry
check_registry-IsRegistry env olts os d e = elim (Option-cases (check_ids [] olts)) [
  | inr (m, failed) ↦ elim (rejected m (rw (check_registry, failed) at e)) [ ]
  | inl passed ↦ elim (Bool-cases (any (λ o. text_eq o.id (default_of env olts)) olts)) [
    | inr missing ↦ elim (rejected _ (rw (check_registry, passed, missing) at e)) [ ]
    | inl known ↦
        let (once, unseen) = check_ids-Once [] olts passed in
        subst (λ q. IsRegistry q.0 q.1) (accepted (rw (check_registry, passed, known) at e))
          (record { once = once; ids = All-map (λ p h. h.1) olts unseen; has_default = known })
  ]
]
  where
    rejected :
        (m : OltsError)
        → ◌≡◌ {A = Result OltsError (List OltRuntimeConfig × Text)} (err m) (ok (os, d))
        → ⊥
    rejected m h = ground arith

    accepted :
        ◌≡◌ {A = Result OltsError (List OltRuntimeConfig × Text)}
          (ok (olts, default_of env olts))
          (ok (os, d))
        → ◌≡◌ {A = List OltRuntimeConfig × Text} (olts, default_of env olts) (os, d)
    accepted h = ground arith

-- Whatever the environment holds, OLTs that pass have different ids, each of letters, digits, `-`
-- and `_`, and the default OLT is one of them.
pub build_olt_registry-IsRegistry :
    (unmarshal : Text → Option (List OltJson)) (olts_json env : Text) (legacy : OltRuntimeConfig)
    (olts : List OltRuntimeConfig) (d : Text)
    → build_olt_registry unmarshal olts_json env legacy ≡ ok (olts, d)
    → IsRegistry olts d
unfolding build_olt_registry
build_olt_registry-IsRegistry unmarshal olts_json env legacy olts d e =
    elim (Result-cases (read_olts unmarshal olts_json legacy)) [
      | inl (os, found) ↦
          check_registry-IsRegistry env os olts d (rw (build_olt_registry, found) at e)
      | inr (m, failed) ↦ elim (rejected m (rw (build_olt_registry, failed) at e)) [ ]
    ]
  where
    rejected :
        (m : OltsError)
        → ◌≡◌ {A = Result OltsError (List OltRuntimeConfig × Text)} (err m) (ok (olts, d))
        → ⊥
    rejected m h = ground arith

absent : (s : Text) → s ≢ [] → text_eq s [] ≡ false
absent s h = ground (arith, text_eq_iff s [])

uint16-max : (n : ℤ) → uint16 n ≤ 65535
unfolding uint16
uint16-max (pos n) = omega arith
uint16-max (negsuc n) = omega arith

-- An OLT that was read: it can be reached at a port other than 0, and each port of its topology has
-- its OIDs.
pub record IsOlt (e : OltJson) (o : OltRuntimeConfig) : Type 0 where
  pub same_id : o.id ≡ e.id
  pub port_min : 1 ≤ o.port
  pub port_max : o.port ≤ 65535
  pub min_concurrent : pos 1 ≤ℤ o.max_concurrent
  pub served : IsServed o.board_pons o.board_pon_map

-- Every entry with an id, a host and a community is accepted, whatever its boards say.
pub olt_from_json-IsOlt :
    (e : OltJson) (default_max_concurrent : ℤ)
    → e.id ≢ []
    → e.host ≢ []
    → e.community ≢ []
    → (o : OltRuntimeConfig) × (olt_from_json e default_max_concurrent ≡ ok o) × IsOlt e o
unfolding olt_from_json
olt_from_json-IsOlt e d hi hh hc =
    let (m, is_served) = parse_board_specs-IsServed e.boards (clamp_pons e.pons_per_board) in
    (
      record {
        id = e.id;
        user_id = e.user_id;
        host = e.host;
        port = if uint16 e.port == 0 then 161 else uint16 e.port;
        community = e.community;
        max_concurrent = or_one (or_one e.max_concurrent d) (pos 5);
        boards = (parse_board_specs e.boards (clamp_pons e.pons_per_board)).0;
        board_pons = (parse_board_specs e.boards (clamp_pons e.pons_per_board)).1;
        pons_per_board = clamp_pons e.pons_per_board;
        board_pon_map = m;
        use_walk = e.walk;
      },
      rw
          (
            olt_from_json,
            absent e.id hi,
            absent e.host hh,
            absent e.community hc,
            is_served.initialized,
          )
          refl,
      record {
        same_id = refl;
        port_min = ground (arith, uint16-max e.port);
        port_max = ground (arith, uint16-max e.port);
        min_concurrent = ground arith;
        served = is_served;
      },
    )
