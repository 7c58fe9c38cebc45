-- ===== src/Config/Olts.antt =====
-- config/olts.go: the OLTs that the environment configures.
pub mod Checked
use snmp_olt_zte.Common.{
  ℕ, ◌-◌, ◌%◌, Bool, true, ◌&&◌, ◌||◌, not, Option, none, some, List, [], ◌∷◌, leb, ◌==◌,
  if◌then◌else◌, Text, codes, text_eq, ℤ, pos, negsuc, ltb_ℤ, Result, ok, err, ◌>>=◌, Map, text_key,
  int_key,
}
use snmp_olt_zte.Common.{any}
use snmp_olt_zte.Config.Oid.{ConfigError}
use snmp_olt_zte.Config.Topology.{
  BoardPonMap, parse_board_specs, initialize_board_pon_map_from_specs, clamp_pons,
}

pub record OltRuntimeConfig : Type 0 where
  pub id : Text
  pub user_id : ℤ
  pub host : Text
  pub port : ℕ
  pub community : Text
  pub max_concurrent : ℤ
  pub boards : List ℤ
  pub board_pons : Map ℤ ℤ
  pub pons_per_board : ℤ
  pub board_pon_map : BoardPonMap
  pub use_walk : Bool

-- One entry of OLTS, decoded.
pub record OltJson : Type 0 where
  pub id : Text
  pub user_id : ℤ
  pub host : Text
  pub port : ℤ
  pub community : Text
  pub max_concurrent : ℤ
  pub boards : Text
  pub pons_per_board : ℤ
  pub walk : Bool

pub data OltsError : Type 0 where
  id_required : OltsError
  host_required : OltsError
  community_required : OltsError
  topology : ConfigError → OltsError
  invalid_json : OltsError
  no_olt : OltsError
  invalid_id : Text → OltsError
  duplicate_id : Text → OltsError
  unknown_default : Text → OltsError

-- uint16(n)
unfoldable pub uint16 : ℤ → ℕ
uint16 (pos n) = n % 65536
uint16 (negsuc n) = 65535 - n % 65536

abbrev pub or_one : ℤ → ℤ → ℤ
or_one a b = if ltb_ℤ a (pos 1) then b else a

unfoldable pub olt_from_json : OltJson → ℤ → Result OltsError OltRuntimeConfig
unfolding uint16 parse_board_specs initialize_board_pon_map_from_specs
olt_from_json e default_max_concurrent =
    if text_eq e.id []
    then err id_required
    else if text_eq e.host []
    then err host_required
    else if text_eq e.community []
    then err community_required
    else let port = uint16 e.port in
      let (boards, board_pons) = parse_board_specs e.boards (clamp_pons e.pons_per_board) in
      elim (initialize_board_pon_map_from_specs board_pons) [
        | err m ↦ err (topology m)
        | ok bp_map ↦ ok (record {
          id = e.id;
          user_id = e.user_id;
          host = e.host;
          port = if port == 0 then 161 else port;
          community = e.community;
          max_concurrent = or_one (or_one e.max_concurrent default_max_concurrent) (pos 5);
          boards = boards;
          board_pons = board_pons;
          pons_per_board = clamp_pons e.pons_per_board;
          board_pon_map = bp_map;
          use_walk = e.walk;
        })
      ]

unfoldable pub olts_from_json : List OltJson → ℤ → Result OltsError (List OltRuntimeConfig)
unfolding olt_from_json
olts_from_json [] default_max_concurrent = ok []
olts_from_json (e ∷ entries) default_max_concurrent =
    olt_from_json e default_max_concurrent >>= λ o.
    olts_from_json entries default_max_concurrent >>= λ os. ok (o ∷ os)

-- [A-Za-z0-9_-]
abbrev pub is_id_char : ℕ → Bool
is_id_char c =
    (leb b'A' c && leb c b'Z')
    || ((leb b'a' c && leb c b'z') || ((leb b'0' c && leb c b'9') || ((c == b'_') || (c == b'-'))))

abbrev pub all_id_chars : Text → Bool
all_id_chars [] = true
all_id_chars (c ∷ s) = is_id_char c && all_id_chars s

-- oltIDPattern.MatchString
abbrev pub is_olt_id : Text → Bool
is_olt_id s = not (text_eq s []) && all_id_chars s

-- The loop over the ids; `seen` holds those of the OLTs before.
unfoldable pub check_ids : List Text → List OltRuntimeConfig → Option OltsError
check_ids seen [] = none
check_ids seen (o ∷ os) =
    let rest = check_ids (o.id ∷ seen) os in
    if not (is_olt_id o.id)
    then some (invalid_id o.id)
    else if any (λ s. text_eq s o.id) seen
    then some (duplicate_id o.id)
    else rest

abbrev pub legacy_olts : OltRuntimeConfig → Result OltsError (List OltRuntimeConfig)
legacy_olts legacy =
    if text_eq legacy.host []
    then err host_required
    else if text_eq legacy.community []
    then err community_required
    else ok
        (record legacy { id = if text_eq legacy.id [] then codes "default" else legacy.id } ∷ [])

abbrev pub default_of : Text → List OltRuntimeConfig → Text
default_of default_olt_env [] = default_olt_env
default_of default_olt_env (o ∷ os) = if text_eq default_olt_env [] then o.id else default_olt_env

unfoldable pub check_registry :
    Text → List OltRuntimeConfig → Result OltsError (List OltRuntimeConfig × Text)
unfolding check_ids
check_registry default_olt_env olts = elim (check_ids [] olts) [
  | some e ↦ err e
  | none ↦
      if any (λ o. text_eq o.id (default_of default_olt_env olts)) olts
      then ok (olts, default_of default_olt_env olts)
      else err (unknown_default (default_of default_olt_env olts))
]

-- encoding/json on OLTS: `none` is an error.
module _ (unmarshal : Text → Option (List OltJson)) where
  unfoldable pub parse_olts : Text → ℤ → Result OltsError (List OltRuntimeConfig)
  unfolding olts_from_json
  parse_olts olts_json default_max_concurrent = elim (unmarshal olts_json) [
    | none ↦ err invalid_json
    | some entries ↦ elim entries [
      | [] ↦ err no_olt
      | e ∷ es ↦ olts_from_json (e ∷ es) default_max_concurrent
    ]
  ]

  abbrev pub read_olts : Text → OltRuntimeConfig → Result OltsError (List OltRuntimeConfig)
  read_olts olts_json legacy =
      if text_eq olts_json []
      then legacy_olts legacy
      else parse_olts olts_json legacy.max_concurrent

  unfoldable pub build_olt_registry :
      Text → Text → OltRuntimeConfig → Result OltsError (List OltRuntimeConfig × Text)
  unfolding check_registry
  build_olt_registry olts_json default_olt_env legacy =
      read_olts olts_json legacy >>= λ olts. check_registry default_olt_env olts
