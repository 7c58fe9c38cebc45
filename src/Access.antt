-- ===== src/Access.antt =====
-- internal/middleware/auth.go, internal/middleware/validation.go and app/routes.go: which requests
-- reach the handlers of an OLT, and with which port.
pub mod Tenants
pub mod Valid
pub mod Proxies
use snmp_olt_zte.Common.{
  Bool, true, ◌&&◌, ◌||◌, not, Option, none, some, [], ◌∷◌, map, if◌then◌else◌, Text, text_eq, ℤ,
  pos, ltb_ℤ, eq_ℤ, atoi, Result, ok, err, ◌>>=◌, Map, lookup, text_key, int_key,
}
use snmp_olt_zte.Config.Users.{ApiUser, is_admin}
use snmp_olt_zte.Registry.{OltEntry, OltRegistry, get_default}

-- reqctx.Principal
pub record Principal : Type 0 where
  pub user_id : ℤ
  pub admin : Bool

-- The responses of the middlewares that end a request.
pub data Rejection : Type 0 where
  unauthorized : Rejection
  -- 404 with the id that was asked for.
  olt_not_found : Text → Rejection
  invalid_board : Text → Rejection
  invalid_pon : ℤ → ℤ → Text → Rejection
  invalid_onu : Text → Rejection

abbrev pub principal_of : ApiUser → Principal
principal_of u = record { user_id = u.user_id; admin = is_admin u }

-- app.go: the principals of the configured users, `none` if there are none.
unfoldable pub principals : Map Text ApiUser → Option (Map Text Principal)
principals [] = none
principals ((key, u) ∷ users) = some (map (λ kv. (kv.0, principal_of kv.1)) ((key, u) ∷ users))

-- The principal of the request's context; `none` is a request without one.
unfoldable pub authenticate :
    Option (Map Text Principal) → Text → Text → Result Rejection (Option Principal)
authenticate (some users) legacy_key key =
    if text_eq key []
    then err unauthorized
    else elim (lookup key users) [ none ↦ err unauthorized | some p ↦ ok (some p) ]
authenticate none legacy_key key =
    if not (text_eq legacy_key []) && not (text_eq key legacy_key)
    then err unauthorized
    else ok none

-- RequireOLTOwner, also written out in resolveOLT.
unfoldable pub may_access : Option Principal → ℤ → Bool
may_access none owner = true
may_access (some p) owner = p.admin || eq_ℤ p.user_id owner

abbrev pub guard_owner : Option Principal → Text → OltEntry → Result Rejection OltEntry
guard_owner p asked entry =
    if may_access p entry.user_id then ok entry else err (olt_not_found asked)

unfoldable pub resolve_olt : OltRegistry → Option Principal → Text → Result Rejection OltEntry
unfolding may_access
resolve_olt reg p olt_id = elim (lookup olt_id reg.entries) [
  | none ↦ err (olt_not_found olt_id)
  | some entry ↦ guard_owner p olt_id entry
]

unfoldable pub resolve_default_olt : OltRegistry → Option Principal → Result Rejection OltEntry
unfolding may_access
resolve_default_olt reg p = elim (get_default reg) [
  | none ↦ err (olt_not_found [])
  | some entry ↦ guard_owner p [] entry
]

abbrev pub or_c320_ports : Map ℤ ℤ → Map ℤ ℤ
or_c320_ports [] = (pos 1, pos 16) ∷ (pos 2, pos 16) ∷ []
or_c320_ports (s ∷ specs) = s ∷ specs

abbrev pub check_pon : ℤ → ℤ → Text → Result Rejection (ℤ × ℤ)
check_pon b max_pon pon_id = elim (atoi pon_id) [
  | none ↦ err (invalid_pon b max_pon pon_id)
  | some p ↦
      if ltb_ℤ p (pos 1) || ltb_ℤ max_pon p then err (invalid_pon b max_pon pon_id) else ok (b, p)
]

unfoldable pub validate_board_pon_params : Map ℤ ℤ → Text → Text → Result Rejection (ℤ × ℤ)
validate_board_pon_params board_pons board_id pon_id = elim (atoi board_id) [
  | none ↦ err (invalid_board board_id)
  | some b ↦ elim (lookup b (or_c320_ports board_pons)) [
    | none ↦ err (invalid_board board_id)
    | some max_pon ↦ check_pon b max_pon pon_id
  ]
]

unfoldable pub validate_onu_id_param : Text → Result Rejection ℤ
validate_onu_id_param onu_id = elim (atoi onu_id) [
  | none ↦ err (invalid_onu onu_id)
  | some o ↦ if ltb_ℤ o (pos 1) || ltb_ℤ (pos 128) o then err (invalid_onu onu_id) else ok o
]

-- The middlewares of /olt/{olt_id}/board/{board_id}/pon/{pon_id}, in order.
unfoldable pub admit :
    Option (Map Text Principal)
    → Text
    → OltRegistry
    → Text
    → Text
    → Text
    → Text
    → Result Rejection (OltEntry × ℤ × ℤ)
unfolding authenticate resolve_olt validate_board_pon_params
admit users legacy_key reg key olt_id board_id pon_id = authenticate users legacy_key key >>= λ p.
    resolve_olt reg p olt_id >>= λ entry.
    validate_board_pon_params entry.board_pons board_id pon_id >>= λ bp. ok (entry, bp.0, bp.1)
