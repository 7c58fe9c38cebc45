-- ===== src/Access/Tenants.antt =====
-- A tenant reaches its own OLTs only, and cannot tell another's from a missing one.
use snmp_olt_zte.Common.{
  ◌≡◌, refl, ◌≢◌, ◌⊎◌, inl, inr, true, false, Option, none, some, [], ◌∷◌, map, arith, Bool-cases,
  Option-cases, Text, text_eq, text_eq_refl, ℤ, pos, ◌≤ℤ◌, eq_ℤ_iff, Result, ok, err, Map, lookup,
  delete, lookup-delete, text_key, int_key,
}
use mathlib.Core.Path.{subst}
use snmp_olt_zte.Common.{bind-ok}
use snmp_olt_zte.Config.Users.{ApiUser, is_admin, AreUsers}
use snmp_olt_zte.Registry.{OltEntry, OltRegistry}
use snmp_olt_zte.Access.{
  Principal, Rejection, olt_not_found, principals, principal_of, authenticate, may_access,
  resolve_olt, admit, validate_board_pon_params,
}

-- An OLT of another owner answers just as an OLT that is not there.
pub resolve_olt-hidden :
    (reg : OltRegistry) (p : Principal) (olt_id : Text) (entry : OltEntry)
    → lookup olt_id reg.entries ≡ some entry
    → p.admin ≡ false
    → p.user_id ≢ entry.user_id
    → resolve_olt reg (some p) olt_id
      ≡ resolve_olt (record reg { entries = delete olt_id reg.entries }) (some p) olt_id
unfolding resolve_olt may_access
resolve_olt-hidden reg p olt_id entry found user other = ground (
  arith,
  lookup-delete olt_id olt_id reg.entries,
  text_eq_refl olt_id,
  eq_ℤ_iff p.user_id entry.user_id,
)

lookup-principals :
    (users : Map Text ApiUser) (key : Text)
    → lookup key (map (λ kv. (kv.0, principal_of kv.1)) users)
      ≡ elim (lookup key users) [ none ↦ none | some u ↦ some (principal_of u) ]
unfolding lookup
lookup-principals [] key = refl
lookup-principals ((k, u) ∷ users) key = elim (Bool-cases (text_eq k key)) [
  | inl hit ↦ rw hit refl
  | inr miss ↦ rw miss (lookup-principals users key)
]

authenticate-user :
    (users : Map Text ApiUser) (legacy_key key : Text) (q : Option Principal)
    → users ≢ []
    → authenticate (principals users) legacy_key key ≡ ok q
    → (u : ApiUser) × (lookup key users ≡ some u) × (q ≡ some (principal_of u))
unfolding authenticate principals
authenticate-user [] legacy_key key q nonempty e = elim (nonempty refl) [ ]
authenticate-user ((k, v) ∷ users) legacy_key key q nonempty e =
    elim (Bool-cases (text_eq key [])) [
      | inl blank ↦ ground arith
      | inr given ↦ elim (Option-cases (lookup key ((k, v) ∷ users))) [
        | inl missing ↦ ground (arith, lookup-principals ((k, v) ∷ users) key)
        | inr (u, found) ↦ (u, found, ground (arith, lookup-principals ((k, v) ∷ users) key))
      ]
    ]

pub resolve_olt-ok :
    (reg : OltRegistry) (q : Option Principal) (olt_id : Text) (entry : OltEntry)
    → resolve_olt reg q olt_id ≡ ok entry
    → (lookup olt_id reg.entries ≡ some entry) × (may_access q entry.user_id ≡ true)
unfolding resolve_olt
resolve_olt-ok reg q olt_id entry e = elim (Option-cases (lookup olt_id reg.entries)) [
  | inl missing ↦ ground arith
  | inr (found, eq) ↦ elim (Bool-cases (may_access q found.user_id)) [
    | inr barred ↦ elim (rejected (rw (resolve_olt, eq, barred) at e)) [ ]
    | inl allowed ↦
        subst (λ x. (lookup olt_id reg.entries ≡ some x) × (may_access q x.user_id ≡ true))
          (accepted found (rw (resolve_olt, eq, allowed) at e)) (eq, allowed)
  ]
]
  where
    rejected : ◌≡◌ {A = Result Rejection OltEntry} (err (olt_not_found olt_id)) (ok entry) → ⊥
    rejected h = ground arith

    accepted : (x : OltEntry) → ◌≡◌ {A = Result Rejection OltEntry} (ok x) (ok entry) → x ≡ entry
    accepted x h = ground arith

-- The steps of a request that is admitted.
pub admit-ok :
    (users : Option (Map Text Principal)) (legacy_key : Text) (reg : OltRegistry)
    (key olt_id board_id pon_id : Text) (entry : OltEntry) (b p : ℤ)
    → admit users legacy_key reg key olt_id board_id pon_id ≡ ok (entry, b, p)
    → (q : Option Principal) × (authenticate users legacy_key key ≡ ok q)
      × (resolve_olt reg q olt_id ≡ ok entry)
      × (validate_board_pon_params entry.board_pons board_id pon_id ≡ ok (b, p))
unfolding admit
admit-ok users legacy_key reg key olt_id board_id pon_id entry b p e =
    let (q, who, e₁) = bind-ok (authenticate users legacy_key key) _ (entry, b, p) e in
    let (x, where_, e₂) = bind-ok (resolve_olt reg q olt_id) _ (entry, b, p) e₁ in
    let (bp, valid, e₃) =
      bind-ok (validate_board_pon_params x.board_pons board_id pon_id) _ (entry, b, p) e₂ in
    (q, who, rw (admitted x bp e₃) at where_, valid_at x bp e₃ valid)
  where
    admitted :
        (x : OltEntry) (bp : ℤ × ℤ)
        → ◌≡◌ {A = Result Rejection (OltEntry × ℤ × ℤ)} (ok (x, bp.0, bp.1)) (ok (entry, b, p))
        → x ≡ entry
    admitted x bp h = ground arith

    valid_at :
        (x : OltEntry) (bp : ℤ × ℤ)
        → ◌≡◌ {A = Result Rejection (OltEntry × ℤ × ℤ)} (ok (x, bp.0, bp.1)) (ok (entry, b, p))
        → validate_board_pon_params x.board_pons board_id pon_id ≡ ok bp
        → validate_board_pon_params entry.board_pons board_id pon_id ≡ ok (b, p)
    valid_at x (c, d) h v =
        let board : c ≡ b = ground arith in
        let pon : d ≡ p = ground arith in
        subst (λ y. validate_board_pon_params y.board_pons board_id pon_id ≡ ok (b, p))
          (admitted x (c, d) h) (rw (board, pon) at v)

-- With configured users, every request that is admitted carries the key of one of them, and he is an
-- admin or the owner of the OLT, which then is not an unowned one.
pub admit-owner :
    (users : Map Text ApiUser) (legacy_key : Text) (reg : OltRegistry)
    (key olt_id board_id pon_id : Text) (entry : OltEntry) (b p : ℤ)
    → AreUsers users
    → users ≢ []
    → admit (principals users) legacy_key reg key olt_id board_id pon_id ≡ ok (entry, b, p)
    → (u : ApiUser) × (lookup key users ≡ some u)
      × (lookup olt_id reg.entries ≡ some entry)
      × ((is_admin u ≡ true) ⊎ ((u.user_id ≡ entry.user_id) × (entry.user_id ≢ pos 0)))
unfolding may_access
admit-owner users legacy_key reg key olt_id board_id pon_id entry b p ws some_user e =
    let (q, who, resolved, _) =
      admit-ok (principals users) legacy_key reg key olt_id board_id pon_id entry b p e in
    let (u, found, is_q) = authenticate-user users legacy_key key q some_user who in
    let (served, allowed) = resolve_olt-ok reg q olt_id entry resolved in
    (u, found, served, owner u found (rw is_q at allowed))
  where
    unowned :
        (u : ApiUser)
        → u.user_id ≡ entry.user_id
        → is_admin u ≡ false
        → (is_admin u ≡ true) ⊎ (pos 1 ≤ℤ u.user_id)
        → entry.user_id ≢ pos 0
    unowned u same user (inl admin) e = ground arith
    unowned u same user (inr positive) e = ground arith

    owner :
        (u : ApiUser)
        → lookup key users ≡ some u
        → may_access (some (principal_of u)) entry.user_id ≡ true
        → (is_admin u ≡ true) ⊎ ((u.user_id ≡ entry.user_id) × (entry.user_id ≢ pos 0))
    owner u found allowed = elim (Bool-cases (is_admin u)) [
      | inl admin ↦ inl admin
      | inr user ↦
          let same : u.user_id ≡ entry.user_id = ground (arith, eq_ℤ_iff u.user_id entry.user_id) in
          inr (same, unowned u same user (ws key u found).owns)
    ]
