-- ===== src/Config/Users.antt =====
-- config/users.go: the API keys and whom they belong to.
use snmp_olt_zte.Common.{
  ◌≡◌, refl, ◌⊎◌, inl, inr, Bool, true, ◌&&◌, ◌||◌, not, Option, none, some, List, [], ◌∷◌, arith,
  if◌then◌else◌, Bool-cases, Option-cases, Text, codes, text_eq, text_eq→eq, to_lower, trim_space,
  ℤ, pos, ◌≤ℤ◌, ltb_ℤ, Result, ok, err, ◌>>=◌, Result-cases, Map, lookup, insert, lookup-insert,
  text_key, int_key,
}
use mathlib.Core.Path.{subst}

pub record ApiUser : Type 0 where
  pub user_id : ℤ
  pub api_key : Text
  pub role : Text

unfoldable pub is_admin : ApiUser → Bool
is_admin u = text_eq u.role (codes "admin")

-- One entry of API_USERS, decoded.
pub record ApiUserJson : Type 0 where
  pub user_id : ℤ
  pub api_key : Text
  pub role : Text

pub data UsersError : Type 0 where
  invalid_json : UsersError
  no_user : UsersError
  key_required : UsersError
  invalid_role : Text → UsersError
  user_id_required : UsersError
  duplicate_key : UsersError

unfoldable pub role_of : Text → Text
role_of raw = let role = to_lower (trim_space raw) in if text_eq role [] then codes "user" else role

unfoldable pub read_user : ApiUserJson → Result UsersError ApiUser
unfolding role_of
read_user e =
    let role = role_of e.role in
    if text_eq (trim_space e.api_key) []
    then err key_required
    else if not (text_eq role (codes "user")) && not (text_eq role (codes "admin"))
    then err (invalid_role e.role)
    else if not (text_eq role (codes "admin")) && ltb_ℤ e.user_id (pos 1)
    then err user_id_required
    else ok (record { user_id = e.user_id; api_key = e.api_key; role = role })

-- Go adds the user in the same turn of the loop that checks it.
unfoldable pub add_user : ApiUser → Map Text ApiUser → Result UsersError (Map Text ApiUser)
add_user u reg = elim (lookup u.api_key reg) [
  | some _ ↦ err duplicate_key
  | none ↦ ok (insert u.api_key u reg)
]

unfoldable pub add_users :
    List ApiUserJson → Map Text ApiUser → Result UsersError (Map Text ApiUser)
unfolding read_user add_user
add_users [] reg = ok reg
add_users (e ∷ entries) reg = read_user e >>= λ u. add_user u reg >>= λ reg'. add_users entries reg'

-- encoding/json on API_USERS is `unmarshal`, `none` an error; the result `none` is the nil map.
unfoldable pub build_user_registry :
    (Text → Option (List ApiUserJson)) → Text → Result UsersError (Option (Map Text ApiUser))
unfolding add_users
build_user_registry unmarshal api_users_json =
    if text_eq (trim_space api_users_json) [] then ok none else elim (unmarshal api_users_json) [
      | none ↦ err invalid_json
      | some entries ↦ elim entries [
        | [] ↦ err no_user
        | e ∷ es ↦ add_users (e ∷ es) [] >>= λ reg. ok (some reg)
      ]
    ]

-- A user stands under its own key, has a known role, and owns an id unless it is an admin.
pub record IsUser (key : Text) (u : ApiUser) : Type 0 where
  pub own_key : u.api_key ≡ key
  pub known_role : (text_eq u.role (codes "user") || text_eq u.role (codes "admin")) ≡ true
  pub owns : (is_admin u ≡ true) ⊎ (pos 1 ≤ℤ u.user_id)

abbrev pub AreUsers : Map Text ApiUser → Type 0
AreUsers reg = (key : Text) (u : ApiUser) → lookup key reg ≡ some u → IsUser key u

read_user-IsUser : (e : ApiUserJson) (u : ApiUser) → read_user e ≡ ok u → IsUser u.api_key u
unfolding read_user is_admin
read_user-IsUser e u h = record { own_key = refl; known_role = ground arith; owns = ground arith }

add_user-AreUsers :
    (u : ApiUser) (reg reg' : Map Text ApiUser)
    → IsUser u.api_key u
    → AreUsers reg
    → add_user u reg ≡ ok reg'
    → AreUsers reg'
unfolding add_user
add_user-AreUsers u reg reg' w ws h key v found = elim (Option-cases (lookup u.api_key reg)) [
  | inr (old, taken) ↦ elim (duplicate old (rw (add_user, taken) at h)) [ ]
  | inl free ↦
      let looked : lookup key (insert u.api_key u reg) ≡ some v =
        rw (← added (rw (add_user, free) at h)) at found in
      elim (Bool-cases (text_eq u.api_key key)) [
        | inr other ↦ ws key v (ground (arith, lookup-insert u.api_key key u reg))
        | inl same ↦
            subst (λ k. IsUser k v) (text_eq→eq u.api_key key same)
              (subst (IsUser u.api_key) (ground (arith, lookup-insert u.api_key key u reg)) w)
      ]
]
  where
    duplicate :
        (old : ApiUser)
        → ◌≡◌ {A = Result UsersError (Map Text ApiUser)} (err duplicate_key) (ok reg')
        → ⊥
    duplicate old h = ground arith

    added :
        ◌≡◌ {A = Result UsersError (Map Text ApiUser)} (ok (insert u.api_key u reg)) (ok reg')
        → insert u.api_key u reg ≡ reg'
    added h = ground arith

add_users-AreUsers :
    (entries : List ApiUserJson) (reg reg' : Map Text ApiUser)
    → AreUsers reg
    → add_users entries reg ≡ ok reg'
    → AreUsers reg'
unfolding add_users
add_users-AreUsers [] reg reg' ws h = subst AreUsers (ground arith) ws
add_users-AreUsers (e ∷ entries) reg reg' ws h = elim (Result-cases (read_user e)) [
  | inr (m, failed) ↦ elim (rejected m (rw (add_users, failed) at h)) [ ]
  | inl (u, valid) ↦ elim (Result-cases (add_user u reg)) [
    | inr (m, failed) ↦ elim (rejected m (rw (add_users, valid, failed) at h)) [ ]
    | inl (t, added) ↦
        add_users-AreUsers entries t reg'
          (add_user-AreUsers u reg t (read_user-IsUser e u valid) ws added)
          (rw (add_users, valid, added) at h)
  ]
]
  where
    rejected :
        (m : UsersError) → ◌≡◌ {A = Result UsersError (Map Text ApiUser)} (err m) (ok reg') → ⊥
    rejected m h = ground arith

pub build_user_registry-AreUsers :
    (unmarshal : Text → Option (List ApiUserJson)) (json : Text) (reg : Map Text ApiUser)
    → build_user_registry unmarshal json ≡ ok (some reg)
    → AreUsers reg
unfolding build_user_registry lookup
build_user_registry-AreUsers unmarshal json reg h =
    let (entries, added) : (entries : List ApiUserJson) × (add_users entries [] ≡ ok reg) =
      parsed in
    add_users-AreUsers entries [] reg (λ key u missing. ground arith) added
  where
    finish :
        (es : List ApiUserJson)
        → (add_users es [] >>= λ r. ok (some r)) ≡ ok (some reg)
        → (entries : List ApiUserJson) × (add_users entries [] ≡ ok reg)
    finish es e = elim (Result-cases (add_users es [])) [
      | inl (r, done) ↦ (es, ground arith)
      | inr (m, failed) ↦ ground arith
    ]

    read :
        (entries : List ApiUserJson)
        → (elim entries as (λ _. Result UsersError (Option (Map Text ApiUser))) [
          | [] ↦ err no_user
          | e ∷ es ↦ add_users (e ∷ es) [] >>= λ r. ok (some r)
        ])
          ≡ ok (some reg)
        → (entries : List ApiUserJson) × (add_users entries [] ≡ ok reg)
    read [] e = ground arith
    read (x ∷ es) e = finish (x ∷ es) e

    parsed : (entries : List ApiUserJson) × (add_users entries [] ≡ ok reg)
    parsed = elim (Bool-cases (text_eq (trim_space json) [])) [
      | inl blank ↦ ground arith
      | inr given ↦ elim (Option-cases (unmarshal json)) [
        | inl failed ↦ ground arith
        | inr (entries, decoded) ↦ read entries (rw (build_user_registry, given, decoded) at h)
      ]
    ]

-- Every user of a registry that is accepted stands under its own key, has the role `user` or `admin`,
-- and is an admin or owns an id of at least 1.
pub build_user_registry-IsUser :
    (unmarshal : Text → Option (List ApiUserJson)) (json : Text) (reg : Map Text ApiUser)
    (key : Text) (u : ApiUser)
    → build_user_registry unmarshal json ≡ ok (some reg)
    → lookup key reg ≡ some u
    → IsUser key u
build_user_registry-IsUser unmarshal json reg key u h found =
    build_user_registry-AreUsers unmarshal json reg h key u found
