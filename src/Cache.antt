-- ===== src/Cache.antt =====
-- internal/repository/redis.go: lists of records in Redis. The client and the JSON library are
-- parameters; a slice is an `Option` of a list, `none` for nil, since both are told apart.
use snmp_olt_zte.Common.{
  ◌≡◌, refl, inl, inr, Option, none, some, List, arith, if◌then◌else◌, Bool-cases, Option-cases,
  Text, text_eq, text_eq_refl, ℤ, Result, ok, err, text_key, int_key,
}

-- `*redis.Client`: a failed command is `none` (for `get` also a missing key), and a TTL is given and
-- asked for in seconds.
pub record RedisClient : Type 1 where
  pub Store : Type 0
  pub get : Text → Store → Option Text
  pub set : Text → Text → ℤ → Store → Option Store
  pub del : Text → Store → Option Store
  pub ttl : Text → Store → Option ℤ

-- What Redis documents of GET, SET and DEL, at one moment.
pub record IsRedis (r : RedisClient) : Type 0 where
  pub get-set :
      (j k v : Text) (seconds : ℤ) (s s' : r.Store)
      → r.set k v seconds s ≡ some s'
      → r.get j s' ≡ (if text_eq k j then some v else r.get j s)
  pub get-del :
      (j k : Text) (s s' : r.Store)
      → r.del k s ≡ some s'
      → r.get j s' ≡ (if text_eq k j then none else r.get j s)

-- json.Marshal and json.Unmarshal for a slice of the record.
pub record Json (A : Type 0) : Type 0 where
  pub marshal : Option (List A) → Text
  pub unmarshal : Text → Option (Option (List A))

-- encoding/json reads back what it wrote, a nil slice (`null`) as a nil slice.
abbrev pub IsJson : {A : Type 0} → Json A → Type 0
IsJson {A} j = (xs : Option (List A)) → j.unmarshal (j.marshal xs) ≡ some xs

pub data RedisError : Type 0 where
  redis_error : RedisError
  unmarshal_error : RedisError

module _ (r : RedisClient) {A : Type 0} (json : Json A) where
  unfoldable pub get_list : Text → r.Store → Result RedisError (Option (List A))
  get_list key s = elim (r.get key s) [
    | none ↦ err redis_error
    | some bytes ↦ elim (json.unmarshal bytes) [ none ↦ err unmarshal_error | some xs ↦ ok xs ]
  ]

  unfoldable pub save_list : Text → ℤ → Option (List A) → r.Store → Result RedisError r.Store
  save_list key seconds xs s = elim (r.set key (json.marshal xs) seconds s) [
    | none ↦ err redis_error
    | some s' ↦ ok s'
  ]

-- `err == nil && cached != nil`
abbrev pub hit : {A : Type 0} → Result RedisError (Option (List A)) → Option (List A)
hit (ok xs) = xs
hit (err e) = none

-- Deletes a key; one that is missing is no error.
unfoldable pub delete_key : (r : RedisClient) → Text → r.Store → Result RedisError r.Store
delete_key r key s = elim (r.del key s) [ none ↦ err redis_error | some s' ↦ ok s' ]

module _ (r : RedisClient) (laws : IsRedis r) {A : Type 0} (json : Json A)
    (json_laws : IsJson json) where
  -- A list that was saved is read back; saving it changes no other key.
  pub get_list-save_list :
      (key : Text) (seconds : ℤ) (xs : Option (List A)) (s s' : r.Store)
      → save_list r json key seconds xs s ≡ ok s'
      → get_list r json key s' ≡ ok xs
  unfolding get_list save_list
  get_list-save_list key seconds xs s s' e =
      elim (Option-cases (r.set key (json.marshal xs) seconds s)) [
        | inl failed ↦ ground arith
        | inr (t, saved) ↦
            let same : t ≡ s' = ground arith in
            rw
              (
                get_list,
                laws.get-set key key (json.marshal xs) seconds s s' (rw same at saved),
                text_eq_refl key,
                json_laws xs,
              )
              refl
      ]

-- A key that is deleted is a miss.
pub get_list-delete_key :
    (r : RedisClient) (laws : IsRedis r) {A : Type 0} (json : Json A) (j key : Text)
    (s s' : r.Store)
    → delete_key r key s ≡ ok s'
    → get_list r json j s' ≡ (if text_eq key j then err redis_error else get_list r json j s)
unfolding delete_key get_list
get_list-delete_key r laws json j key s s' e = elim (Option-cases (r.del key s)) [
  | inl failed ↦ ground arith
  | inr (t, deleted) ↦
      let same : t ≡ s' = ground arith in
      rw (get_list, laws.get-del j key s s' (rw same at deleted))
        (elim (Bool-cases (text_eq key j)) [ inl hit ↦ rw hit refl | inr other ↦ rw other refl ])
]
