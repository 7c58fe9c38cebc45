-- ===== src/Usecase/EmptyIds.antt =====
-- internal/usecase/onu.go: the free ONU ids of a port, from the cache or from the OLT.
use snmp_olt_zte.Common.{
  ℕ, zero, suc, ◌+◌, ◌≡◌, refl, ◌∙◌, inl, inr, ◌&&◌, not, Option, none, some, List, [], ◌∷◌, ◌++◌,
  arith, ltb, leb, if◌then◌else◌, Bool-cases, Text, codes, ℤ, pos, ◌≤ℤ◌, eq_ℤ, Result, ok, err,
  text_key, int_key,
}
use snmp_olt_zte.Common.{IsSorted, sort_by, sort_by-IsSorted, any-sort_by, any}
use snmp_olt_zte.Model.{OnuId}
use snmp_olt_zte.Cache.{
  RedisClient, RedisError, IsRedis, Json, IsJson, get_list, save_list, get_list-save_list, hit,
}
use snmp_olt_zte.Utils.Extract.{SnmpPdu}
use snmp_olt_zte.Usecase.Keys.{generate_redis_key, cache_key}
use snmp_olt_zte.Usecase.Device.{
  SnmpRepository, OnuUsecase, OltConfig, UsecaseError, walk_error, snmp_error, redis_error,
  get_board_config, walked_ids,
}

abbrev pub max_onu_id_per_pon : ℕ
max_onu_id_per_pon = 128

unfoldable pub empty_key : OnuUsecase → ℤ → ℤ → Text
empty_key u board_id pon_id =
    cache_key u.olt_id (generate_redis_key (codes "empty_onu_id") board_id pon_id)

-- The ids from `i` on, `count` of them, that are not in `present` (the map numbersToRemove).
unfoldable pub free_ids : ℤ → ℤ → List ℤ → ℕ → ℕ → List OnuId
free_ids board_id pon_id present i zero = []
free_ids board_id pon_id present i (suc count) =
    let rest = free_ids board_id pon_id present (suc i) count in
    if any (eq_ℤ (pos i)) present
    then rest
    else record { board = board_id; pon = pon_id; id = pos i } ∷ rest

unfoldable pub empty_onu_ids : ℤ → ℤ → List ℤ → List OnuId
unfolding free_ids
empty_onu_ids board_id pon_id present =
    sort_by (λ o. o.id) (free_ids board_id pon_id present 1 max_onu_id_per_pon)

module _ (r : RedisClient) (json : Json OnuId) (u : OnuUsecase) (snmp : SnmpRepository)
    (board_id pon_id : ℤ) where
  abbrev pub save_empty : List ℤ → r.Store → Result RedisError r.Store
  save_empty present s =
      save_list r json (empty_key u board_id pon_id) u.empty_onu_id_ttl
        (some (empty_onu_ids board_id pon_id present)) s

  unfoldable pub fetch_empty_onu_id :
      OltConfig → r.Store → Result UsecaseError (Option (List OnuId)) × r.Store
  fetch_empty_onu_id c s = elim (snmp.bulk_walk (c.base_oid ++ c.oids.onu_id_name_oid)) [
    | err e ↦ (err (walk_error e), s)
    | ok pdus ↦ elim (save_empty (walked_ids pdus) s) [
      | err e ↦ (err (redis_error e), s)
      | ok s' ↦ (ok (some (empty_onu_ids board_id pon_id (walked_ids pdus))), s')
    ]
  ]

  unfoldable pub get_empty_onu_id : r.Store → Result UsecaseError (Option (List OnuId)) × r.Store
  unfolding fetch_empty_onu_id
  get_empty_onu_id s = elim (get_board_config u board_id pon_id) [
    | err e ↦ (err e, s)
    | ok c ↦ elim (hit (get_list r json (empty_key u board_id pon_id) s)) [
      | some xs ↦ (ok (some xs), s)
      | none ↦ fetch_empty_onu_id c s
    ]
  ]

  unfoldable pub update_empty_onu_id : r.Store → Option UsecaseError × r.Store
  update_empty_onu_id s = elim (get_board_config u board_id pon_id) [
    | err e ↦ (some e, s)
    | ok c ↦ elim (snmp.bulk_walk (c.base_oid ++ c.oids.onu_id_name_oid)) [
      | err e ↦ (some (snmp_error (codes "Walk") e), s)
      | ok pdus ↦ elim (save_empty (walked_ids pdus) s) [
        | err e ↦ (some (redis_error e), s)
        | ok s' ↦ (none, s')
      ]
    ]
  ]

-- The ids are at least `i`.
abbrev IsAbove : ℕ → List OnuId → Type 0
IsAbove i [] = Unit
IsAbove i (o ∷ os) = pos i ≤ℤ o.id

IsAbove-IsSorted :
    (board_id pon_id : ℤ) (i : ℕ) (os : List OnuId)
    → IsSorted (λ o. o.id) os
    → IsAbove (suc i) os
    → IsSorted (λ o. o.id) (record { board = board_id; pon = pon_id; id = pos i } ∷ os)
IsAbove-IsSorted board_id pon_id i [] h a = tt
IsAbove-IsSorted board_id pon_id i (o ∷ os) h a = (ground arith, h)

IsAbove-pred : (i : ℕ) (os : List OnuId) → IsAbove (suc i) os → IsAbove i os
IsAbove-pred i [] h = tt
IsAbove-pred i (o ∷ os) h = ground arith

free_ids-IsSorted :
    (board_id pon_id : ℤ) (present : List ℤ) (i count : ℕ)
    → IsSorted (λ o. o.id) (free_ids board_id pon_id present i count)
      × IsAbove i (free_ids board_id pon_id present i count)
unfolding free_ids
free_ids-IsSorted board_id pon_id present i zero = (tt, tt)
free_ids-IsSorted board_id pon_id present i (suc count) =
    let (sorted, above) = free_ids-IsSorted board_id pon_id present (suc i) count in
    elim (Bool-cases (any (eq_ℤ (pos i)) present)) [
      | inl taken ↦
          rw taken (sorted, IsAbove-pred i (free_ids board_id pon_id present (suc i) count) above)
      | inr free ↦ rw free (
        IsAbove-IsSorted board_id pon_id i (free_ids board_id pon_id present (suc i) count) sorted
            above,
        omega arith,
      )
    ]

any-free_ids :
    (board_id pon_id : ℤ) (present : List ℤ) (i count n : ℕ)
    → any (λ o. eq_ℤ (pos n) o.id) (free_ids board_id pon_id present i count)
      ≡ ((leb i n && ltb n (i + count)) && not (any (eq_ℤ (pos n)) present))
unfolding free_ids
any-free_ids board_id pon_id present i zero n = ground arith
any-free_ids board_id pon_id present i (suc count) n =
    elim (Bool-cases (any (eq_ℤ (pos i)) present)) [
      | inl taken ↦ rw taken (ground (arith, any-free_ids board_id pon_id present (suc i) count n))
      | inr free ↦ rw free (ground (arith, any-free_ids board_id pon_id present (suc i) count n))
    ]

-- The free ids are sorted, and they are those from 1 to 128 that no ONU of the walk has.
pub empty_onu_ids_lem :
    (board_id pon_id : ℤ) (present : List ℤ)
    → IsSorted (λ o. o.id) (empty_onu_ids board_id pon_id present)
      × ((n : ℕ)
          → any (λ o. eq_ℤ (pos n) o.id) (empty_onu_ids board_id pon_id present)
            ≡ ((leb 1 n && ltb n 129) && not (any (eq_ℤ (pos n)) present)))
unfolding empty_onu_ids
empty_onu_ids_lem board_id pon_id present = (
  sort_by-IsSorted (λ o. o.id) (free_ids board_id pon_id present 1 max_onu_id_per_pon),
  λ n.
      any-sort_by (λ o. o.id) (λ o. eq_ℤ (pos n) o.id)
        (free_ids board_id pon_id present 1 max_onu_id_per_pon)
      ∙ any-free_ids board_id pon_id present 1 max_onu_id_per_pon n,
)

module _ (r : RedisClient) (laws : IsRedis r) (json : Json OnuId) (json_laws : IsJson json)
    (u : OnuUsecase) (board_id pon_id : ℤ) (s s' : r.Store) where
  -- After an update that succeeds, every read returns the free ids of the walk of that update, and
  -- writes nothing, whatever the OLT answers then.
  pub get-update :
      (c : OltConfig) (snmp later : SnmpRepository) (pdus : List SnmpPdu)
      → get_board_config u board_id pon_id ≡ ok c
      → snmp.bulk_walk (c.base_oid ++ c.oids.onu_id_name_oid) ≡ ok pdus
      → update_empty_onu_id r json u snmp board_id pon_id s ≡ (none, s')
      → get_empty_onu_id r json u later board_id pon_id s'
        ≡ (ok (some (empty_onu_ids board_id pon_id (walked_ids pdus))), s')
  unfolding update_empty_onu_id get_empty_onu_id
  get-update c snmp later pdus valid walked e =
      rw
        (
          get_empty_onu_id,
          valid,
          get_list-save_list r laws json json_laws (empty_key u board_id pon_id) u.empty_onu_id_ttl
              (some (empty_onu_ids board_id pon_id (walked_ids pdus))) s s' written,
        )
        refl
    where
      settle :
          (o : Result RedisError r.Store)
          → (elim o as (λ _. Option UsecaseError × r.Store) [
            | err m ↦ (some (redis_error m), s)
            | ok t ↦ (none, t)
          ])
            ≡ (none, s')
          → o ≡ ok s'
      settle (ok t) h = ground arith
      settle (err m) h = ground arith

      written : save_empty r json u snmp board_id pon_id (walked_ids pdus) s ≡ ok s'
      written = settle _ (rw (update_empty_onu_id, valid, walked) at e)
