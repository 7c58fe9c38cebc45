-- ===== src/Usecase/Lists.antt =====
-- internal/usecase/onu.go: the ONUs of a port, from the cache or from the OLT.
use snmp_olt_zte.Common.{
  ◌≡◌, refl, inl, inr, Bool, false, ◌&&◌, Option, none, some, List, [], ◌∷◌, ◌++◌, map, arith, Text,
  codes, ℤ, pos, ltb_ℤ, tdiv, Result, ok, err, Result-cases, text_key, int_key,
}
use snmp_olt_zte.Common.{IsSorted, sort_by, sort_by-IsSorted}
use snmp_olt_zte.Model.{OnuInfoPerBoard}
use snmp_olt_zte.Cache.{
  RedisClient, IsRedis, Json, IsJson, get_list, save_list, get_list-save_list, hit,
}
use mathlib.Core.Option.{some-injective}
use mathlib.Core.Path.{subst}
use snmp_olt_zte.Usecase.Keys.{generate_redis_key, cache_key}
use snmp_olt_zte.Usecase.Device.{
  SnmpRepository, OnuUsecase, OltConfig, UsecaseError, walk_error, get_board_config, read_list,
  non_nil, onu_info, snmp_data_map,
}

abbrev pub saved : {E S : Type 0} → Result E S → S → S
saved (ok s') s = s'
saved (err e) s = s

unfoldable pub info_key : OnuUsecase → ℤ → ℤ → Text
info_key u board_id pon_id =
    cache_key u.olt_id (generate_redis_key (codes "onu_info") board_id pon_id)

-- The error or the list, the store after it, and whether a refresh is started in the background.
pub record ListReply (S : Type 0) : Type 0 where
  pub result : Result UsecaseError (Option (List OnuInfoPerBoard))
  pub store : S
  pub refresh : Bool

module _ (r : RedisClient) (json : Json OnuInfoPerBoard) (u : OnuUsecase) (snmp : SnmpRepository)
    (board_id pon_id : ℤ) where
  -- 0 < ttl < OnuInfoTtl / 5
  unfoldable pub runs_out : Option ℤ → Bool
  runs_out none = false
  runs_out (some ttl) = ltb_ℤ (pos 0) ttl && ltb_ℤ ttl (tdiv u.onu_info_ttl 5)

  -- The walk and the save; an error of the save is only logged.
  unfoldable pub fetch_list : OltConfig → r.Store → ListReply r.Store
  fetch_list c s = elim (read_list u snmp board_id pon_id c) [
    | err e ↦ record { result = err (walk_error e); store = s; refresh = false }
    | ok xs ↦ record {
      result = ok xs;
      store = saved (save_list r json (info_key u board_id pon_id) u.onu_info_ttl xs s) s;
      refresh = false;
    }
  ]

  unfoldable pub get_by_board_id_and_pon_id : r.Store → ListReply r.Store
  unfolding fetch_list runs_out
  get_by_board_id_and_pon_id s = elim (get_board_config u board_id pon_id) [
    | err e ↦ record { result = err e; store = s; refresh = false }
    | ok c ↦ elim (hit (get_list r json (info_key u board_id pon_id) s)) [
      | some xs ↦ record {
        result = ok (some xs);
        store = s;
        refresh = runs_out (r.ttl (info_key u board_id pon_id) s);
      }
      | none ↦ fetch_list c s
    ]
  ]

  -- The store after a background refresh.
  unfoldable pub refresh_onu_info_cache : OltConfig → r.Store → r.Store
  refresh_onu_info_cache c s = elim (read_list u snmp board_id pon_id c) [
    | err e ↦ s
    | ok xs ↦ saved (save_list r json (info_key u board_id pon_id) u.onu_info_ttl xs s) s
  ]

non_nil-IsSorted :
    (xs ys : List OnuInfoPerBoard)
    → IsSorted (λ i. i.id) ys
    → non_nil ys ≡ some xs
    → IsSorted (λ i. i.id) xs
non_nil-IsSorted xs [] w h = ground arith
non_nil-IsSorted xs (y ∷ ys) w h =
    subst (λ zs. IsSorted (λ i. i.id) zs) (some-injective (y ∷ ys) xs h) w

-- A list that is read from the OLT is sorted by ONU.
pub read_list-IsSorted :
    (u : OnuUsecase) (snmp : SnmpRepository) (board_id pon_id : ℤ) (c : OltConfig)
    (xs : List OnuInfoPerBoard)
    → read_list u snmp board_id pon_id c ≡ ok (some xs)
    → IsSorted (λ i. i.id) xs
unfolding read_list
read_list-IsSorted u snmp board_id pon_id c xs e =
    elim (Result-cases (snmp.bulk_walk (c.base_oid ++ c.oids.onu_id_name_oid))) [
      | inr (m, failed) ↦ ground arith
      | inl (pdus, walked) ↦
          non_nil-IsSorted xs
            (sort_by (λ i. i.id)
              (map (λ kv. onu_info u snmp board_id pon_id c kv.1) (snmp_data_map pdus [])))
            (sort_by-IsSorted (λ i. i.id) _) (ground arith)
    ]

module _ (r : RedisClient) (laws : IsRedis r) (json : Json OnuInfoPerBoard)
    (json_laws : IsJson json) (u : OnuUsecase) (board_id pon_id : ℤ) (c : OltConfig)
    (valid : get_board_config u board_id pon_id ≡ ok c) where
  -- A list that is in the cache is returned as it is, whatever the OLT has, and nothing is written.
  pub get-cached :
      (snmp : SnmpRepository) (xs : List OnuInfoPerBoard) (s : r.Store)
      → hit (get_list r json (info_key u board_id pon_id) s) ≡ some xs
      → ((get_by_board_id_and_pon_id r json u snmp board_id pon_id s).result ≡ ok (some xs))
        × ((get_by_board_id_and_pon_id r json u snmp board_id pon_id s).store ≡ s)
  unfolding get_by_board_id_and_pon_id
  get-cached snmp xs s e = rw (get_by_board_id_and_pon_id, valid, e) (refl, refl)

  -- A list that is fetched and saved is what later reads return, even if the OLT has changed or
  -- cannot be reached.
  pub get-fetched :
      (snmp later : SnmpRepository) (xs : List OnuInfoPerBoard) (s s' : r.Store)
      → hit (get_list r json (info_key u board_id pon_id) s) ≡ none
      → read_list u snmp board_id pon_id c ≡ ok (some xs)
      → save_list r json (info_key u board_id pon_id) u.onu_info_ttl (some xs) s ≡ ok s'
      → (get_by_board_id_and_pon_id r json u snmp board_id pon_id s
          ≡ record { result = ok (some xs); store = s'; refresh = false })
        × ((get_by_board_id_and_pon_id r json u later board_id pon_id s').result ≡ ok (some xs))
        × ((get_by_board_id_and_pon_id r json u later board_id pon_id s').store ≡ s')
  unfolding get_by_board_id_and_pon_id fetch_list
  get-fetched snmp later xs s s' miss walked kept =
      let (first, second) = get-cached later xs s' (
        rw
          (get_list-save_list r laws json json_laws (info_key u board_id pon_id) u.onu_info_ttl
            (some xs) s s' kept)
          refl) in
      (rw (get_by_board_id_and_pon_id, valid, miss, fetch_list, walked, kept) refl, first, second)

  -- An empty port is never served from the cache: the nil slice that was saved counts as a miss, so
  -- the OLT is walked at every read.
  pub get-empty :
      (snmp later : SnmpRepository) (s s' : r.Store)
      → hit (get_list r json (info_key u board_id pon_id) s) ≡ none
      → read_list u snmp board_id pon_id c ≡ ok none
      → save_list r json (info_key u board_id pon_id) u.onu_info_ttl none s ≡ ok s'
      → (get_by_board_id_and_pon_id r json u snmp board_id pon_id s
          ≡ record { result = ok none; store = s'; refresh = false })
        × (get_by_board_id_and_pon_id r json u later board_id pon_id s'
            ≡ fetch_list r json u later board_id pon_id c s')
  unfolding get_by_board_id_and_pon_id fetch_list
  get-empty snmp later s s' miss walked kept = (
    rw (get_by_board_id_and_pon_id, valid, miss, fetch_list, walked, kept) refl,
    rw
        (
          get_by_board_id_and_pon_id,
          valid,
          get_list-save_list r laws json json_laws (info_key u board_id pon_id) u.onu_info_ttl none
              s s' kept,
        )
        refl,
  )
