-- ===== src/Usecase/Eviction.antt =====
-- internal/usecase/onu.go: what DeleteCache and InvalidateONUCache remove from the cache, and what
-- they leave.
use snmp_olt_zte.Common.{
  ℕ, ◌≡◌, refl, ap, ◌∙◌, ◌≢◌, ◌⊎◌, inl, inr, Option, none, some, arith, Bool-cases, Option-cases,
  Text, text_eq, text_eq_iff, text_eq_refl, ℤ, pos, ok, err, Result-cases, text_key, int_key,
}
use snmp_olt_zte.Model.{OnuInfoPerBoard}
use snmp_olt_zte.Cache.{
  RedisClient, RedisError, IsRedis, Json, get_list, delete_key, get_list-delete_key, hit,
}
use snmp_olt_zte.Usecase.Keys.{
  generate_onu_detail_redis_key, cache_key, BaseKey, info, serials, detail, base_key,
  cache_key_injective,
}
use snmp_olt_zte.Usecase.Device.{
  SnmpRepository, OnuUsecase, OltConfig, UsecaseError, redis_error, validation_error,
  get_board_config,
}
use snmp_olt_zte.Usecase.Lists.{saved, info_key, get_by_board_id_and_pon_id, fetch_list}
use snmp_olt_zte.Usecase.Serials.{serials_key}

unfoldable pub detail_key : OnuUsecase → ℤ → ℤ → ℤ → Text
detail_key u board_id pon_id onu_id =
    cache_key u.olt_id (generate_onu_detail_redis_key board_id pon_id onu_id)

-- A key that cannot be deleted is left, and the error dropped.
unfoldable pub drop_key : (r : RedisClient) → Text → r.Store → r.Store
drop_key r key s = saved (delete_key r key s) s

module _ (r : RedisClient) (u : OnuUsecase) (board_id pon_id : ℤ) where
  unfoldable pub delete_cache : r.Store → Option UsecaseError × r.Store
  unfolding drop_key
  delete_cache s = elim (get_board_config u board_id pon_id) [
    | err e ↦ (some validation_error, s)
    | ok c ↦ elim (delete_key r (info_key u board_id pon_id) s) [
      | err e ↦ (some (redis_error e), s)
      | ok s' ↦ (none, drop_key r (serials_key u board_id pon_id) s')
    ]
  ]

  unfoldable pub invalidate_onu_cache : ℤ → r.Store → r.Store
  unfolding drop_key
  invalidate_onu_cache onu_id s =
      drop_key r (serials_key u board_id pon_id) (
        drop_key r (info_key u board_id pon_id)
          (drop_key r (detail_key u board_id pon_id onu_id) s))

module _ (r : RedisClient) (laws : IsRedis r) {A : Type 0} (json : Json A) where
  -- What is missing stays missing.
  drop_key-miss :
      (j key : Text) (s : r.Store)
      → hit (get_list r json j s) ≡ none
      → hit (get_list r json j (drop_key r key s)) ≡ none
  unfolding drop_key
  drop_key-miss j key s miss = elim (Result-cases (delete_key r key s)) [
    | inr (e, failed) ↦ rw failed miss
    | inl (s', deleted) ↦
        rw (deleted, get_list-delete_key r laws json j key s s' deleted)
          (elim (Bool-cases (text_eq key j)) [
            | inl same ↦ rw same refl
            | inr other ↦ rw other miss
          ])
  ]

module _ (r : RedisClient) (laws : IsRedis r) where
  drop_key-other : (j key : Text) (s : r.Store) → key ≢ j → r.get j (drop_key r key s) ≡ r.get j s
  unfolding drop_key delete_key
  drop_key-other j key s other = elim (Option-cases (r.del key s)) [
    | inl failed ↦ rw (drop_key, delete_key, failed) refl
    | inr (s', deleted) ↦
        rw (drop_key, delete_key, deleted, laws.get-del j key s s' deleted)
          (ground (arith, text_eq_iff key j))
  ]

module _ (r : RedisClient) (laws : IsRedis r) (json : Json OnuInfoPerBoard) (u : OnuUsecase)
    (board_id pon_id : ℤ) (c : OltConfig) (valid : get_board_config u board_id pon_id ≡ ok c) where
  get-miss :
      (snmp : SnmpRepository) (s : r.Store)
      → hit (get_list r json (info_key u board_id pon_id) s) ≡ none
      → get_by_board_id_and_pon_id r json u snmp board_id pon_id s
        ≡ fetch_list r json u snmp board_id pon_id c s
  unfolding get_by_board_id_and_pon_id
  get-miss snmp s miss = rw (get_by_board_id_and_pon_id, valid, miss) refl

  -- Once the cache of a port is deleted, its list is read from the OLT.
  pub get-delete_cache :
      (snmp : SnmpRepository) (s s' : r.Store)
      → delete_cache r u board_id pon_id s ≡ (none, s')
      → get_by_board_id_and_pon_id r json u snmp board_id pon_id s'
        ≡ fetch_list r json u snmp board_id pon_id c s'
  unfolding delete_cache
  get-delete_cache snmp s s' e =
      get-miss snmp s' (elim (Result-cases (delete_key r (info_key u board_id pon_id) s)) [
        | inr (m, failed) ↦ elim (no_error m (rw (delete_cache, valid, failed) at e)) [ ]
        | inl (t, deleted) ↦ rw (← after t (rw (delete_cache, valid, deleted) at e)) (
            drop_key-miss r laws json (info_key u board_id pon_id) (serials_key u board_id pon_id) t
              (rw
                (
                  get_list-delete_key r laws json (info_key u board_id pon_id)
                      (info_key u board_id pon_id) s t deleted,
                  text_eq_refl (info_key u board_id pon_id),
                )
                refl))
      ])
    where
      no_error :
          (m : RedisError)
          → ◌≡◌ {A = Option UsecaseError × r.Store} (some (redis_error m), s) (none, s')
          → ⊥
      no_error m h = ground arith

      after :
          (t : r.Store)
          → ◌≡◌ {A = Option UsecaseError × r.Store}
              (none, drop_key r (serials_key u board_id pon_id) t)
              (none, s')
          → drop_key r (serials_key u board_id pon_id) t ≡ s'
      after t h = ap (λ q. q.1) h

module _ (r : RedisClient) (laws : IsRedis r) (u : OnuUsecase) (b p : ℕ) where
  -- Invalidating an ONU leaves the keys of all other OLTs, and of its own OLT all but the port's
  -- list, its serial numbers and the ONU's detail.
  pub invalidate_onu_cache-other :
      (o : ℕ) (s : r.Store) (olt_id : Text) (k : BaseKey)
      → (olt_id ≢ u.olt_id) ⊎ ((k ≢ info b p) × (k ≢ serials b p) × (k ≢ detail b p o))
      → r.get (cache_key olt_id (base_key k)) (invalidate_onu_cache r u (pos b) (pos p) (pos o) s)
        ≡ r.get (cache_key olt_id (base_key k)) s
  unfolding invalidate_onu_cache info_key serials_key detail_key base_key
  invalidate_onu_cache-other o s olt_id k h =
      drop_key-other r laws _ _ _ (apart (serials b p) h₁)
      ∙ drop_key-other r laws _ _ _ (apart (info b p) h₂)
      ∙ drop_key-other r laws _ _ _ (apart (detail b p o) h₃)
    where
      apart :
          (j : BaseKey)
          → (olt_id ≢ u.olt_id) ⊎ (k ≢ j)
          → cache_key u.olt_id (base_key j) ≢ cache_key olt_id (base_key k)
      apart j h e = ground (arith, cache_key_injective u.olt_id olt_id j k e)

      h₁ : (olt_id ≢ u.olt_id) ⊎ (k ≢ serials b p)
      h₁ = ground arith

      h₂ : (olt_id ≢ u.olt_id) ⊎ (k ≢ info b p)
      h₂ = ground arith

      h₃ : (olt_id ≢ u.olt_id) ⊎ (k ≢ detail b p o)
      h₃ = ground arith
