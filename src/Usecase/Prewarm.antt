-- ===== src/Usecase/Prewarm.antt =====
-- internal/usecase/prewarm.go: the reads at startup that fill the cache. Refreshes in the background
-- are other goroutines.
use snmp_olt_zte.Common.{
  ℕ, ◌+◌, ◌≡◌, refl, ap, ◌≢◌, inl, inr, Bool, Option-cases, false, Option, some, List, [], ◌∷◌,
  ◌++◌, map, arith, if◌then◌else◌, Text, text_eq, text_eq_iff, ℤ, pos, ok, Result-cases, text_key,
  int_key,
}
use snmp_olt_zte.Config.Topology.{BoardPonKey, port}
use snmp_olt_zte.Model.{OnuInfoPerBoard, OnuSerialNumber}
use snmp_olt_zte.Cache.{
  RedisClient, IsRedis, Json, IsJson, get_list, save_list, get_list-save_list, hit,
}
use snmp_olt_zte.Usecase.Keys.{info, serials, base_key, cache_key_injective}
use snmp_olt_zte.Usecase.Device.{SnmpRepository, OnuUsecase, OltConfig, get_board_config, read_list}
use snmp_olt_zte.Usecase.Lists.{saved, info_key, fetch_list, get_by_board_id_and_pon_id}
use snmp_olt_zte.Usecase.Serials.{
  serials_key, read_serials, cached_serials, fetch_serials, get_onu_id_and_serial_number,
}

module _ (r : RedisClient) (json : Json OnuInfoPerBoard) (serial_json : Json OnuSerialNumber)
    (u : OnuUsecase) (snmp : SnmpRepository) (canceled : ℕ → Bool) where
  abbrev pub after_list : ℤ → ℤ → r.Store → r.Store
  after_list b p s = (get_by_board_id_and_pon_id r json u snmp b p s).store

  abbrev pub after_serials : ℤ → ℤ → r.Store → r.Store
  after_serials b p s = (get_onu_id_and_serial_number r serial_json u snmp false b p s).1

  -- The loop over the keys of BoardPonMap; `n` is the number of looks at the context.
  unfoldable pub pre_warm : ℕ → List BoardPonKey → r.Store → r.Store
  pre_warm n [] s = s
  pre_warm n (k ∷ ks) s =
      let listed = after_list k.board_id k.pon_id s in
      let rest = pre_warm (2 + n) ks (after_serials k.board_id k.pon_id listed) in
      if canceled n then s else if canceled (1 + n) then listed else rest

abbrev pub ports : List (ℕ × ℕ) → List BoardPonKey
ports = map (λ q. port (pos q.0) (pos q.1))

module _ (r : RedisClient) (laws : IsRedis r) {A B : Type 0} (json : Json A) (other : Json B) where
  saved-other :
      (j key : Text) (seconds : ℤ) (xs : Option (List B)) (s : r.Store)
      → key ≢ j
      → get_list r json j (saved (save_list r other key seconds xs s) s) ≡ get_list r json j s
  unfolding save_list get_list
  saved-other j key seconds xs s ne = elim (Option-cases (r.set key (other.marshal xs) seconds s)) [
    | inl failed ↦ rw (save_list, failed) refl
    | inr (s', done) ↦
        let no : text_eq key j ≡ false = ground (arith, text_eq_iff key j, ne) in
        rw (save_list, done, get_list, laws.get-set j key (other.marshal xs) seconds s s' done, no)
          refl
  ]

module _ (r : RedisClient) (laws : IsRedis r) (json : Json OnuInfoPerBoard)
    (serial_json : Json OnuSerialNumber) (u : OnuUsecase) (snmp : SnmpRepository) where
  -- The list under the key is in the cache.
  abbrev pub IsWarm : Text → r.Store → Type 0
  IsWarm k s = (xs : List OnuInfoPerBoard) × (hit (get_list r json k s) ≡ some xs)

  after_list-IsWarm :
      (b p : ℤ) (k : Text) (s : r.Store)
      → IsWarm k s
      → IsWarm k (get_by_board_id_and_pon_id r json u snmp b p s).store
  unfolding get_by_board_id_and_pon_id fetch_list
  after_list-IsWarm b p k s (xs, w) = elim (Result-cases (get_board_config u b p)) [
    | inr (e, bad) ↦ (xs, rw (get_by_board_id_and_pon_id, bad) w)
    | inl (c, good) ↦ elim (Option-cases (hit (get_list r json (info_key u b p) s))) [
      | inr (ys, cached) ↦ (xs, rw (get_by_board_id_and_pon_id, good, cached) w)
      | inl miss ↦ elim (Result-cases (read_list u snmp b p c)) [
        | inr (e, failed) ↦ (xs, rw (get_by_board_id_and_pon_id, good, miss, fetch_list, failed) w)
        | inl (ys, walked) ↦
            let ne : info_key u b p ≢ k =
              λ same. ground (arith, ap (λ j. hit (get_list r json j s)) same, miss, w) in
            (
              xs,
              rw
                  (
                    get_by_board_id_and_pon_id,
                    good,
                    miss,
                    fetch_list,
                    walked,
                    saved-other r laws json json k (info_key u b p) u.onu_info_ttl ys s ne,
                  )
                  w,
            )
      ]
    ]
  ]

  after_serials-IsWarm :
      (b p : ℤ) (k : Text) (s : r.Store)
      → serials_key u b p ≢ k
      → IsWarm k s
      → IsWarm k (get_onu_id_and_serial_number r serial_json u snmp false b p s).1
  unfolding get_onu_id_and_serial_number fetch_serials
  after_serials-IsWarm b p k s ne (xs, w) = elim (Result-cases (get_board_config u b p)) [
    | inr (e, bad) ↦ (xs, rw (get_onu_id_and_serial_number, bad) w)
    | inl (c, good) ↦ elim (Option-cases (cached_serials r serial_json u snmp false b p s)) [
      | inr (ys, cached) ↦ (xs, rw (get_onu_id_and_serial_number, good, cached) w)
      | inl miss ↦ elim (Result-cases (read_serials u snmp b p c)) [
        | inr (e, failed) ↦
            (xs, rw (get_onu_id_and_serial_number, good, miss, fetch_serials, failed) w)
        | inl (ys, walked) ↦ (
          xs,
          rw
              (
                get_onu_id_and_serial_number,
                good,
                miss,
                fetch_serials,
                walked,
                saved-other r laws json serial_json k (serials_key u b p) u.onu_info_ttl ys s ne,
              )
              w,
        )
      ]
    ]
  ]

  -- A port that the OLT answers: it is in the topology, and its walk has rows.
  pub record IsReadable (b p : ℤ) : Type 0 where
    pub config : OltConfig
    pub valid : get_board_config u b p ≡ ok config
    pub rows : List OnuInfoPerBoard
    pub walked : read_list u snmp b p config ≡ ok (some rows)

  module _ (json_laws : IsJson json)
      (never_full : (k v : Text) (seconds : ℤ) (s : r.Store)
        → (s' : r.Store) × (r.set k v seconds s ≡ some s')) where
    after_list-filled :
        (b p : ℤ) (s : r.Store)
        → IsReadable b p
        → IsWarm (info_key u b p) (get_by_board_id_and_pon_id r json u snmp b p s).store
    unfolding get_by_board_id_and_pon_id fetch_list save_list
    after_list-filled b p s readable =
        elim (Option-cases (hit (get_list r json (info_key u b p) s))) [
          | inr (ys, cached) ↦ (ys, rw (get_by_board_id_and_pon_id, readable.valid, cached) cached)
          | inl miss ↦
              let (s', kept) =
                never_full (info_key u b p) (json.marshal (some readable.rows)) u.onu_info_ttl s in
              let stored : save_list r json (info_key u b p) u.onu_info_ttl (some readable.rows) s
                  ≡ ok s' =
                rw (save_list, kept) refl in
              (
                readable.rows,
                rw
                    (
                      get_by_board_id_and_pon_id,
                      readable.valid,
                      miss,
                      fetch_list,
                      readable.walked,
                      stored,
                      get_list-save_list r laws json json_laws (info_key u b p) u.onu_info_ttl
                          (some readable.rows) s s' stored,
                    )
                    refl,
              )
        ]

    serials-other : (b p b' p' : ℕ) → serials_key u (pos b) (pos p) ≢ info_key u (pos b') (pos p')
    unfolding serials_key info_key base_key
    serials-other b p b' p' e =
        ground (arith, (cache_key_injective u.olt_id u.olt_id (serials b p) (info b' p') e).1)

    module _ (canceled : ℕ → Bool) (runs : (n : ℕ) → canceled n ≡ false) where
      pre_warm-IsWarm :
          (n : ℕ) (qs : List (ℕ × ℕ)) (b p : ℕ) (s : r.Store)
          → IsWarm (info_key u (pos b) (pos p)) s
          → IsWarm
              (info_key u (pos b) (pos p))
              (pre_warm r json serial_json u snmp canceled n (ports qs) s)
      unfolding pre_warm
      pre_warm-IsWarm n [] b p s w = w
      pre_warm-IsWarm n ((b', p') ∷ qs) b p s w =
          rw (pre_warm, runs n, runs (1 + n))
            (pre_warm-IsWarm (2 + n) qs b p _ (
              after_serials-IsWarm (pos b') (pos p') _ _ (serials-other b' p' b p)
                (after_list-IsWarm (pos b') (pos p') _ s w)))

      -- After a pre-warming that is not canceled the list of every readable port of the topology is in
      -- the cache, whatever was in it before, if no write to Redis fails.
      pub pre_warm-filled :
          (n : ℕ) (before after : List (ℕ × ℕ)) (b p : ℕ) (s : r.Store)
          → IsReadable (pos b) (pos p)
          → IsWarm
              (info_key u (pos b) (pos p))
              (pre_warm r json serial_json u snmp canceled n (ports (before ++ (b, p) ∷ after)) s)
      unfolding pre_warm
      pre_warm-filled n [] after b p s readable =
          rw (pre_warm, runs n, runs (1 + n))
            (pre_warm-IsWarm (2 + n) after b p _ (
              after_serials-IsWarm (pos b) (pos p) _ _ (serials-other b p b p)
                (after_list-filled (pos b) (pos p) s readable)))
      pre_warm-filled n (q ∷ before) after b p s readable =
          rw (pre_warm, runs n, runs (1 + n)) (pre_warm-filled (2 + n) before after b p _ readable)
