-- ===== src/Usecase/Serials.antt =====
-- internal/usecase/onu.go: the serial numbers of a port, from the cache unless a fresh read is
-- asked for.
use snmp_olt_zte.Common.{
  ◌≡◌, refl, Bool, true, false, Option, none, some, List, [], ◌∷◌, ◌++◌, if◌then◌else◌, Text, codes,
  ℤ, Result, ok, err, ◌>>=◌, text_key, int_key,
}
use snmp_olt_zte.Common.{filter_map, sort_by}
use snmp_olt_zte.Model.{OnuSerialNumber}
use snmp_olt_zte.Utils.Extract.{Value, extract_serial_number}
use snmp_olt_zte.Cache.{
  RedisClient, IsRedis, Json, IsJson, get_list, save_list, get_list-save_list, hit,
}
use snmp_olt_zte.Usecase.Keys.{serial_list_key, cache_key}
use snmp_olt_zte.Usecase.Device.{
  SnmpRepository, OnuUsecase, OltConfig, UsecaseError, walk_error, snmp_error, get_board_config,
  walked_ids, onu_oid_of, non_nil,
}
use snmp_olt_zte.Usecase.Lists.{saved}

unfoldable pub serials_key : OnuUsecase → ℤ → ℤ → Text
serials_key u board_id pon_id = cache_key u.olt_id (serial_list_key board_id pon_id)

-- The first variable of a packet.
unfoldable pub get_from_snmp : SnmpRepository → Text → Result UsecaseError Value
get_from_snmp snmp oid = elim (snmp.get (oid ∷ [])) [
  | err e ↦ err (snmp_error (codes "Get") e)
  | ok vs ↦ elim vs [
    | [] ↦ err (snmp_error (codes "Get") (codes "no variables in response"))
    | v ∷ more ↦ ok v
  ]
]

unfoldable pub get_serial_number : OnuUsecase → SnmpRepository → Text → ℤ → Result UsecaseError Text
unfolding get_from_snmp
get_serial_number u snmp oid id =
    get_from_snmp snmp (onu_oid_of u.base_oid1 oid id) >>= λ v. ok (extract_serial_number v)

module _ (u : OnuUsecase) (snmp : SnmpRepository) (board_id pon_id : ℤ) where
  -- An ONU whose serial number cannot be read is left out.
  unfoldable pub onu_serial_number : OltConfig → ℤ → Option OnuSerialNumber
  unfolding get_serial_number
  onu_serial_number c id = elim (get_serial_number u snmp c.oids.onu_serial_number_oid id) [
    | err e ↦ none
    | ok serial ↦ some (record { board = board_id; pon = pon_id; id = id; serial_number = serial })
  ]

  unfoldable pub read_serials : OltConfig → Result Text (Option (List OnuSerialNumber))
  unfolding onu_serial_number
  read_serials c = elim (snmp.bulk_walk (c.base_oid ++ c.oids.onu_id_name_oid)) [
    | err e ↦ err e
    | ok pdus ↦
        ok (non_nil (sort_by (λ o. o.id) (filter_map (onu_serial_number c) (walked_ids pdus))))
  ]

module _ (r : RedisClient) (json : Json OnuSerialNumber) (u : OnuUsecase) (snmp : SnmpRepository)
    (no_cache : Bool) (board_id pon_id : ℤ) where
  -- What the cache gives, unless the context says to pass it over.
  unfoldable pub cached_serials : r.Store → Option (List OnuSerialNumber)
  cached_serials s =
      if no_cache then none else hit (get_list r json (serials_key u board_id pon_id) s)

  unfoldable pub fetch_serials :
      OltConfig → r.Store → Result UsecaseError (Option (List OnuSerialNumber)) × r.Store
  fetch_serials c s = elim (read_serials u snmp board_id pon_id c) [
    | err e ↦ (err (walk_error e), s)
    | ok xs ↦
        (ok xs, saved (save_list r json (serials_key u board_id pon_id) u.onu_info_ttl xs s) s)
  ]

  unfoldable pub get_onu_id_and_serial_number :
      r.Store → Result UsecaseError (Option (List OnuSerialNumber)) × r.Store
  unfolding cached_serials fetch_serials
  get_onu_id_and_serial_number s = elim (get_board_config u board_id pon_id) [
    | err e ↦ (err e, s)
    | ok c ↦ elim (cached_serials s) [ some xs ↦ (ok (some xs), s) | none ↦ fetch_serials c s ]
  ]

module _ (r : RedisClient) (laws : IsRedis r) (json : Json OnuSerialNumber)
    (json_laws : IsJson json) (u : OnuUsecase) (board_id pon_id : ℤ) (c : OltConfig)
    (valid : get_board_config u board_id pon_id ≡ ok c) where
  -- A forced read returns what the OLT has now, whatever the cache holds.
  pub get-no_cache :
      (snmp : SnmpRepository) (s : r.Store) (xs : Option (List OnuSerialNumber))
      → read_serials u snmp board_id pon_id c ≡ ok xs
      → (get_onu_id_and_serial_number r json u snmp true board_id pon_id s).0 ≡ ok xs
  unfolding get_onu_id_and_serial_number cached_serials fetch_serials
  get-no_cache snmp s xs e = rw (get_onu_id_and_serial_number, valid, fetch_serials, e) refl

  -- A forced read that finds a serial number and whose save succeeds refreshes the cache: the cached
  -- reads after it return its list, whatever the OLT answers then.
  pub get-refreshed :
      (snmp later : SnmpRepository) (s s' : r.Store) (xs : List OnuSerialNumber)
      → read_serials u snmp board_id pon_id c ≡ ok (some xs)
      → save_list r json (serials_key u board_id pon_id) u.onu_info_ttl (some xs) s ≡ ok s'
      → ((get_onu_id_and_serial_number r json u snmp true board_id pon_id s).1 ≡ s')
        × (get_onu_id_and_serial_number r json u later false board_id pon_id s'
            ≡ (ok (some xs), s'))
  unfolding get_onu_id_and_serial_number cached_serials fetch_serials
  get-refreshed snmp later s s' xs e kept = (
    rw (get_onu_id_and_serial_number, valid, fetch_serials, e, kept) refl,
    rw
        (
          get_onu_id_and_serial_number,
          valid,
          get_list-save_list r laws json json_laws (serials_key u board_id pon_id) u.onu_info_ttl
              (some xs) s s' kept,
        )
        refl,
  )
