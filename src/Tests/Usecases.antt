-- ===== src/Tests/Usecases.antt =====
-- The theorems on the cache and the use cases, at an OLT with one card.
use snmp_olt_zte.Common.{
  ℕ, ◌≡◌, refl, ◌≢◌, inl, true, false, none, some, List, [], ◌∷◌, arith, Text, codes, has_prefix,
  split, last_part, ℤ, pos, atoi, ok, Map, lookup, insert, delete, text_key, int_key,
}
use snmp_olt_zte.Common.{IsSorted}
use snmp_olt_zte.Model.{OnuSerialNumber}
use snmp_olt_zte.Utils.Extract.{SnmpPdu, str}
use snmp_olt_zte.Cache.{save_list}
use snmp_olt_zte.Usecase.Keys.{info, base_key, cache_key, cache_key_injective}
use snmp_olt_zte.Usecase.Device.{get_board_config, read_list, walked_ids}
use snmp_olt_zte.Usecase.Lists.{
  info_key, get_by_board_id_and_pon_id, get-fetched, get-empty, fetch_list,
}
use snmp_olt_zte.Usecase.EmptyIds.{
  empty_key, empty_onu_ids, empty_onu_ids_lem, get_empty_onu_id, update_empty_onu_id, get-update,
}
use snmp_olt_zte.Usecase.Serials.{
  serials_key, get_onu_id_and_serial_number, read_serials, get-refreshed,
}
use snmp_olt_zte.Usecase.Eviction.{invalidate_onu_cache, invalidate_onu_cache-other}
use snmp_olt_zte.Tests.Stores.{
  map_redis, map_redis-IsRedis, codec_json, codec_json-IsJson, codec_id, codec_serial, codec_info,
}
use snmp_olt_zte.Tests.Port.{
  olt, port_config, device, dead, no_onu, valid, listed, onus, store, kept, missed,
}

cache_key_injective_example : (codes "a" ≡ codes "a") × (info 1 2 ≡ info 1 2)
cache_key_injective_example = cache_key_injective (codes "a") (codes "a") (info 1 2) (info 1 2) refl

get-fetched_example :
    (get_by_board_id_and_pon_id map_redis (codec_json codec_info) olt device (pos 3) (pos 1) []
      ≡ record { result = ok (some onus); store = store; refresh = false })
    × ((get_by_board_id_and_pon_id map_redis
          (codec_json codec_info)
          olt
          dead
          (pos 3)
          (pos 1)
          store).result
        ≡ ok (some onus))
    × ((get_by_board_id_and_pon_id map_redis
          (codec_json codec_info)
          olt
          dead
          (pos 3)
          (pos 1)
          store).store
        ≡ store)
get-fetched_example =
    get-fetched map_redis map_redis-IsRedis (codec_json codec_info) (codec_json-IsJson codec_info)
      olt (pos 3) (pos 1) port_config valid device dead onus [] store missed listed kept

abbrev empty_store : Map Text Text
empty_store = insert (info_key olt (pos 3) (pos 1)) ((codec_json codec_info).marshal none) []

nobody : read_list olt no_onu (pos 3) (pos 1) port_config ≡ ok none
unfolding read_list snmp_olt_zte.Common.sort_by
nobody = refl

kept_nil :
    save_list map_redis (codec_json codec_info) (info_key olt (pos 3) (pos 1)) (pos 600) none []
    ≡ ok empty_store
unfolding save_list
kept_nil = refl

get-empty_example :
    (get_by_board_id_and_pon_id map_redis (codec_json codec_info) olt no_onu (pos 3) (pos 1) []
      ≡ record { result = ok none; store = empty_store; refresh = false })
    × (get_by_board_id_and_pon_id map_redis
          (codec_json codec_info)
          olt
          dead
          (pos 3)
          (pos 1)
          empty_store
        ≡ fetch_list map_redis
            (codec_json codec_info)
            olt
            dead
            (pos 3)
            (pos 1)
            port_config
            empty_store)
get-empty_example =
    get-empty map_redis map_redis-IsRedis (codec_json codec_info) (codec_json-IsJson codec_info) olt
      (pos 3) (pos 1) port_config valid no_onu dead [] empty_store missed nobody kept_nil

abbrev pdus : List SnmpPdu
pdus =
    record { name = codes ".1.2.7"; value = str (codes "ann") }
    ∷ record { name = codes ".1.2.5"; value = str (codes "bob") }
    ∷ []

empty_onu_ids_example : IsSorted (λ o. o.id) (empty_onu_ids (pos 3) (pos 1) (pos 7 ∷ pos 5 ∷ []))
empty_onu_ids_example = (empty_onu_ids_lem (pos 3) (pos 1) (pos 7 ∷ pos 5 ∷ [])).0

abbrev ids_store : Map Text Text
ids_store =
    insert (empty_key olt (pos 3) (pos 1))
      ((codec_json codec_id).marshal (some (empty_onu_ids (pos 3) (pos 1) (walked_ids pdus)))) []

ids_updated :
    update_empty_onu_id map_redis (codec_json codec_id) olt device (pos 3) (pos 1) []
    ≡ (none, ids_store)
unfolding update_empty_onu_id get_board_config snmp_olt_zte.Config.Topology.get_board_pon_config
    lookup save_list
ids_updated = refl

get-update_example :
    get_empty_onu_id map_redis (codec_json codec_id) olt dead (pos 3) (pos 1) ids_store
    ≡ (ok (some (empty_onu_ids (pos 3) (pos 1) (walked_ids pdus))), ids_store)
get-update_example =
    get-update map_redis map_redis-IsRedis (codec_json codec_id) (codec_json-IsJson codec_id) olt
      (pos 3) (pos 1) [] ids_store port_config device dead pdus valid refl ids_updated

abbrev serial : ℤ → OnuSerialNumber
serial id = record { board = pos 3; pon = pos 1; id = id; serial_number = codes "ZTEG1" }

abbrev serials_store : Map Text Text
serials_store =
    insert (serials_key olt (pos 3) (pos 1))
      ((codec_json codec_serial).marshal (some (serial (pos 5) ∷ serial (pos 7) ∷ []))) []

serials_read :
    read_serials olt device (pos 3) (pos 1) port_config
    ≡ ok (some (serial (pos 5) ∷ serial (pos 7) ∷ []))
unfolding read_serials snmp_olt_zte.Common.sort_by snmp_olt_zte.Common.filter_map
    snmp_olt_zte.Utils.Extract.extract_id_onu_id atoi last_part split
    snmp_olt_zte.Utils.Extract.extract_serial_number has_prefix
serials_read = refl

serials_kept :
    save_list map_redis
      (codec_json codec_serial)
      (serials_key olt (pos 3) (pos 1))
      (pos 600)
      (some (serial (pos 5) ∷ serial (pos 7) ∷ []))
      []
    ≡ ok serials_store
unfolding save_list
serials_kept = refl

get-refreshed_example :
    ((get_onu_id_and_serial_number map_redis
        (codec_json codec_serial)
        olt
        device
        true
        (pos 3)
        (pos 1)
        []).1
      ≡ serials_store)
    × (get_onu_id_and_serial_number map_redis
          (codec_json codec_serial)
          olt
          dead
          false
          (pos 3)
          (pos 1)
          serials_store
        ≡ (ok (some (serial (pos 5) ∷ serial (pos 7) ∷ [])), serials_store))
get-refreshed_example =
    get-refreshed map_redis map_redis-IsRedis (codec_json codec_serial)
      (codec_json-IsJson codec_serial) olt (pos 3) (pos 1) port_config valid device dead []
      serials_store (serial (pos 5) ∷ serial (pos 7) ∷ []) serials_read serials_kept

another : codes "c320" ≢ codes "c300"
another e = ground arith

invalidate_onu_cache-other_example :
    map_redis.get
      (cache_key (codes "c320") (base_key (info 3 1)))
      (invalidate_onu_cache map_redis olt (pos 3) (pos 1) (pos 5) store)
    ≡ map_redis.get (cache_key (codes "c320") (base_key (info 3 1))) store
invalidate_onu_cache-other_example =
    invalidate_onu_cache-other map_redis map_redis-IsRedis olt 3 1 5 store (codes "c320") (info 3 1)
      (inl another)
