-- ===== src/Tests/Web.antt =====
-- The uplinks and the handlers at the OLTs of `Port`.
use snmp_olt_zte.Common.{
  inl, ◌*◌, if◌then◌else◌, ◌≡◌, refl, ap, Bool, true, false, none, some, List, [], ◌∷◌, ◌++◌, arith,
  Text, codes, pos, itoa_ℕ, text_eq, lookup, text_key, int_key, ok, take, drop, contains, to_lower,
  has_prefix,
}
use snmp_olt_zte.Utils.Extract.{SnmpPdu, int, str}
use snmp_olt_zte.Cache.{get_list, get_list-save_list, hit}
use snmp_olt_zte.Usecase.Device.{SnmpRepository}
use snmp_olt_zte.Usecase.Lists.{info_key, get-cached}
use snmp_olt_zte.Usecase.EmptyIds.{empty_key}
use snmp_olt_zte.Usecase.Serials.{serials_key}
use snmp_olt_zte.Usecase.Detail.{Times}
use snmp_olt_zte.Usecase.Uplink.{parse_name}
use snmp_olt_zte.Usecase.Uplink.Names.{interface_name, parse_name-interface_name}
use snmp_olt_zte.Http.Errors.{is_device_unreachable}
use snmp_olt_zte.Http.Responses.{onus}
use snmp_olt_zte.Http.Handlers.{
  ok_response, handle_get_list, handle_get_detail, handle_get_empty_onu_id,
  handle_get_onu_id_and_serial_number, handle_update_empty_onu_id, handle_get_page,
  handle_get_uplink_topology,
}
use snmp_olt_zte.Http.Reachable.{
  IsUnavailable, IsInternal, IsMissing, unreachable-IsUnavailable, walk_error-IsInternal,
}
use snmp_olt_zte.Http.Served.{page-served}
use snmp_olt_zte.Tests.Stores.{
  map_redis, map_redis-IsRedis, codec_json, codec_json-IsJson, codec_id, codec_serial, codec_info,
}
use snmp_olt_zte.Tests.Port.{olt, port_config, dead, valid, store, kept, missed}
use snmp_olt_zte.Tests.Port

parse_name-interface_name_example :
    parse_name (interface_name (codes "xgei") 1 19 2 (codes "@")) ≡ (pos 1, pos 19, pos 2)
parse_name-interface_name_example =
    parse_name-interface_name (codes "xgei") 1 19 2 (codes "@") (omega arith) (omega arith)
      (omega arith) (omega arith) refl

-- Every walk finds one row.
abbrev switch : SnmpRepository
switch = record {
  bulk_walk = λ oid. ok (record { name = oid ++ codes ".30"; value = int (pos 3) } ∷ []);
  get = λ oids. ok [];
}

abbrev rows : Text → List SnmpPdu
rows oid = record { name = oid ++ codes ".30"; value = int (pos 3) } ∷ []

abbrev typed : Text → Bool
typed e = false

abbrev utc : Times
utc = record {
  Location = Text;
  load_location = λ zone. some zone;
  fixed_zone = λ name offset. name;
  parse_in_location = λ value location. none;
  parse = λ value. none;
}

timed_out : is_device_unreachable typed (some (codes "timeout")) ≡ true
unfolding is_device_unreachable snmp_olt_zte.Http.Errors.contains_any contains to_lower has_prefix
timed_out = refl

unreachable-IsUnavailable_example :
    IsUnavailable (
      handle_get_detail typed
        (codes "id")
        []
        map_redis
        olt
        dead
        (pos 3)
        (pos 1)
        utc
        (pos 0)
        (pos 5))
    × IsUnavailable
        (handle_update_empty_onu_id typed
          (codes "id")
          []
          map_redis
          olt
          dead
          (pos 3)
          (pos 1)
          (codec_json codec_id)
          []).0
    × IsUnavailable
        (handle_get_uplink_topology typed (codes "id") [] map_redis olt dead (pos 3) (pos 1))
unreachable-IsUnavailable_example =
    unreachable-IsUnavailable typed (codes "id") [] map_redis olt dead (pos 3) (pos 1) port_config
      valid (codes "timeout") utc (pos 0) (pos 5) (codec_json codec_id) [] timed_out refl refl
      (inl refl)

no_ids : hit (get_list map_redis (codec_json codec_id) (empty_key olt (pos 3) (pos 1)) []) ≡ none
unfolding get_list lookup
no_ids = refl

no_serials :
    hit (get_list map_redis (codec_json codec_serial) (serials_key olt (pos 3) (pos 1)) []) ≡ none
unfolding get_list lookup
no_serials = refl

abbrev second_page : Text → Text
second_page name = if text_eq name (codes "page") then codes "2" else codes "1"

walk_error-IsInternal_example :
    IsInternal
      (handle_get_list typed
        (codes "id")
        []
        map_redis
        olt
        dead
        (pos 3)
        (pos 1)
        (codec_json codec_info)
        []
        []).0
    × IsInternal
        (handle_get_empty_onu_id typed
          (codes "id")
          []
          map_redis
          olt
          dead
          (pos 3)
          (pos 1)
          (codec_json codec_id)
          []).0
    × IsInternal
        (handle_get_onu_id_and_serial_number typed
          (codes "id")
          []
          map_redis
          olt
          dead
          (pos 3)
          (pos 1)
          (codec_json codec_serial)
          []
          []).0
    × IsMissing
        (handle_get_page typed
          (codes "id")
          []
          map_redis
          olt
          dead
          (pos 3)
          (pos 1)
          (codec_json codec_info)
          second_page
          []).0
walk_error-IsInternal_example =
    walk_error-IsInternal typed (codes "id") [] map_redis olt dead (pos 3) (pos 1) port_config valid
      (codes "timeout") (codec_json codec_info) (codec_json codec_id) (codec_json codec_serial) []
      second_page [] refl missed no_ids no_serials

abbrev ann : SnmpPdu
ann = record { name = codes ".1.2.5"; value = str (codes "ann") }

in_store :
    hit (get_list map_redis (codec_json codec_info) (info_key olt (pos 3) (pos 1)) store)
    ≡ some Port.onus
in_store = ap hit (
    get_list-save_list map_redis map_redis-IsRedis (codec_json codec_info)
      (codec_json-IsJson codec_info) (info_key olt (pos 3) (pos 1)) (pos 600) (some Port.onus) []
      store kept)

page-served_example :
    (handle_get_page typed
      (codes "id")
      []
      map_redis
      olt
      dead
      (pos 3)
      (pos 1)
      (codec_json codec_info)
      second_page
      store).0
    ≡ ok (
        ok_response
          (onus (take 1 (drop (1 * 1) Port.onus)))
          (some (record { page = pos 2; limit = pos 1; page_count = pos 2; total_rows = pos 2 })))
unfolding text_eq itoa_ℕ
page-served_example =
    page-served typed (codes "id") [] map_redis olt dead (pos 3) (pos 1) (codec_json codec_info)
      second_page store Port.onus 1 1 refl refl (omega arith) (omega arith) (omega arith)
      (omega arith)
      (get-cached map_redis map_redis-IsRedis (codec_json codec_info) (codec_json-IsJson codec_info)
        olt (pos 3) (pos 1) port_config valid dead Port.onus store in_store).0
