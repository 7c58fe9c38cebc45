-- ===== src/Http/Reachable.antt =====
-- What a client is told of an OLT that does not answer.
use snmp_olt_zte.Common.{
  ◌≡◌, refl, ◌⊎◌, inl, inr, List, ◌∷◌, Bool, true, Bool-cases, none, some, [], ◌++◌, Text, codes,
  text_eq, ℤ, Result, ok, err, text_key,
}
use snmp_olt_zte.Model.{OnuInfoPerBoard, OnuId, OnuSerialNumber}
use snmp_olt_zte.Cache.{RedisClient, Json, get_list, hit}
use snmp_olt_zte.Usecase.Device.{
  SnmpRepository, snmp_error, OnuUsecase, OltConfig, get_board_config, read_list, onu_oid_of,
}
use snmp_olt_zte.Usecase.Lists.{info_key, fetch_list, get_by_board_id_and_pon_id}
use snmp_olt_zte.Usecase.EmptyIds.{
  empty_key, fetch_empty_onu_id, get_empty_onu_id, update_empty_onu_id,
}
use snmp_olt_zte.Usecase.Serials.{
  serials_key, read_serials, cached_serials, fetch_serials, get_onu_id_and_serial_number,
}
use snmp_olt_zte.Usecase.Pages.{Panic, get_page}
use snmp_olt_zte.Usecase.Detail.{Times, read_detail, get_by_board_id_pon_id_and_onu_id}
use snmp_olt_zte.Utils.Extract.{SnmpPdu}
use snmp_olt_zte.Usecase.Uplink.{
  get_uplink_topology, oid_if_name, oid_if_admin_status, oid_if_oper_status, oid_if_high_speed,
  oid_ent_physical_class, oid_ent_physical_descr,
}
use snmp_olt_zte.Http.Errors.{
  is_device_unreachable, new_snmp_error, new_not_found_error, app, plain, error_code,
}
use snmp_olt_zte.Http.Responses.{
  Response, failure, success, handle_error, handle_app_error, write_error, write_error_with_code,
  build_error_response,
}
use snmp_olt_zte.Http.Handlers.{
  error_of, detail_response, list_response, is_invalid_query, handle_get_list, handle_get_detail,
  handle_get_empty_onu_id, handle_get_onu_id_and_serial_number, handle_update_empty_onu_id,
  handle_get_page, handle_get_uplink_topology,
}

-- The error code of a response.
abbrev pub code_of : Response → Text
code_of resp = elim resp.body [ failure e ↦ e.error_code | success w ↦ [] ]

-- 503 with the code SERVICE_UNAVAILABLE.
abbrev pub IsUnavailable : Response → Type 0
IsUnavailable resp = (resp.status_code ≡ 503) × (code_of resp ≡ codes "SERVICE_UNAVAILABLE")

-- 500 with the code INTERNAL_ERROR.
abbrev pub IsInternal : Response → Type 0
IsInternal resp = (resp.status_code ≡ 500) × (code_of resp ≡ codes "INTERNAL_ERROR")

-- No panic, and 404.
abbrev pub IsMissing : Result Panic Response → Type 0
IsMissing (ok resp) = resp.status_code ≡ 404
IsMissing (err p) = ⊥

module _ (typed : Text → Bool) (request_id : Text) where
  snmp-IsUnavailable :
      (operation e : Text)
      → is_device_unreachable typed (some e) ≡ true
      → IsUnavailable (handle_error typed request_id (app (new_snmp_error operation e)))
  unfolding handle_error handle_app_error write_error_with_code build_error_response new_snmp_error
      error_code text_eq
  snmp-IsUnavailable operation e h = rw h (refl, refl)

  plain-IsInternal : (e : Text) → IsInternal (handle_error typed request_id (plain e))
  unfolding handle_error write_error build_error_response error_code
  plain-IsInternal e = (refl, refl)

-- One of the walks fails with the error, after walks that succeed.
abbrev pub FirstError : SnmpRepository → List Text → Text → Type 0
FirstError snmp [] e = ⊥
FirstError snmp (oid ∷ oids) e =
    (snmp.bulk_walk oid ≡ err e)
    ⊎ ((pdus : List SnmpPdu) × (snmp.bulk_walk oid ≡ ok pdus) × FirstError snmp oids e)

-- The walks of the uplinks in their order.
abbrev pub uplink_oids : List Text
uplink_oids =
    oid_if_name ∷ oid_if_admin_status ∷ oid_if_oper_status ∷ oid_if_high_speed
    ∷ oid_ent_physical_class ∷ oid_ent_physical_descr ∷ []

get_uplink_topology-FirstError :
    (snmp : SnmpRepository) (e : Text)
    → FirstError snmp uplink_oids e
    → get_uplink_topology snmp ≡ err (snmp_error (codes "walk") e)
unfolding get_uplink_topology
get_uplink_topology-FirstError snmp e (inl f) = rw (get_uplink_topology, f) refl
get_uplink_topology-FirstError snmp e (inr (_, w1, inl f)) = rw (get_uplink_topology, w1, f) refl
get_uplink_topology-FirstError snmp e (inr (_, w1, inr (_, w2, inl f))) =
    rw (get_uplink_topology, w1, w2, f) refl
get_uplink_topology-FirstError snmp e (inr (_, w1, inr (_, w2, inr (_, w3, inl f)))) =
    rw (get_uplink_topology, w1, w2, w3, f) refl
get_uplink_topology-FirstError snmp e (inr (_, w1, inr (_, w2, inr (_, w3, inr (_, w4, inl f))))) =
    rw (get_uplink_topology, w1, w2, w3, w4, f) refl
get_uplink_topology-FirstError snmp e
      (inr (_, w1, inr (_, w2, inr (_, w3, inr (_, w4, inr (_, w5, inl f)))))) =
    rw (get_uplink_topology, w1, w2, w3, w4, w5, f) refl
get_uplink_topology-FirstError snmp e
      (inr (_, w1, inr (_, w2, inr (_, w3, inr (_, w4, inr (_, w5, inr (_, w6, never))))))) =
    absurd never

module _ (typed : Text → Bool) (request_id cause : Text) (r : RedisClient) (u : OnuUsecase)
    (snmp : SnmpRepository) (board_id pon_id : ℤ) (c : OltConfig)
    (valid : get_board_config u board_id pon_id ≡ ok c) (e : Text) where
  -- Where its walk fails because the OLT cannot be reached, the detail of an ONU and the update of the
  -- free ids of a configured port are answered with 503; and so are the uplinks, whichever of their six
  -- walks fails first.
  pub unreachable-IsUnavailable :
      (times : Times) (now onu_id : ℤ) (json : Json OnuId) (s : r.Store)
      → is_device_unreachable typed (some e) ≡ true
      → snmp.bulk_walk (onu_oid_of c.base_oid c.oids.onu_id_name_oid onu_id) ≡ err e
      → snmp.bulk_walk (c.base_oid ++ c.oids.onu_id_name_oid) ≡ err e
      → FirstError snmp uplink_oids e
      → IsUnavailable
          (handle_get_detail typed request_id cause r u snmp board_id pon_id times now onu_id)
        × IsUnavailable
            (handle_update_empty_onu_id typed request_id cause r u snmp board_id pon_id json s).0
        × IsUnavailable (handle_get_uplink_topology typed request_id cause r u snmp board_id pon_id)
  unfolding handle_get_detail detail_response error_of get_by_board_id_pon_id_and_onu_id read_detail
      handle_update_empty_onu_id update_empty_onu_id handle_get_uplink_topology get_uplink_topology
  unreachable-IsUnavailable times now onu_id json s h one all first = (
    rw (get_by_board_id_pon_id_and_onu_id, valid, read_detail, one)
        (snmp-IsUnavailable typed request_id (codes "Walk") e h),
    rw (handle_update_empty_onu_id, update_empty_onu_id, valid, all)
        (snmp-IsUnavailable typed request_id (codes "Walk") e h),
    rw (get_uplink_topology-FirstError snmp e first)
        (snmp-IsUnavailable typed request_id (codes "walk") e h),
  )

  -- A walk's error that is passed on as it is answers with 500, whatever it is, and a page with 404:
  -- so the list, the free ids and the serial numbers of a port that are not in the cache, of an
  -- OLT that cannot be reached too.
  pub walk_error-IsInternal :
      (json : Json OnuInfoPerBoard) (id_json : Json OnuId) (serial_json : Json OnuSerialNumber)
      (nocache : Text) (parameters : Text → Text) (s : r.Store)
      → snmp.bulk_walk (c.base_oid ++ c.oids.onu_id_name_oid) ≡ err e
      → hit (get_list r json (info_key u board_id pon_id) s) ≡ none
      → hit (get_list r id_json (empty_key u board_id pon_id) s) ≡ none
      → hit (get_list r serial_json (serials_key u board_id pon_id) s) ≡ none
      → IsInternal (handle_get_list typed request_id cause r u snmp board_id pon_id json [] s).0
        × IsInternal
            (handle_get_empty_onu_id typed request_id cause r u snmp board_id pon_id id_json s).0
        × IsInternal
            (handle_get_onu_id_and_serial_number typed request_id cause r u snmp board_id pon_id
              serial_json nocache s).0
        × IsMissing
            (handle_get_page typed request_id cause r u snmp board_id pon_id json parameters s).0
  unfolding handle_get_list list_response error_of handle_get_empty_onu_id
      handle_get_onu_id_and_serial_number handle_get_page get_by_board_id_and_pon_id fetch_list
      read_list get_empty_onu_id fetch_empty_onu_id get_onu_id_and_serial_number cached_serials
      fetch_serials read_serials get_page is_invalid_query handle_error handle_app_error write_error
      new_not_found_error
  walk_error-IsInternal json id_json serial_json nocache parameters s w m1 m2 m3 = (
    rw (get_by_board_id_and_pon_id, valid, m1, fetch_list, read_list, w)
        (plain-IsInternal typed request_id e),
    rw (handle_get_empty_onu_id, get_empty_onu_id, valid, m2, fetch_empty_onu_id, w)
        (plain-IsInternal typed request_id e),
    elim (Bool-cases (text_eq nocache (codes "true"))) [
      | inl fresh ↦
          rw
            (
              handle_get_onu_id_and_serial_number, get_onu_id_and_serial_number, valid,
              cached_serials, fresh, fetch_serials, read_serials, w,
            )
            (plain-IsInternal typed request_id e)
      | inr cached ↦
          rw
            (
              handle_get_onu_id_and_serial_number, get_onu_id_and_serial_number, valid,
              cached_serials, cached, m3, fetch_serials, read_serials, w,
            )
            (plain-IsInternal typed request_id e)
    ],
    rw (handle_get_page, get_by_board_id_and_pon_id, valid, m1, fetch_list, read_list, w) refl,
  )
