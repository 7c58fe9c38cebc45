-- ===== src/Http/Handlers.antt =====
-- internal/handler/onu.go: the handlers over the use cases. The board, the PON and the ONU of the
-- request's context are those that the middlewares have checked. A handler returns the response and
-- the store after it.
use snmp_olt_zte.Common.{
  ℕ, Bool, true, false, ◌&&◌, Option, none, some, List, [], ◌∷◌, if◌then◌else◌, Text, codes,
  text_eq, ℤ, pos, eq_ℤ, Result, ok, err, Map, lookup, text_key,
}
use snmp_olt_zte.Model.{OnuInfoPerBoard, OnuCustomerInfo, OnuId, OnuSerialNumber}
use snmp_olt_zte.Cache.{RedisClient, unmarshal_error, Json}
use snmp_olt_zte.Cache
use snmp_olt_zte.Usecase.Device.{
  SnmpRepository, OnuUsecase, UsecaseError, config_error, walk_error, snmp_error, redis_error,
  validation_error,
}
use snmp_olt_zte.Usecase.Lists.{get_by_board_id_and_pon_id}
use snmp_olt_zte.Usecase.EmptyIds.{get_empty_onu_id, update_empty_onu_id}
use snmp_olt_zte.Usecase.Serials.{get_onu_id_and_serial_number}
use snmp_olt_zte.Usecase.Eviction.{delete_cache, invalidate_onu_cache}
use snmp_olt_zte.Usecase.Pages.{Panic, get_page}
use snmp_olt_zte.Usecase.Detail.{Times, get_by_board_id_pon_id_and_onu_id}
use snmp_olt_zte.Usecase.Uplink.{get_uplink_topology}
use snmp_olt_zte.Http.Errors.{
  number, numbers, query, GoError, app, plain, new_validation_error, new_not_found_error,
  new_snmp_error, new_redis_error, new_config_error, new_internal_error,
}
use snmp_olt_zte.Http.Responses.{
  Meta, Payload, onus, onu, free_ids, serial_numbers, words, cleared, uplinks, success, Response,
  handle_error,
}
use snmp_olt_zte.Http.Pagination.{Pages, new, get_pagination_parameters}

abbrev pub ok_response : Payload → Option Meta → Response
ok_response payload meta = record {
  status_code = 200;
  body = success (record { code = 200; status = codes "success"; content = payload; meta = meta });
}

-- The nil slice is empty.
abbrev pub or_empty : {A : Type 0} → Option (List A) → List A
or_empty none = []
or_empty (some xs) = xs

abbrev pub board_and_pon : ℤ → ℤ → Map Text ℤ
board_and_pon board_id pon_id = (codes "board_id", board_id) ∷ (codes "pon_id", pon_id) ∷ []

abbrev pub board_pon_and_onu : ℤ → ℤ → ℤ → Map Text ℤ
board_pon_and_onu board_id pon_id onu_id =
    (codes "board_id", board_id) ∷ (codes "pon_id", pon_id) ∷ (codes "onu_id", onu_id) ∷ []

-- len(query) > 0 && query["onu_id"] == nil
unfoldable pub is_invalid_query : Map Text (List Text) → Bool
is_invalid_query [] = false
is_invalid_query (q ∷ qs) = elim (lookup (codes "onu_id") (q ∷ qs)) [ none ↦ true | some _ ↦ false ]

-- The Go error of a use case's error. A walk's error is passed on as it is, so it is no AppError.
-- `cause` is the text of an error that only the log shows.
unfoldable pub error_of : ℤ → ℤ → Text → Text → UsecaseError → GoError
error_of board_id pon_id redis_operation cause (config_error e) =
    app (new_config_error (codes "invalid board/pon combination") cause)
error_of board_id pon_id redis_operation cause (walk_error text) = plain text
error_of board_id pon_id redis_operation cause (snmp_error operation text) =
    app (new_snmp_error operation text)
error_of board_id pon_id redis_operation cause (redis_error Cache.redis_error) =
    app (new_redis_error redis_operation cause)
error_of board_id pon_id redis_operation cause (redis_error unmarshal_error) =
    app (new_internal_error redis_operation cause)
error_of board_id pon_id redis_operation cause validation_error = app (
    new_validation_error (codes "invalid board/pon combination")
      ((codes "board_id", number board_id) ∷ (codes "pon_id", number pon_id) ∷ []))

-- onuInfoList.Board == 0 && onuInfoList.PON == 0 && onuInfoList.ID == 0
unfoldable pub is_zero_info : OnuCustomerInfo → Bool
is_zero_info info = eq_ℤ info.board (pos 0) && (eq_ℤ info.pon (pos 0) && eq_ℤ info.id (pos 0))

module _ (typed : Text → Bool) (request_id cause : Text) (r : RedisClient) (u : OnuUsecase)
    (snmp : SnmpRepository) (board_id pon_id : ℤ) where
  abbrev pub fail : Text → UsecaseError → Response
  fail redis_operation e =
      handle_error typed request_id (error_of board_id pon_id redis_operation cause e)

  abbrev pub not_found_response : Text → Map Text ℤ → Response
  not_found_response resource ids =
      handle_error typed request_id (app (new_not_found_error resource (numbers ids)))

  unfoldable pub list_response : Result UsecaseError (Option (List OnuInfoPerBoard)) → Response
  unfolding error_of
  list_response (err e) = fail (codes "Set") e
  list_response (ok none) = not_found_response (codes "ONU info") (board_and_pon board_id pon_id)
  list_response (ok (some [])) =
      not_found_response (codes "ONU info") (board_and_pon board_id pon_id)
  list_response (ok (some (x ∷ xs))) = ok_response (onus (x ∷ xs)) none

  unfoldable pub handle_get_list :
      Json OnuInfoPerBoard → Map Text (List Text) → r.Store → Response × r.Store
  unfolding is_invalid_query list_response
  handle_get_list json received s =
      let reply = get_by_board_id_and_pon_id r json u snmp board_id pon_id s in
      if is_invalid_query received
      then (
        handle_error typed request_id (
            app (
              new_validation_error (codes "invalid query parameter - only 'onu_id' is allowed")
                ((codes "received", query received) ∷ []))),
        s,
      )
      else (list_response reply.result, reply.store)

  unfoldable pub detail_response : ℤ → Result UsecaseError OnuCustomerInfo → Response
  unfolding error_of is_zero_info
  detail_response onu_id (err e) = fail (codes "Get") e
  detail_response onu_id (ok info) =
      if is_zero_info info
      then not_found_response (codes "ONU") (board_pon_and_onu board_id pon_id onu_id)
      else ok_response (onu info) none

  unfoldable pub handle_get_detail : Times → ℤ → ℤ → Response
  unfolding detail_response
  handle_get_detail times now onu_id =
      detail_response onu_id
        (get_by_board_id_pon_id_and_onu_id times now u snmp board_id pon_id onu_id)

  abbrev pub respond : {A : Type 0} → (A → Payload) → Text → Result UsecaseError A → Response
  respond payload redis_operation (ok a) = ok_response (payload a) none
  respond payload redis_operation (err e) = fail redis_operation e

  unfoldable pub handle_get_empty_onu_id : Json OnuId → r.Store → Response × r.Store
  unfolding error_of
  handle_get_empty_onu_id json s =
      let (result, s') = get_empty_onu_id r json u snmp board_id pon_id s in
      (respond free_ids (codes "Set") result, s')

  -- `nocache` is the query parameter; WithNoCache passes the cache over.
  unfoldable pub handle_get_onu_id_and_serial_number :
      Json OnuSerialNumber → Text → r.Store → Response × r.Store
  unfolding error_of
  handle_get_onu_id_and_serial_number json nocache s =
      let no_cache = text_eq nocache (codes "true") in
      let (result, s') = get_onu_id_and_serial_number r json u snmp no_cache board_id pon_id s in
      (respond serial_numbers (codes "Set") result, s')

  abbrev pub respond_to : Payload → Text → Option UsecaseError → Response
  respond_to payload redis_operation none = ok_response payload none
  respond_to payload redis_operation (some e) = fail redis_operation e

  unfoldable pub handle_update_empty_onu_id : Json OnuId → r.Store → Response × r.Store
  unfolding error_of
  handle_update_empty_onu_id json s =
      let (result, s') = update_empty_onu_id r json u snmp board_id pon_id s in
      (respond_to (words (codes "Success Update Empty ONU_ID")) (codes "Set") result, s')

  abbrev pub page_meta : Pages → Meta
  page_meta pages = record {
    page = pages.page;
    limit = pages.page_size;
    page_count = pages.page_count;
    total_rows = pages.total_rows;
  }

  abbrev pub page_response : ℤ → ℤ → List OnuInfoPerBoard × ℕ → Response
  page_response page_index page_size ([], count) =
      not_found_response (codes "ONU data")
        ((codes "board_id", board_id) ∷ (codes "pon_id", pon_id) ∷ (codes "page", page_index) ∷ [])
  page_response page_index page_size (x ∷ xs, count) =
      ok_response (onus (x ∷ xs)) (some (page_meta (new page_index page_size (pos count))))

  abbrev pub list_of :
      Result UsecaseError (Option (List OnuInfoPerBoard)) → Option (List OnuInfoPerBoard)
  list_of (ok xs) = some (or_empty xs)
  list_of (err e) = none

  abbrev pub paged : ℤ → ℤ → Result Panic (List OnuInfoPerBoard × ℕ) → Result Panic Response
  paged page_index page_size (ok page) = ok (page_response page_index page_size page)
  paged page_index page_size (err p) = err p

  unfoldable pub handle_get_page :
      Json OnuInfoPerBoard → (Text → Text) → r.Store → Result Panic Response × r.Store
  unfolding get_pagination_parameters new
  handle_get_page json parameters s =
      let (page_index, page_size) = get_pagination_parameters parameters in
      let reply = get_by_board_id_and_pon_id r json u snmp board_id pon_id s in
      (
        paged page_index page_size (get_page (list_of reply.result) page_index page_size),
        reply.store,
      )

  unfoldable pub handle_delete_cache : r.Store → Response × r.Store
  unfolding error_of
  handle_delete_cache s =
      let (result, s') = delete_cache r u board_id pon_id s in
      (
        respond_to (cleared (codes "Cache deleted successfully") (board_and_pon board_id pon_id))
            (codes "delete cache") result,
        s',
      )

  -- InvalidateONUCache drops every error and returns nil.
  unfoldable pub handle_invalidate_onu_cache : ℤ → r.Store → Response × r.Store
  handle_invalidate_onu_cache onu_id s = (
    ok_response (cleared (codes "ONU cache invalidated") (board_pon_and_onu board_id pon_id onu_id))
        none,
    invalidate_onu_cache r u board_id pon_id onu_id s,
  )

  unfoldable pub handle_get_uplink_topology : Response
  unfolding error_of
  handle_get_uplink_topology = respond uplinks (codes "Get") (get_uplink_topology snmp)
