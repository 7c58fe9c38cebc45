-- ===== src/Http/Responses.antt =====
-- internal/utils/error.go and response.go: the response to an error. Logging is left out.
use snmp_olt_zte.Common.{
  ℕ, Bool, Option, List, [], ◌∷◌, if◌then◌else◌, Text, codes, text_eq, ℤ, Map,
}
use snmp_olt_zte.Model.{OnuInfoPerBoard, OnuCustomerInfo, OnuId, OnuSerialNumber, UplinkTopology}
use snmp_olt_zte.Http.Errors.{
  ErrorType, validation, not_found, unauthorized, snmp, redis, config, internal,
  service_unavailable, error_code, Detail, AppError, GoError, app, plain, is_device_unreachable,
}

-- `data` of an error: the message, or the message and the details.
pub data ErrorData : Type 0 where
  message : Text → ErrorData
  detailed : Text → Map Text Detail → ErrorData

pub record ErrorResponse : Type 0 where
  pub code : ℕ
  pub status : Text
  pub error_code : Text
  pub content : ErrorData
  pub request_id : Text

pub record Meta : Type 0 where
  pub page : ℤ
  pub limit : ℤ
  pub page_count : ℤ
  pub total_rows : ℤ

-- `data` of a success, by the handlers.
pub data Payload : Type 0 where
  onus : List OnuInfoPerBoard → Payload
  onu : OnuCustomerInfo → Payload
  free_ids : Option (List OnuId) → Payload
  serial_numbers : Option (List OnuSerialNumber) → Payload
  words : Text → Payload
  cleared : Text → Map Text ℤ → Payload
  uplinks : UplinkTopology → Payload

pub record WebResponse : Type 0 where
  pub code : ℕ
  pub status : Text
  pub content : Payload
  pub meta : Option Meta

pub data Body : Type 0 where
  failure : ErrorResponse → Body
  success : WebResponse → Body

-- What SendJSONResponse writes: the status line and the body.
pub record Response : Type 0 where
  pub status_code : ℕ
  pub body : Body

abbrev pub error_data : AppError → ErrorData
error_data e = elim e.details [ [] ↦ message e.message | d ∷ ds ↦ detailed e.message (d ∷ ds) ]

unfoldable pub build_error_response : ℕ → Text → Text → GoError → ErrorResponse
unfolding error_code
build_error_response code status request_id (app e) = record {
  code = code;
  status = status;
  error_code = error_code e.type;
  content = error_data e;
  request_id = request_id;
}
build_error_response code status request_id (plain text) = record {
  code = code;
  status = status;
  error_code = error_code internal;
  content = message text;
  request_id = request_id;
}

unfoldable pub write_error : ℕ → Text → Text → GoError → Response
unfolding build_error_response
write_error code status request_id e = record {
  status_code = code;
  body = failure (build_error_response code status request_id e);
}

unfoldable pub write_error_with_code : ℕ → Text → Text → Text → GoError → Response
unfolding build_error_response
write_error_with_code code status new_code request_id e =
    let resp = build_error_response code status request_id e in
    record {
      status_code = code;
      body = failure (if text_eq new_code [] then resp else record resp { error_code = new_code });
    }

abbrev pub internal_server_error : Text → GoError → Response
internal_server_error = write_error 500 (codes "Internal Server Error")

module _ (typed : Text → Bool) (request_id : Text) where
  -- The cases of the switch on the type.
  unfoldable pub handle_app_error : ErrorType → AppError → Response
  unfolding write_error write_error_with_code is_device_unreachable
  handle_app_error validation e = write_error 400 (codes "Bad Request") request_id (app e)
  handle_app_error not_found e = write_error 404 (codes "Not Found") request_id (app e)
  handle_app_error unauthorized e = write_error 401 (codes "Unauthorized") request_id (app e)
  handle_app_error snmp e =
      if is_device_unreachable typed e.err
      then write_error_with_code 503 (codes "Service Unavailable") (error_code service_unavailable)
          request_id (app e)
      else internal_server_error request_id (app e)
  handle_app_error service_unavailable e =
      write_error 503 (codes "Service Unavailable") request_id (app e)
  handle_app_error redis e = internal_server_error request_id (app e)
  handle_app_error internal e = internal_server_error request_id (app e)
  handle_app_error config e = internal_server_error request_id (app e)

  unfoldable pub handle_error : GoError → Response
  unfolding handle_app_error
  handle_error (app e) = handle_app_error e.type e
  handle_error (plain text) = internal_server_error request_id (plain text)
