-- ===== src/Http/Errors.antt =====
-- internal/errors/errors.go: the errors of the service. A Go error is an AppError or another one,
-- whose text is what Error() gives.
use snmp_olt_zte.Common.{
  Bool, false, ◌||◌, Option, none, some, List, [], ◌∷◌, ◌++◌, Text, codes, contains, to_lower, ℤ,
  Map,
}

pub data ErrorType : Type 0 where
  validation not_found unauthorized snmp redis config internal service_unavailable : ErrorType

-- The string of an ErrorType.
unfoldable pub error_code : ErrorType → Text
error_code validation = codes "VALIDATION_ERROR"
error_code not_found = codes "NOT_FOUND"
error_code unauthorized = codes "UNAUTHORIZED"
error_code snmp = codes "SNMP_ERROR"
error_code redis = codes "REDIS_ERROR"
error_code config = codes "CONFIG_ERROR"
error_code internal = codes "INTERNAL_ERROR"
error_code service_unavailable = codes "SERVICE_UNAVAILABLE"

-- The values of Details that the service makes.
pub data Detail : Type 0 where
  number : ℤ → Detail
  numbers : Map Text ℤ → Detail
  query : Map Text (List Text) → Detail

-- `err` is the text of the underlying error.
pub record AppError : Type 0 where
  pub type : ErrorType
  pub message : Text
  pub err : Option Text
  pub details : Map Text Detail

pub data GoError : Type 0 where
  app : AppError → GoError
  plain : Text → GoError

-- Error()
unfoldable pub error_text : GoError → Text
unfolding error_code
error_text (plain text) = text
error_text (app e) = elim e.err [
  | none ↦ error_code e.type ++ (codes ": " ++ e.message)
  | some cause ↦
      error_code e.type
      ++ (codes ": " ++ (e.message ++ (codes " (caused by: " ++ (cause ++ codes ")"))))
]

unfoldable pub new_validation_error : Text → Map Text Detail → AppError
new_validation_error message details = record {
  type = validation;
  message = message;
  err = none;
  details = details;
}

unfoldable pub new_not_found_error : Text → Detail → AppError
new_not_found_error resource identifier = record {
  type = not_found;
  message = resource ++ codes " not found";
  err = none;
  details = (codes "identifier", identifier) ∷ [];
}

unfoldable pub new_unauthorized_error : Text → AppError
new_unauthorized_error message = record {
  type = unauthorized;
  message = message;
  err = none;
  details = [];
}

unfoldable pub new_snmp_error : Text → Text → AppError
new_snmp_error operation cause = record {
  type = snmp;
  message = codes "SNMP " ++ (operation ++ codes " failed");
  err = some cause;
  details = [];
}

unfoldable pub new_redis_error : Text → Text → AppError
new_redis_error operation cause = record {
  type = redis;
  message = codes "Redis " ++ (operation ++ codes " failed");
  err = some cause;
  details = [];
}

unfoldable pub new_config_error : Text → Text → AppError
new_config_error message cause = record {
  type = config;
  message = message;
  err = some cause;
  details = [];
}

unfoldable pub new_internal_error : Text → Text → AppError
new_internal_error message cause = record {
  type = internal;
  message = message;
  err = some cause;
  details = [];
}

abbrev pub device_unreachable_substrings : List Text
device_unreachable_substrings =
    codes "connection refused"
    ∷ codes "connection reset"
    ∷ codes "connection timed out"
    ∷ codes "i/o timeout"
    ∷ codes "request timeout"
    ∷ codes "timeout"
    ∷ codes "no response"
    ∷ codes "read udp"
    ∷ codes "write udp"
    ∷ codes "recvfrom"
    ∷ codes "sendto"
    ∷ codes "reading from socket"
    ∷ codes "writing to socket"
    ∷ codes "network is unreachable"
    ∷ codes "host is unreachable"
    ∷ codes "no route to host"
    ∷ codes "broken pipe"
    ∷ []

unfoldable pub contains_any : Text → List Text → Bool
contains_any msg [] = false
contains_any msg (s ∷ ss) = contains msg s || contains_any msg ss

-- `typed` is what errors.As and errors.Is find in the error's chain: a timeout of package net, an
-- exceeded deadline, or one of the six error numbers.
module _ (typed : Text → Bool) where
  unfoldable pub is_device_unreachable : Option Text → Bool
  unfolding contains_any
  is_device_unreachable none = false
  is_device_unreachable (some cause) =
      typed cause || contains_any (to_lower cause) device_unreachable_substrings
