-- ===== src/Config/Fetch.antt =====
-- config/registry.go: the OLTs and the webhook that the device registry serves over HTTP. net/http and
-- encoding/json are parameters: a reply is what they make of a request.
pub mod Retries
use snmp_olt_zte.Common.{
  ℕ, zero, suc, ◌+◌, ◌*◌, ◌==◌, ◌/◌, ltb, Bool, ℤ, Option, none, some, List, [], ◌∷◌, if◌then◌else◌,
  Text, codes, text_eq, Result, ok, err, ◌>>=◌, false, pos,
}
use snmp_olt_zte.Config.Olts.{OltRuntimeConfig, OltJson, OltsError, build_olt_registry}

-- The request could not be made or sent, with the error's text; the status code, and the `data` of the
-- body if it can be decoded.
pub data Reply (A : Type 0) : Type 0 where
  request_failed : Text → Reply A
  replied : ℕ → Option A → Reply A

pub data FetchError : Type 0 where
  request_error : Text → FetchError
  bad_status : ℕ → FetchError
  undecodable : FetchError
  unmarshalable : FetchError
  parse_error : OltsError → FetchError

unfoldable pub reply_data : {A : Type 0} → Reply A → Result FetchError A
reply_data (request_failed e) = err (request_error e)
reply_data (replied status_code none) =
    if status_code == 200 then err undecodable else err (bad_status status_code)
reply_data (replied status_code (some a)) =
    if status_code == 200 then ok a else err (bad_status status_code)

-- `marshal` is json.Marshal of the raw messages.
module _ {Raw : Type 0} (marshal : List Raw → Option Text) where
  abbrev pub olts_text : List Raw → Result FetchError Text
  olts_text [] = ok []
  olts_text (x ∷ xs) = elim (marshal (x ∷ xs)) [ none ↦ err unmarshalable | some b ↦ ok b ]

  unfoldable pub fetch_registry_olts : Reply (List Raw) → Result FetchError Text
  unfolding reply_data
  fetch_registry_olts reply = reply_data reply >>= λ xs. olts_text xs

-- The zero value of OLTRuntimeConfig.
abbrev pub no_olt_config : OltRuntimeConfig
no_olt_config = record {
  id = [];
  user_id = pos 0;
  host = [];
  port = 0;
  community = [];
  max_concurrent = pos 0;
  boards = [];
  board_pons = [];
  pons_per_board = pos 0;
  board_pon_map = [];
  use_walk = false;
}

abbrev pub configs_of :
    Result OltsError (List OltRuntimeConfig × Text)
    → Result FetchError (Option (List OltRuntimeConfig))
configs_of (ok (olts, default_olt)) = ok (some olts)
configs_of (err e) = err (parse_error e)

-- FetchRegistryOLTConfigs; `none` is the nil of an empty registry.
module _ {Raw : Type 0} (marshal : List Raw → Option Text)
    (unmarshal : Text → Option (List OltJson)) where
  unfoldable pub fetch_registry_olt_configs :
      Reply (List Raw) → Result FetchError (Option (List OltRuntimeConfig))
  unfolding fetch_registry_olts build_olt_registry
  fetch_registry_olt_configs reply = fetch_registry_olts marshal reply >>= λ js.
      if text_eq js []
      then ok none
      else configs_of (build_olt_registry unmarshal js [] no_olt_config)

pub record WebhookRemote : Type 0 where
  pub url : Text
  pub type : Text
  pub chat_id : Text
  pub enabled : Bool
  pub retries : ℤ
  pub timeout : ℤ

unfoldable pub fetch_webhook_config : Reply WebhookRemote → Result FetchError WebhookRemote
unfolding reply_data
fetch_webhook_config reply = reply_data reply

abbrev pub second : ℕ
second = 1_000_000_000

abbrev pub initial_backoff : ℕ
initial_backoff = second

abbrev pub max_backoff : ℕ
max_backoff = 8 * second

unfoldable pub next_backoff : ℕ → ℕ
next_backoff backoff =
    if ltb backoff max_backoff
    then (if ltb max_backoff (backoff * 2) then max_backoff else backoff * 2)
    else backoff

-- The result of FetchRegistryOLTS at each attempt, how long it takes, and how much longer than asked
-- a sleep lasts, in nanoseconds.
module _ (fetch : ℕ → Result FetchError Text) (duration oversleep : ℕ → ℕ) where
  -- The loop from an attempt that starts at `now`; `none` if the fuel is used up.
  unfoldable pub retry : ℕ → ℕ → ℕ → ℕ → ℕ → Option (Result FetchError Text)
  unfolding next_backoff
  retry zero deadline attempt now backoff = none
  retry (suc fuel) deadline attempt now backoff =
      let later = now + duration attempt + backoff in
      let rest =
        retry fuel deadline (suc attempt) (later + oversleep attempt) (next_backoff backoff) in
      elim (fetch attempt) [
        | ok olts ↦ some (ok olts)
        | err e ↦ if ltb later deadline then rest else some (err e)
      ]

  -- Every retry comes a second later at least, so the fuel is one for each second of the window.
  unfoldable pub fetch_registry_olts_with_retry : ℕ → Option (Result FetchError Text)
  unfolding retry
  fetch_registry_olts_with_retry startup_timeout =
      retry (suc (startup_timeout / second)) startup_timeout 0 0 initial_backoff
