-- ===== src/Trap/Handler.antt =====
-- internal/trap/handler.go, HandleEvent: a trap is checked against the OLT and goes to the batcher,
-- or to the webhook if there is no batcher.
pub mod Laws
use snmp_olt_zte.Common.{
  Bool, ◌&&◌, ◌||◌, Option, none, some, [], if◌then◌else◌, text_eq, ℤ, pos, eq_ℤ, text_key, int_key,
}
use snmp_olt_zte.Model.{TrapEvent, OnuCustomerInfo}
use snmp_olt_zte.Trap.Event.{resolve_event_type, is_alert}
use snmp_olt_zte.Trap.Batcher.{Batcher, add, remove}

-- ONUDetailFetcher: `fetch` is GetByBoardIDPonIDAndOnuID, `none` an error.
pub record OnuDetailFetcher : Type 0 where
  pub fetch : ℤ → ℤ → ℤ → Option OnuCustomerInfo

-- `resolved` says that resolveWebhook gives a client.
pub record Handler : Type 0 where
  pub resolved : Bool
  pub batcher : Option Batcher
  pub onu_fetcher : Option OnuDetailFetcher

-- What a handled event does: the batcher after it, the ONU whose cache is invalidated, and the event
-- that is sent at once.
pub record Outcome : Type 0 where
  pub batcher : Option Batcher
  pub invalidated : Option (ℤ × ℤ × ℤ)
  pub sent : Option TrapEvent

unfoldable pub is_incomplete : TrapEvent → Bool
is_incomplete e = eq_ℤ e.board (pos 0) || (eq_ℤ e.pon (pos 0) || eq_ℤ e.onu_id (pos 0))

-- The event with the SNMP data in it, and its type by the status that SNMP reports.
unfoldable pub verified : OnuCustomerInfo → TrapEvent → TrapEvent
verified detail e = record e {
  name = if text_eq detail.name [] then e.name else detail.name;
  description = if text_eq detail.description [] then e.description else detail.description;
  onu_type = detail.onu_type;
  serial_number = detail.serial_number;
  rx_power = detail.rx_power;
  last_offline = detail.last_offline;
  last_online = detail.last_online;
  status = detail.status;
  event_type = resolve_event_type detail.status detail.last_offline_reason;
}

-- The event to go on with, unless it cannot be verified.
unfoldable pub verify : Option OnuDetailFetcher → TrapEvent → Option TrapEvent
unfolding verified
verify none e = some e
verify (some fetcher) e = elim (fetcher.fetch e.board e.pon e.onu_id) [
  | none ↦ none
  | some detail ↦ if eq_ℤ detail.id (pos 0) then none else some (verified detail e)
]

abbrev pub invalidates : Option OnuDetailFetcher → TrapEvent → Option (ℤ × ℤ × ℤ)
invalidates none e = none
invalidates (some fetcher) e = some (e.board, e.pon, e.onu_id)

-- What happens to the batcher, if there is one.
unfoldable pub dispatch : TrapEvent → Option Batcher → Option Batcher
dispatch e none = none
dispatch e (some b) = some (if is_alert e.event_type then add e b else remove e b)

-- The event that is sent at once: an alert, if there is a webhook and no batcher.
unfoldable pub send_now : Bool → Option Batcher → TrapEvent → Option TrapEvent
send_now resolved none e = if is_alert e.event_type && resolved then some e else none
send_now resolved (some b) e = none

-- The part after the verification.
abbrev pub finish : Handler → Option (ℤ × ℤ × ℤ) → Option TrapEvent → Outcome
finish h invalidated none = record { batcher = h.batcher; invalidated = invalidated; sent = none }
finish h invalidated (some e) = record {
  batcher = dispatch e h.batcher;
  invalidated = invalidated;
  sent = send_now h.resolved h.batcher e;
}

unfoldable pub handle_event : Handler → TrapEvent → Outcome
unfolding is_incomplete verify
handle_event h event =
    if is_incomplete event
    then record { batcher = h.batcher; invalidated = none; sent = none }
    else finish h (invalidates h.onu_fetcher event) (verify h.onu_fetcher event)
