-- ===== src/Tests/Traps.antt =====
-- The theorems on traps, at one ONU.
use snmp_olt_zte.Common.{
  ◌≡◌, refl, true, false, ◌&&◌, Option, none, some, [], insert, itoa, arith, if◌then◌else◌, Text,
  codes, text_eq, ℤ, pos, negsuc, ltb_ℤ, leb_ℤ, atoi, lookup, text_key, int_key,
}
use snmp_olt_zte.Model.{TrapEvent, OnuCustomerInfo}
use snmp_olt_zte.Trap.Event.{
  Severity, critical, event_severity, is_alert, resolve_event_type, verified_code,
  map_status-resolve_event_type,
}
use snmp_olt_zte.Trap.Batcher.{
  Batcher, same_severity, onu_key, queued, add, Floats, verify_event, WebhookClient, flush_severity,
}
use snmp_olt_zte.Trap.Batcher.Laws.{IsQueued, add-IsQueued}
use snmp_olt_zte.Trap.Batcher.Entries.{next_entry, flush_severity-next_entry}
use snmp_olt_zte.Trap.Batcher.Sent.{verify_event-Keeps, flush_severity-IsQueued}
use snmp_olt_zte.Trap.Handler.{Handler, is_incomplete, verified, verify, handle_event}
use snmp_olt_zte.Trap.Handler.Laws.{AllQueued, handle_event-IsQueued, handle_event-queued}
use snmp_olt_zte.Utils.Extract.{extract_and_get_status, int}

abbrev down : TrapEvent
down = record {
  timestamp = pos 0;
  source = codes "olt";
  board = pos 3;
  pon = pos 1;
  onu_id = pos 5;
  event_type = codes "LOS";
  status = codes "LOS";
  name = codes "ann";
  description = [];
  onu_type = [];
  serial_number = [];
  rx_power = [];
  last_offline = [];
  last_online = [];
}

abbrev detail : OnuCustomerInfo
detail = record {
  board = pos 3;
  pon = pos 1;
  id = pos 5;
  name = codes "ann";
  description = [];
  onu_type = codes "F660";
  serial_number = codes "ZTEG1";
  rx_power = codes "-22.1";
  tx_power = [];
  status = codes "LOS";
  ip_address = [];
  last_online = [];
  last_offline = [];
  uptime = [];
  last_down_time_duration = [];
  last_offline_reason = [];
  gpon_optical_distance = [];
}

abbrev pub no_events : Batcher
no_events = record { repeat_intervals = λ s. pos 300; groups = λ s. [] }

no_events-IsQueued : IsQueued no_events
unfolding lookup
no_events-IsQueued = record {
  keyed = λ s k {en} e. ground arith;
  once = λ s t k h h'. elim (h refl) [ ];
}

abbrev one_event : Batcher
one_event = add down no_events

one_event-IsQueued : IsQueued one_event
one_event-IsQueued = add-IsQueued down no_events no_events-IsQueued

-- Powers in whole dBm.
abbrev pub whole : Floats
whole = record { Float = ℤ; parse_float = atoi; lt = ltb_ℤ; le = leb_ℤ }

abbrev fetched : TrapEvent → Option TrapEvent
fetched e = verify_event whole (negsuc 7) (negsuc 26) critical e (some detail)

abbrev client : WebhookClient
client = record { format_batch = λ sev list. some (codes "batch") }

add-IsQueued_example : IsQueued (add down no_events)
add-IsQueued_example = add-IsQueued down no_events no_events-IsQueued

flush_severity-IsQueued_example :
    IsQueued (flush_severity critical fetched (λ k. pos 9) (pos 10) (some client) one_event).0
flush_severity-IsQueued_example =
    flush_severity-IsQueued critical fetched (λ k. pos 9) (pos 10) (some client) one_event
      (verify_event-Keeps whole (negsuc 7) (negsuc 26) critical (λ e. some detail))
      one_event-IsQueued

flush_severity-next_entry_example :
    lookup (onu_key down) (
      (flush_severity critical fetched (λ k. pos 9) (pos 10) (some client) one_event).0.groups
        critical)
    ≡ next_entry (pos 300) fetched (pos 9) (pos 10) (some (queued down none))
unfolding add same_severity lookup event_severity text_eq verify_event insert is_alert onu_key
    resolve_event_type itoa
flush_severity-next_entry_example =
    flush_severity-next_entry critical fetched (λ k. pos 9) (pos 10) (some client) one_event
      (verify_event-Keeps whole (negsuc 7) (negsuc 26) critical (λ e. some detail))
      one_event-IsQueued critical (onu_key down)

abbrev handler : Handler
handler = record {
  resolved = true;
  batcher = some no_events;
  onu_fetcher = some (record { fetch = λ b p o. some detail });
}

handle_event-IsQueued_example : AllQueued (handle_event handler down).batcher
handle_event-IsQueued_example = handle_event-IsQueued handler down no_events-IsQueued

abbrev deaf : Handler
deaf = record handler { onu_fetcher = some (record { fetch = λ b p o. none }) }

complete : is_incomplete down ≡ false
unfolding is_incomplete
complete = refl

answered : verify handler.onu_fetcher down ≡ some (verified detail down)
unfolding verify
answered = refl

handle_event-queued_example :
    (b' : Batcher) × ((handle_event handler down).batcher ≡ some b')
    × ((handle_event handler down).sent ≡ none)
    × ((s : Severity) (k : Text)
        → lookup k (b'.groups s) ≡ (
            if text_eq (onu_key down) k
            then (if is_alert (verified detail down).event_type
                  && same_severity s (event_severity (verified detail down).event_type)
                then some (queued (verified detail down) (lookup k (no_events.groups s)))
                else none)
            else lookup k (no_events.groups s)))
handle_event-queued_example =
    handle_event-queued handler down (verified detail down) no_events refl complete answered

map_status-resolve_event_type_example :
    resolve_event_type (extract_and_get_status (int (pos 7))) (codes "LOS")
    ≡ verified_code (pos 7) (codes "LOS")
map_status-resolve_event_type_example = map_status-resolve_event_type (pos 7) (codes "LOS")
