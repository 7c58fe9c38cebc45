-- ===== src/Trap/Listener.antt =====
-- handleTrap of internal/trap/listener.go: the event of a received trap, which goes to the handler.
-- gosnmp receives the packet; `source` is the address it came from.
pub mod Ports
pub mod Named
use snmp_olt_zte.Common.{
  Bool, ℕ, ◌&&◌, Option, none, some, List, [], ◌∷◌, ◌++◌, if◌then◌else◌, length, Text, codes,
  text_eq, has_prefix, cut, ℤ, pos, eq_ℤ, itoa_ℕ,
}
use snmp_olt_zte.Model.{TrapEvent}
use snmp_olt_zte.Utils.Extract.{Value, int, str, bytes, SnmpPdu}
use snmp_olt_zte.Trap.Index.{parse_onu_index}
use snmp_olt_zte.Trap.Event.{map_status, map_offline_reason}

abbrev pub oid_snmp_trap_oid : Text
oid_snmp_trap_oid = codes ".1.3.6.1.6.3.1.1.4.1.0"

abbrev pub oid_trap_onu_offline : Text
oid_trap_onu_offline = codes ".1.3.6.1.4.1.3902.1082.500.10.3.1.9"

abbrev pub oid_trap_onu_online : Text
oid_trap_onu_online = codes ".1.3.6.1.4.1.3902.1082.500.10.3.1.10"

abbrev pub oid_onu_name : Text
oid_onu_name = codes ".1.3.6.1.4.1.3902.1082.500.10.2.3.3.1.2"

abbrev pub oid_onu_type : Text
oid_onu_type = codes ".1.3.6.1.4.1.3902.1082.500.10.2.3.3.1.1"

abbrev pub oid_onu_description : Text
oid_onu_description = codes ".1.3.6.1.4.1.3902.1082.500.10.2.3.3.1.3"

abbrev pub oid_onu_serial : Text
oid_onu_serial = codes ".1.3.6.1.4.1.3902.1082.500.10.2.3.3.1.18"

abbrev pub oid_onu_status : Text
oid_onu_status = codes ".1.3.6.1.4.1.3902.1082.500.10.2.3.8.1.4"

abbrev pub oid_onu_off_reason : Text
oid_onu_off_reason = codes ".1.3.6.1.4.1.3902.1082.500.10.2.3.8.1.7"

unfoldable pub extract_string : Value → Text
extract_string (bytes v) = v
extract_string (str v) = v
extract_string _ = []

-- The event type and the status of a trap's OID.
unfoldable pub map_trap_oid : Text → Text × Text
map_trap_oid trap_oid =
    if text_eq trap_oid oid_trap_onu_offline
    then (codes "StatusChange", [])
    else if text_eq trap_oid oid_trap_onu_online
    then (codes "StatusChange", [])
    else ([], [])

abbrev pub hint_of : Value → Text × Text
hint_of (str trap_oid) = map_trap_oid trap_oid
hint_of _ = ([], [])

-- Pass 1: the first variable that is snmpTrapOID decides.
unfoldable pub trap_hint : List SnmpPdu → Text × Text
unfolding map_trap_oid
trap_hint [] = ([], [])
trap_hint (v ∷ vs) = if text_eq v.name oid_snmp_trap_oid then hint_of v.value else trap_hint vs

-- What follows the first comma, if there is one.
abbrev pub after_comma : Text → Text
after_comma serial = elim (cut b',' serial).1 [ none ↦ serial | some rest ↦ rest ]

-- strings.HasPrefix(oid, prefix+".")
abbrev pub is_under : Text → Text → Bool
is_under oid prefix = has_prefix oid (prefix ++ b'.' ∷ [])

unfoldable pub located : Text → Text → TrapEvent → TrapEvent
located oid prefix event =
    let (board, pon, onu_id) = parse_onu_index oid prefix in
    record event { board = board; pon = pon; onu_id = onu_id }

abbrev pub with_status : Value → TrapEvent → TrapEvent
with_status (int status) event =
    let (text, event_type) = map_status status in
    record event { status = text; event_type = event_type }
with_status _ event = event

abbrev pub with_reason : Value → TrapEvent → TrapEvent
with_reason (int reason) event = record event { event_type = map_offline_reason reason }
with_reason _ event = event

-- The cases of the switch of pass 2, which tries the prefixes in this order.
pub data Kind : Type 0 where
  a_serial a_description a_name a_type a_status a_reason unmatched : Kind

unfoldable pub kind_of : Text → Kind
kind_of oid =
    if is_under oid oid_onu_serial
    then a_serial
    else if is_under oid oid_onu_description
    then a_description
    else if is_under oid oid_onu_name
    then a_name
    else if is_under oid oid_onu_type
    then a_type
    else if is_under oid oid_onu_status
    then a_status
    else if is_under oid oid_onu_off_reason
    then a_reason
    else unmatched

unfoldable pub extract_variable : Kind → SnmpPdu → TrapEvent → TrapEvent
unfolding extract_string located
extract_variable a_serial v event = record event {
  serial_number = after_comma (extract_string v.value);
}
extract_variable a_description v event = record event { description = extract_string v.value }
extract_variable a_name v event = record (located v.name oid_onu_name event) {
  name = extract_string v.value;
}
extract_variable a_type v event = record event { onu_type = extract_string v.value }
extract_variable a_status v event =
    with_status v.value
      (if eq_ℤ event.board (pos 0) then located v.name oid_onu_status event else event)
extract_variable a_reason v event = with_reason v.value event
extract_variable unmatched v event = event

unfoldable pub extract_variables : List SnmpPdu → TrapEvent → TrapEvent
unfolding kind_of extract_variable
extract_variables [] event = event
extract_variables (v ∷ vs) event = extract_variables vs (extract_variable (kind_of v.name) v event)

-- A trap that names no ONU.
unfoldable pub unrecognized : Text → ℕ → TrapEvent → TrapEvent
unrecognized source count event =
    if eq_ℤ event.board (pos 0) && (eq_ℤ event.pon (pos 0) && eq_ℤ event.onu_id (pos 0))
    then record event {
      event_type = codes "unknown";
      description =
          if text_eq event.description []
          then codes "Unrecognized trap from "
            ++ (source ++ (codes " with " ++ (itoa_ℕ count ++ codes " variables")))
          else event.description;
    }
    else event

abbrev pub received : ℤ → Text → Text × Text → TrapEvent
received now source (event_type, status) = record {
  timestamp = now;
  source = source;
  board = pos 0;
  pon = pos 0;
  onu_id = pos 0;
  event_type = event_type;
  status = status;
  name = [];
  description = [];
  onu_type = [];
  serial_number = [];
  rx_power = [];
  last_offline = [];
  last_online = [];
}

unfoldable pub handle_trap : ℤ → Text → List SnmpPdu → TrapEvent
unfolding trap_hint extract_variables unrecognized
handle_trap now source variables =
    unrecognized source (length variables)
      (extract_variables variables (received now source (trap_hint variables)))
