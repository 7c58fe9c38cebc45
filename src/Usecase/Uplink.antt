-- ===== src/Usecase/Uplink.antt =====
-- internal/usecase/uplink.go: the cards and uplink ports of an OLT from six walks.
pub mod Names
pub mod Detected
use snmp_olt_zte.Common.{
  ◌-◌, ◌^◌, ◌==◌, Bool, true, false, ◌&&◌, not, Option, none, some, List, [], ◌∷◌, map,
  if◌then◌else◌, Text, codes, has_prefix, contains, to_lower, split, last_part, cut, ℤ, pos, negsuc,
  ◌-ℤ◌, ltb_ℤ, eq_ℤ, tdiv, wrap64, itoa, atoi, is_digit, Result, ok, err, ◌>>=◌, Map, lookup,
  insert, int_key, filter_map, sort_less,
}
use snmp_olt_zte.Model.{UplinkPort, UplinkCard, UplinkTopology}
use snmp_olt_zte.Utils.Extract.{Value, int, integer, str, bytes, SnmpPdu}
use snmp_olt_zte.Usecase.Device.{SnmpRepository, UsecaseError, snmp_error}

unfoldable pub to_int : Value → ℤ
to_int (int n) = n
to_int (integer n) = wrap64 n
to_int _ = pos 0

unfoldable pub pdu_string : Value → Text
pdu_string (bytes b) = b
pdu_string (str s) = s
pdu_string _ = []

-- strings.TrimSuffix(oid, ".")
unfoldable pub trim_dot : Text → Text
trim_dot [] = []
trim_dot (c ∷ []) = if c == b'.' then [] else c ∷ []
trim_dot (c ∷ d ∷ s) = c ∷ trim_dot (d ∷ s)

unfoldable pub trailing_index : Text → ℤ
unfolding trim_dot
trailing_index oid = elim (atoi (last_part (split b'.' (trim_dot oid)))) [
  | none ↦ negsuc 0
  | some n ↦ n
]

unfoldable pub status_string : ℤ → Text
status_string v =
    if eq_ℤ v (pos 1) then codes "up" else if eq_ℤ v (pos 2) then codes "down" else itoa v

unfoldable pub card_role : Text → Text
card_role descr =
    let d = to_lower descr in
    if contains d (codes "gpon")
    then codes "gpon"
    else if contains d (codes "control")
    then codes "control"
    else if contains d (codes "ethernet interface")
    then codes "uplink"
    else if contains d (codes "power")
    then codes "power"
    else codes "other"

abbrev pub ent_physical_class_module : ℤ
ent_physical_class_module = pos 3

-- The digits in front, and what follows them: (\d+) takes as many as there are.
unfoldable pub span_digits : Text → Text × Text
span_digits [] = ([], [])
span_digits (c ∷ s) =
    let (ds, rest) = span_digits s in if is_digit c then (c ∷ ds, rest) else ([], c ∷ s)

-- (\d+), and a slash behind it.
abbrev pub slash_after : Text × Text → Option (Text × Text)
slash_after ([], rest) = none
slash_after (d ∷ ds, []) = none
slash_after (d ∷ ds, c ∷ rest) = if c == b'/' then some (d ∷ ds, rest) else none

abbrev pub non_empty : Text × Text → Option Text
non_empty ([], rest) = none
non_empty (d ∷ ds, rest) = some (d ∷ ds)

-- uplinkNameRegex.FindStringSubmatch, `^(\d+)/(\d+)/(\d+)`.
unfoldable pub find_submatch : Text → Option (Text × Text × Text)
unfolding span_digits
find_submatch s = elim (slash_after (span_digits s)) [
  | none ↦ none
  | some (shelf, s') ↦ elim (slash_after (span_digits s')) [
    | none ↦ none
    | some (slot, s'') ↦ elim (non_empty (span_digits s'')) [
      | none ↦ none
      | some port ↦ some (shelf, slot, port)
    ]
  ]
]

-- strconv.Atoi on digits with its error ignored: a number out of range is the largest int.
abbrev pub or_largest : Option ℤ → ℤ
or_largest none = pos (2 ^ 63 - 1)
or_largest (some n) = n

abbrev pub atoi_clamped : Text → ℤ
atoi_clamped s = or_largest (atoi s)

-- Shelf, slot and port of an interface's name, or zeroes.
unfoldable pub parse_name : Text → ℤ × ℤ × ℤ
unfolding find_submatch
parse_name name = elim (cut b'_' name).1 [
  | none ↦ (pos 0, pos 0, pos 0)
  | some rest ↦ elim (find_submatch rest) [
    | none ↦ (pos 0, pos 0, pos 0)
    | some (shelf, slot, port) ↦ (atoi_clamped shelf, atoi_clamped slot, atoi_clamped port)
  ]
]

pub record PortRow : Type 0 where
  pub name : Text
  pub kind : Text

-- The callbacks of the walks, over the rows in their order.
unfoldable pub row_of : Text → Option PortRow
row_of name =
    if has_prefix name (codes "xgei_")
    then some (record { name = name; kind = codes "10G" })
    else if has_prefix name (codes "gei_")
    then some (record { name = name; kind = codes "1G" })
    else none

abbrev pub put_row : ℤ → Option PortRow → Map ℤ PortRow → Map ℤ PortRow
put_row idx none ports = ports
put_row idx (some row) ports = insert idx row ports

unfoldable pub port_rows : List SnmpPdu → Map ℤ PortRow → Map ℤ PortRow
unfolding trailing_index pdu_string row_of
port_rows [] ports = ports
port_rows (pdu ∷ pdus) ports =
    let idx = trailing_index pdu.name in
    port_rows pdus
      (if ltb_ℤ idx (pos 0) then ports else put_row idx (row_of (pdu_string pdu.value)) ports)

-- Of the rows that `keep` admits, the values by index.
unfoldable pub value_rows :
    {A : Type 0} → (ℤ → Bool) → (Value → A) → List SnmpPdu → Map ℤ A → Map ℤ A
unfolding trailing_index
value_rows keep read [] m = m
value_rows keep read (pdu ∷ pdus) m =
    let idx = trailing_index pdu.name in
    value_rows keep read pdus
      (if not (ltb_ℤ idx (pos 0)) && keep idx then insert idx (read pdu.value) m else m)

abbrev pub is_port : Map ℤ PortRow → ℤ → Bool
is_port ports idx = elim (lookup idx ports) [ none ↦ false | some _ ↦ true ]

-- `m[idx]` with the zero value for a missing key.
abbrev pub get_default : {A : Type 0} → A → ℤ → Map ℤ A → A
get_default d idx m = elim (lookup idx m) [ none ↦ d | some v ↦ v ]

unfoldable pub port_of : Map ℤ ℤ → Map ℤ ℤ → Map ℤ ℤ → ℤ × PortRow → UplinkPort
unfolding parse_name status_string
port_of admin oper speed (idx, row) =
    let (shelf, slot, port) = parse_name row.name in
    record {
      name = row.name;
      shelf = shelf;
      slot = slot;
      port = port;
      kind = row.kind;
      admin_status = status_string (get_default (pos 0) idx admin);
      oper_status = status_string (get_default (pos 0) idx oper);
      speed_mbps = get_default (pos 0) idx speed;
    }

unfoldable pub card_of : Map ℤ Text → ℤ × ℤ → Option UplinkCard
unfolding card_role
card_of descr (idx, cls) =
    if eq_ℤ cls ent_physical_class_module
    then (let d = get_default [] idx descr in
        some
          (record { ent_index = idx; slot = tdiv idx 10 -ℤ pos 1; type = d; role = card_role d }))
    else none

unfoldable pub port_less : UplinkPort → UplinkPort → Bool
port_less a b = if not (eq_ℤ a.slot b.slot) then ltb_ℤ a.slot b.slot else ltb_ℤ a.port b.port

unfoldable pub card_less : UplinkCard → UplinkCard → Bool
card_less a b = ltb_ℤ a.slot b.slot

abbrev pub oid_if_name : Text
oid_if_name = codes "1.3.6.1.2.1.31.1.1.1.1"

abbrev pub oid_if_admin_status : Text
oid_if_admin_status = codes "1.3.6.1.2.1.2.2.1.7"

abbrev pub oid_if_oper_status : Text
oid_if_oper_status = codes "1.3.6.1.2.1.2.2.1.8"

abbrev pub oid_if_high_speed : Text
oid_if_high_speed = codes "1.3.6.1.2.1.31.1.1.1.15"

abbrev pub oid_ent_physical_class : Text
oid_ent_physical_class = codes "1.3.6.1.2.1.47.1.1.1.1.5"

abbrev pub oid_ent_physical_descr : Text
oid_ent_physical_descr = codes "1.3.6.1.2.1.47.1.1.1.1.2"

abbrev pub walked : Result Text (List SnmpPdu) → Result UsecaseError (List SnmpPdu)
walked (ok pdus) = ok pdus
walked (err e) = err (snmp_error (codes "walk") e)

unfoldable pub topology :
    List SnmpPdu
    → List SnmpPdu
    → List SnmpPdu
    → List SnmpPdu
    → List SnmpPdu
    → List SnmpPdu
    → UplinkTopology
unfolding port_rows value_rows port_of card_of port_less card_less to_int pdu_string
topology names admins opers speeds classes descrs =
    let ports = port_rows names [] in
    let admin = value_rows (is_port ports) to_int admins [] in
    let oper = value_rows (is_port ports) to_int opers [] in
    let speed = value_rows (is_port ports) to_int speeds [] in
    let class_by_idx = value_rows (λ _. true) to_int classes [] in
    let descr_by_idx = value_rows (λ _. true) pdu_string descrs [] in
    record {
      cards = sort_less card_less (filter_map (card_of descr_by_idx) class_by_idx);
      ports = sort_less port_less (map (port_of admin oper speed) ports);
    }

unfoldable pub get_uplink_topology : SnmpRepository → Result UsecaseError UplinkTopology
unfolding topology
get_uplink_topology snmp = walked (snmp.bulk_walk oid_if_name) >>= λ names.
    walked (snmp.bulk_walk oid_if_admin_status) >>= λ admins.
    walked (snmp.bulk_walk oid_if_oper_status) >>= λ opers.
    walked (snmp.bulk_walk oid_if_high_speed) >>= λ speeds.
    walked (snmp.bulk_walk oid_ent_physical_class) >>= λ classes.
    walked (snmp.bulk_walk oid_ent_physical_descr) >>= λ descrs.
    ok (topology names admins opers speeds classes descrs)
