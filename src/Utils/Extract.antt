-- ===== src/Utils/Extract.antt =====
-- internal/utils/extractor.go: what the service reads out of an SNMP variable. `Value` is Go's `any`
-- as gosnmp fills it: an int, a value of another integer type, a string, a byte slice, nil, or a
-- value of another type.
use snmp_olt_zte.Common.{
  ℕ, ◌^◌, ◌<◌, ◌≡◌, refl, none, some, [], arith, if◌then◌else◌, drop, Text, codes, has_prefix,
  split, last_part, ℤ, pos, eq_ℤ, itoa, itoa_ℕ, atoi, atoi-itoa_ℕ, Lacks-itoa_ℕ, last_part-split,
  text_key, int_key,
}
use snmp_olt_zte.Config.Oid.{dotted}

pub data Value : Type 0 where
  nil : Value
  int : ℤ → Value
  integer : ℤ → Value
  str : Text → Value
  bytes : Text → Value
  other : Value

-- gosnmp.SnmpPDU
pub record SnmpPdu : Type 0 where
  pub name : Text
  pub value : Value

unfoldable pub extract_onu_id : Text → Text
extract_onu_id oid =
    let last_component = last_part (split b'.' oid) in
    elim (atoi last_component) [ none ↦ [] | some _ ↦ last_component ]

unfoldable pub extract_id_onu_id : Text → ℤ
extract_id_onu_id oid = elim (atoi (last_part (split b'.' oid))) [ none ↦ pos 0 | some id ↦ id ]

unfoldable pub extract_name : Value → Text
extract_name (str v) = v
extract_name (bytes v) = v
extract_name _ = codes "Unknown"

abbrev pub strip_serial : Text → Text
strip_serial v = if has_prefix v (codes "1,") then drop 2 v else v

unfoldable pub extract_serial_number : Value → Text
extract_serial_number (str v) = strip_serial v
extract_serial_number (bytes v) = strip_serial v
extract_serial_number _ = []

unfoldable pub extract_and_get_status : Value → Text
extract_and_get_status (int v) =
    if eq_ℤ v (pos 1)
    then codes "Logging"
    else if eq_ℤ v (pos 2)
    then codes "LOS"
    else if eq_ℤ v (pos 3)
    then codes "Synchronization"
    else if eq_ℤ v (pos 4)
    then codes "Online"
    else if eq_ℤ v (pos 5)
    then codes "Dying Gasp"
    else if eq_ℤ v (pos 6)
    then codes "Auth Failed"
    else if eq_ℤ v (pos 7)
    then codes "Offline"
    else codes "Unknown"
extract_and_get_status _ = codes "Unknown"

unfoldable pub extract_last_offline_reason : Value → Text
extract_last_offline_reason (int v) =
    if eq_ℤ v (pos 1)
    then codes "Unknown"
    else if eq_ℤ v (pos 2)
    then codes "LOS"
    else if eq_ℤ v (pos 3)
    then codes "LOSi"
    else if eq_ℤ v (pos 4)
    then codes "LOFi"
    else if eq_ℤ v (pos 5)
    then codes "sfi"
    else if eq_ℤ v (pos 6)
    then codes "loai"
    else if eq_ℤ v (pos 7)
    then codes "loami"
    else if eq_ℤ v (pos 8)
    then codes "AuthFail"
    else if eq_ℤ v (pos 9)
    then codes "PowerOff"
    else if eq_ℤ v (pos 10)
    then codes "deactiveSucc"
    else if eq_ℤ v (pos 11)
    then codes "deactiveFail"
    else if eq_ℤ v (pos 12)
    then codes "Reboot"
    else if eq_ℤ v (pos 13)
    then codes "Shutdown"
    else codes "Unknown"
extract_last_offline_reason _ = codes "Unknown"

unfoldable pub extract_gpon_optical_distance : Value → Text
extract_gpon_optical_distance (int v) = itoa v
extract_gpon_optical_distance _ = codes "Unknown"

-- The id of an ONU is read back from the OID that ends in it, whatever stands before.
pub extract_id_onu_id-dotted :
    (prefix : Text) (id : ℕ) → id < 2 ^ 63 → extract_id_onu_id (dotted prefix (pos id)) ≡ pos id
unfolding extract_id_onu_id dotted itoa
extract_id_onu_id-dotted prefix id h =
    ground
      (arith, last_part-split b'.' prefix (itoa_ℕ id) (Lacks-itoa_ℕ b'.' id refl), atoi-itoa_ℕ id h)

pub extract_onu_id-dotted :
    (prefix : Text) (id : ℕ) → id < 2 ^ 63 → extract_onu_id (dotted prefix (pos id)) ≡ itoa_ℕ id
unfolding extract_onu_id dotted itoa
extract_onu_id-dotted prefix id h =
    ground
      (arith, last_part-split b'.' prefix (itoa_ℕ id) (Lacks-itoa_ℕ b'.' id refl), atoi-itoa_ℕ id h)
