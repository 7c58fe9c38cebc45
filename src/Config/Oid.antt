-- ===== src/Config/Oid.antt =====
-- config/oid_generator.go: the OID suffixes of a GPON slot and PON port. The bytes of an OID are
-- built as the source prints them. A Go int is a ℤ; the sums below stay far from 64 bits, since the
-- slot and the port are checked first.
use snmp_olt_zte.Common.{
  ℕ, ◌+◌, ◌*◌, ◌≡◌, ◌↔◌, ◌||◌, ◌∷◌, ◌++◌, arith, if◌then◌else◌, Text, codes, ℤ, pos, ◌+ℤ◌, ◌*ℤ◌,
  ◌≤ℤ◌, ltb_ℤ, itoa, Result, ok, err, text_key, int_key,
}

abbrev pub base_oid1 : Text
base_oid1 = codes ".1.3.6.1.4.1.3902.1082"

abbrev pub base_oid2 : Text
base_oid2 = codes ".1.3.6.1.4.1.3902.1012"

abbrev pub onu_id_name_prefix : Text
onu_id_name_prefix = codes ".500.10.2.3.3.1.2"

abbrev pub onu_type_prefix : Text
onu_type_prefix = codes ".3.50.11.2.1.17"

abbrev pub onu_serial_number_prefix : Text
onu_serial_number_prefix = codes ".500.10.2.3.3.1.18"

abbrev pub onu_rx_power_prefix : Text
onu_rx_power_prefix = codes ".500.20.2.2.2.1.10"

abbrev pub onu_tx_power_prefix : Text
onu_tx_power_prefix = codes ".3.50.12.1.1.14"

abbrev pub onu_status_id_prefix : Text
onu_status_id_prefix = codes ".500.10.2.3.8.1.4"

abbrev pub onu_ip_address_prefix : Text
onu_ip_address_prefix = codes ".3.50.16.1.1.10"

abbrev pub onu_description_prefix : Text
onu_description_prefix = codes ".500.10.2.3.3.1.3"

abbrev pub onu_last_online_time_prefix : Text
onu_last_online_time_prefix = codes ".500.10.2.3.8.1.5"

abbrev pub onu_last_offline_time_prefix : Text
onu_last_offline_time_prefix = codes ".500.10.2.3.8.1.6"

abbrev pub onu_last_offline_reason_prefix : Text
onu_last_offline_reason_prefix = codes ".500.10.2.3.8.1.7"

abbrev pub onu_gpon_optical_distance_prefix : Text
onu_gpon_optical_distance_prefix = codes ".500.10.2.3.10.1.2"

abbrev pub onu_id_if_index_base : ℕ
onu_id_if_index_base = 285278208

abbrev pub onu_id_slot_stride : ℕ
onu_id_slot_stride = 256

abbrev pub onu_type_if_index_base : ℕ
onu_type_if_index_base = 268435456

abbrev pub onu_type_slot_stride : ℕ
onu_type_slot_stride = 65536

abbrev pub onu_id_increment : ℕ
onu_id_increment = 1

abbrev pub onu_type_increment : ℕ
onu_type_increment = 256

abbrev pub max_board_id : ℕ
max_board_id = 30

abbrev pub max_pon_id : ℕ
max_pon_id = 16

pub record BoardPonConfig : Type 0 where
  pub onu_id_name_oid : Text
  pub onu_type_oid : Text
  pub onu_serial_number_oid : Text
  pub onu_rx_power_oid : Text
  pub onu_tx_power_oid : Text
  pub onu_status_oid : Text
  pub onu_ip_address_oid : Text
  pub onu_description_oid : Text
  pub onu_last_online_oid : Text
  pub onu_last_offline_oid : Text
  pub onu_last_offline_reason_oid : Text
  pub onu_gpon_optical_distance_oid : Text

-- The errors of the package, one constructor for each `fmt.Errorf`.
pub data ConfigError : Type 0 where
  invalid_board_id : ℤ → ConfigError
  invalid_pon_id : ℤ → ConfigError
  board_pon : ℤ → ℤ → ConfigError → ConfigError
  config_not_found : ℤ → ℤ → ConfigError
  missing_configuration : ℤ → ℤ → ConfigError

-- `fmt.Sprintf("%s.%d", prefix, suffix)`
unfoldable pub dotted : Text → ℤ → Text
dotted prefix suffix = prefix ++ b'.' ∷ itoa suffix

abbrev pub onu_id_suffix : ℤ → ℤ → ℤ
onu_id_suffix board_id pon_id =
    pos onu_id_if_index_base +ℤ board_id *ℤ pos onu_id_slot_stride +ℤ pon_id *ℤ pos onu_id_increment

abbrev pub onu_type_suffix : ℤ → ℤ → ℤ
onu_type_suffix board_id pon_id =
    pos onu_type_if_index_base
    +ℤ board_id *ℤ pos onu_type_slot_stride
    +ℤ pon_id *ℤ pos onu_type_increment

-- The struct that `GenerateBoardPonOID` returns, from the two suffixes.
unfoldable pub oids_of : ℤ → ℤ → BoardPonConfig
oids_of id_suffix type_suffix = record {
  onu_id_name_oid = dotted onu_id_name_prefix id_suffix;
  onu_type_oid = dotted onu_type_prefix type_suffix;
  onu_serial_number_oid = dotted onu_serial_number_prefix id_suffix;
  onu_rx_power_oid = dotted onu_rx_power_prefix id_suffix;
  onu_tx_power_oid = dotted onu_tx_power_prefix type_suffix;
  onu_status_oid = dotted onu_status_id_prefix id_suffix;
  onu_ip_address_oid = dotted onu_ip_address_prefix type_suffix;
  onu_description_oid = dotted onu_description_prefix id_suffix;
  onu_last_online_oid = dotted onu_last_online_time_prefix id_suffix;
  onu_last_offline_oid = dotted onu_last_offline_time_prefix id_suffix;
  onu_last_offline_reason_oid = dotted onu_last_offline_reason_prefix id_suffix;
  onu_gpon_optical_distance_oid = dotted onu_gpon_optical_distance_prefix id_suffix;
}

unfoldable pub oids_at : ℤ → ℤ → BoardPonConfig
oids_at board_id pon_id = oids_of (onu_id_suffix board_id pon_id) (onu_type_suffix board_id pon_id)

unfoldable pub generate_board_pon_oid : ℤ → ℤ → Result ConfigError BoardPonConfig
generate_board_pon_oid board_id pon_id =
    if ltb_ℤ board_id (pos 1) || ltb_ℤ (pos max_board_id) board_id
    then err (invalid_board_id board_id)
    else if ltb_ℤ pon_id (pos 1) || ltb_ℤ (pos max_pon_id) pon_id
    then err (invalid_pon_id pon_id)
    else ok (oids_at board_id pon_id)

-- A physical slot and a PON port that the hardware can have.
abbrev pub IsSlot : ℤ → Type 0
IsSlot b = (pos 1 ≤ℤ b) × (b ≤ℤ pos max_board_id)

abbrev pub IsPort : ℤ → Type 0
IsPort p = (pos 1 ≤ℤ p) × (p ≤ℤ pos max_pon_id)

pub generate_of_valid :
    (b p : ℤ) → IsSlot b → IsPort p → generate_board_pon_oid b p ≡ ok (oids_at b p)
unfolding generate_board_pon_oid
generate_of_valid b p hb hp = ground arith

-- Generation succeeds exactly for a slot in 1..30 and a port in 1..16.
pub generate-eq-ok_iff :
    (b p : ℤ) → ((c : BoardPonConfig) × (generate_board_pon_oid b p ≡ ok c)) ↔ (IsSlot b × IsPort p)
unfolding generate_board_pon_oid
generate-eq-ok_iff b p =
    (λ h. ground (arith, h.1), λ (v : IsSlot b × IsPort p). (_, generate_of_valid b p v.0 v.1))

-- On slots and ports of the hardware the suffix is the number that the package's comment gives.
pub onu_id_suffix_lem : (b p : ℕ) → onu_id_suffix (pos b) (pos p) ≡ pos (285278208 + b * 256 + p)
unfolding ◌+ℤ◌ ◌*ℤ◌
onu_id_suffix_lem b p = ground arith

pub onu_type_suffix_lem :
    (b p : ℕ) → onu_type_suffix (pos b) (pos p) ≡ pos (268435456 + b * 65536 + p * 256)
unfolding ◌+ℤ◌ ◌*ℤ◌
onu_type_suffix_lem b p = ground arith
