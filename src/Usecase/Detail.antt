-- ===== src/Usecase/Detail.antt =====
-- internal/usecase/onu.go: the detail of one ONU, GetByBoardIDPonIDAndOnuID with the reads of its
-- fields. It is read from the OLT every time. The parsing of times is that of package time.
use snmp_olt_zte.Common.{
  ◌||◌, Option, none, some, [], ◌∷◌, ◌++◌, if◌then◌else◌, Text, codes, text_eq, trim_space, ℤ, pos,
  ◌-ℤ◌, ltb_ℤ, Result, ok, err, ◌>>=◌, Map, text_key,
}
use snmp_olt_zte.Model.{OnuCustomerInfo}
use snmp_olt_zte.Utils.Extract.{
  Value, bytes, SnmpPdu, extract_id_onu_id, extract_name, extract_and_get_status,
  extract_last_offline_reason, extract_gpon_optical_distance,
}
use snmp_olt_zte.Utils.Power.{convert_and_multiply}
use snmp_olt_zte.Utils.Duration.{convert_duration_to_string}
use snmp_olt_zte.Utils.DateTime.{convert_byte_array_to_date_time}
use snmp_olt_zte.Usecase.Device.{
  SnmpRepository, OnuUsecase, OltConfig, UsecaseError, snmp_error, get_board_config, onu_oid_of,
  snmp_data_map, snmp_oid_suffix,
}
use snmp_olt_zte.Usecase.Serials.{get_from_snmp, get_serial_number}

-- Package time, with the layout DateTimeFormat: LoadLocation, FixedZone, ParseInLocation and Parse;
-- an instant is a number of nanoseconds, and `none` an error.
pub record Times : Type 1 where
  pub Location : Type 0
  pub load_location : Text → Option Location
  pub fixed_zone : Text → ℤ → Location
  pub parse_in_location : Text → Location → Option ℤ
  pub parse : Text → Option ℤ

-- What a read of a field gives if it succeeds, and else what is there.
abbrev pub kept : {E A : Type 0} → A → Result E A → A
kept old (ok new) = new
kept old (err e) = old

abbrev pub kept_some : {A : Type 0} → A → Option A → A
kept_some old (some new) = new
kept_some old none = old

-- The zero value of model.ONUCustomerInfo.
abbrev pub no_info : OnuCustomerInfo
no_info = record {
  board = pos 0;
  pon = pos 0;
  id = pos 0;
  name = [];
  description = [];
  onu_type = [];
  serial_number = [];
  rx_power = [];
  tx_power = [];
  status = [];
  ip_address = [];
  last_online = [];
  last_offline = [];
  uptime = [];
  last_down_time_duration = [];
  last_offline_reason = [];
  gpon_optical_distance = [];
}

module _ (times : Times) (u : OnuUsecase) where
  unfoldable pub olt_location : times.Location
  olt_location =
      let tz = if text_eq u.timezone [] then codes "Asia/Jakarta" else u.timezone in
      elim (times.load_location tz) [
        | some loc ↦ loc
        | none ↦ times.fixed_zone (codes "WIB") (pos 25200)
      ]

  -- A negative duration, by clock skew, counts as 0. `now` is the time of time.Since.
  unfoldable pub get_uptime_duration : ℤ → Text → Option Text
  unfolding olt_location
  get_uptime_duration now last_online = elim (times.parse_in_location last_online olt_location) [
    | none ↦ none
    | some t ↦
        let duration = now -ℤ t in
        some (convert_duration_to_string (if ltb_ℤ duration (pos 0) then pos 0 else duration))
  ]

  unfoldable pub get_last_down_duration : Text → Text → Option Text
  get_last_down_duration last_offline last_online =
      if text_eq (trim_space last_offline) [] || text_eq (trim_space last_online) []
      then some []
      else elim (times.parse last_offline) [
        | none ↦ none
        | some offline ↦ elim (times.parse last_online) [
          | none ↦ none
          | some online ↦ some (convert_duration_to_string (online -ℤ offline))
        ]
      ]

-- Errors of a getter are dropped by the only caller, so they are `none`.
abbrev pub read_value : {A : Type 0} → (Value → A) → Result UsecaseError Value → Option A
read_value f (ok v) = some (f v)
read_value f (err e) = none

-- `power, _ := ConvertAndMultiply(…)`: empty if the value is no int.
abbrev pub power_of : Value → Text
power_of v = kept_some [] (convert_and_multiply v)

abbrev pub date_time_of : Value → Option Text
date_time_of (bytes b) = elim (convert_byte_array_to_date_time b) [ ok t ↦ some t | err e ↦ none ]
date_time_of _ = none

abbrev pub flatten_option : {A : Type 0} → Option (Option A) → Option A
flatten_option none = none
flatten_option (some o) = o

module _ (u : OnuUsecase) (snmp : SnmpRepository) (oid : Text) (id : ℤ) where
  -- A Get of one variable of the ONU, under BaseOID1 or BaseOID2, with the suffix of a table or not.
  abbrev pub get_1 : Text → Result UsecaseError Value
  get_1 suffix = get_from_snmp snmp (onu_oid_of u.base_oid1 oid id ++ suffix)

  abbrev pub get_2 : Text → Result UsecaseError Value
  get_2 suffix = get_from_snmp snmp (onu_oid_of u.base_oid2 oid id ++ suffix)

  unfoldable pub get_onu_type : Option Text
  get_onu_type = read_value extract_name (get_2 [])

  unfoldable pub get_tx_power : Option Text
  get_tx_power = read_value power_of (get_2 snmp_oid_suffix)

  unfoldable pub get_rx_power : Option Text
  get_rx_power = read_value power_of (get_1 snmp_oid_suffix)

  unfoldable pub get_status : Option Text
  get_status = read_value extract_and_get_status (get_1 [])

  unfoldable pub get_ip_address : Option Text
  get_ip_address = read_value extract_name (get_2 snmp_oid_suffix)

  unfoldable pub get_description : Option Text
  get_description = read_value extract_name (get_1 [])

  unfoldable pub get_last_online : Option Text
  get_last_online = flatten_option (read_value date_time_of (get_1 []))

  unfoldable pub get_last_offline : Option Text
  get_last_offline = flatten_option (read_value date_time_of (get_1 []))

  unfoldable pub get_last_offline_reason : Option Text
  get_last_offline_reason = read_value extract_last_offline_reason (get_1 [])

  unfoldable pub get_onu_gpon_optical_distance : Option Text
  get_onu_gpon_optical_distance = read_value extract_gpon_optical_distance (get_1 [])

module _ (times : Times) (now : ℤ) (u : OnuUsecase) (snmp : SnmpRepository)
    (board_id pon_id : ℤ) where
  -- The body of the loop for one row. A field whose read fails stays empty.
  unfoldable pub onu_detail : OltConfig → SnmpPdu → OnuCustomerInfo
  unfolding get_onu_type get_tx_power get_rx_power get_status get_ip_address get_description
      get_last_online get_last_offline get_last_offline_reason get_onu_gpon_optical_distance
  onu_detail c pdu =
      let o = c.oids in
      let id = extract_id_onu_id pdu.name in
      let last_online = kept_some [] (get_last_online u snmp o.onu_last_online_oid id) in
      let last_offline = kept_some [] (get_last_offline u snmp o.onu_last_offline_oid id) in
      record {
        board = board_id;
        pon = pon_id;
        id = id;
        name = extract_name pdu.value;
        onu_type = kept_some [] (get_onu_type u snmp o.onu_type_oid id);
        serial_number = kept [] (get_serial_number u snmp o.onu_serial_number_oid id);
        rx_power = kept_some [] (get_rx_power u snmp o.onu_rx_power_oid id);
        tx_power = kept_some [] (get_tx_power u snmp o.onu_tx_power_oid id);
        status = kept_some [] (get_status u snmp o.onu_status_oid id);
        ip_address = kept_some [] (get_ip_address u snmp o.onu_ip_address_oid id);
        description = kept_some [] (get_description u snmp o.onu_description_oid id);
        last_online = last_online;
        last_offline = last_offline;
        uptime = kept_some [] (get_uptime_duration times u now last_online);
        last_down_time_duration =
            kept_some [] (get_last_down_duration times u last_offline last_online);
        last_offline_reason =
            kept_some [] (get_last_offline_reason u snmp o.onu_last_offline_reason_oid id);
        gpon_optical_distance =
            kept_some [] (get_onu_gpon_optical_distance u snmp o.onu_gpon_optical_distance_oid id);
      }

  -- The row that is visited last stays.
  unfoldable pub last_detail : OltConfig → Map Text SnmpPdu → OnuCustomerInfo → OnuCustomerInfo
  unfolding onu_detail
  last_detail c [] info = info
  last_detail c ((key, pdu) ∷ rows) info = last_detail c rows (onu_detail c pdu)

  unfoldable pub read_detail : OltConfig → ℤ → Result UsecaseError OnuCustomerInfo
  unfolding last_detail
  read_detail c onu_id =
      elim (snmp.bulk_walk (onu_oid_of c.base_oid c.oids.onu_id_name_oid onu_id)) [
        | err e ↦ err (snmp_error (codes "Walk") e)
        | ok pdus ↦ ok (last_detail c (snmp_data_map pdus []) no_info)
      ]

  unfoldable pub get_by_board_id_pon_id_and_onu_id : ℤ → Result UsecaseError OnuCustomerInfo
  unfolding read_detail
  get_by_board_id_pon_id_and_onu_id onu_id =
      get_board_config u board_id pon_id >>= λ c. read_detail c onu_id
