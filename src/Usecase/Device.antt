-- ===== src/Usecase/Device.antt =====
-- internal/usecase/onu.go: the configuration of a port and the reads of the OLT. `golang.org/x/sync/singleflight`
-- only joins calls that run at the same time, so a call through it is the call itself here.
use snmp_olt_zte.Common.{
  Option, none, some, List, [], ◌∷◌, ◌++◌, map, Text, codes, ℤ, itoa, Result, ok, err, Map, insert,
  text_key, int_key,
}
use snmp_olt_zte.Common.{sort_by}
use snmp_olt_zte.Model.{OnuInfoPerBoard}
use snmp_olt_zte.Config.Oid.{BoardPonConfig, ConfigError}
use snmp_olt_zte.Config.Topology.{BoardPonMap, get_board_pon_config}
use snmp_olt_zte.Utils.Extract.{
  Value, SnmpPdu, extract_onu_id, extract_id_onu_id, extract_name, extract_serial_number,
  extract_and_get_status,
}
use snmp_olt_zte.Utils.Power.{convert_and_multiply}
use snmp_olt_zte.Cache.{RedisError}

-- SnmpRepositoryInterface: what the OLT answers during an operation. The error is a text.
pub record SnmpRepository : Type 0 where
  pub bulk_walk : Text → Result Text (List SnmpPdu)
  pub get : List Text → Result Text (List Value)

pub data UsecaseError : Type 0 where
  config_error : ConfigError → UsecaseError
  -- A walk's error, passed on as it is.
  walk_error : Text → UsecaseError
  snmp_error : Text → Text → UsecaseError
  redis_error : RedisError → UsecaseError
  validation_error : UsecaseError

-- The fields of `onuUsecase` and of its `Config` that the use cases read.
pub record OnuUsecase : Type 0 where
  pub olt_id : Text
  pub board_pon_map : BoardPonMap
  pub base_oid1 : Text
  pub base_oid2 : Text
  pub onu_info_ttl : ℤ
  pub empty_onu_id_ttl : ℤ
  -- OltCfg.Timezone
  pub timezone : Text

-- model.OltConfig: the base OID and the OIDs of the port.
pub record OltConfig : Type 0 where
  pub base_oid : Text
  pub oids : BoardPonConfig

unfoldable pub get_board_config : OnuUsecase → ℤ → ℤ → Result UsecaseError OltConfig
get_board_config u board_id pon_id = elim (get_board_pon_config u.board_pon_map board_id pon_id) [
  | err e ↦ err (config_error e)
  | ok oids ↦ ok (record { base_oid = u.base_oid1; oids = oids })
]

abbrev pub snmp_oid_suffix : Text
snmp_oid_suffix = codes ".1"

-- baseOid + oid + "." + onuID
abbrev pub onu_oid_of : Text → Text → ℤ → Text
onu_oid_of base oid id = base ++ (oid ++ b'.' ∷ itoa id)

-- The fields that one batched Get brings; an error leaves them empty.
unfoldable pub with_batch : Result Text (List Value) → OnuInfoPerBoard → OnuInfoPerBoard
with_batch (ok (onu_type ∷ serial ∷ power ∷ status ∷ more)) info = record info {
  onu_type = extract_name onu_type;
  serial_number = extract_serial_number serial;
  rx_power = elim (convert_and_multiply power) [ none ↦ info.rx_power | some p ↦ p ];
  status = extract_and_get_status status;
}
with_batch _ info = info

-- A nil slice if the walk has no ONU.
abbrev pub non_nil : {A : Type 0} → List A → Option (List A)
non_nil [] = none
non_nil (x ∷ xs) = some (x ∷ xs)

-- The walk by ONU; of two rows with one id the later stays.
unfoldable pub snmp_data_map : List SnmpPdu → Map Text SnmpPdu → Map Text SnmpPdu
snmp_data_map [] m = m
snmp_data_map (pdu ∷ pdus) m = snmp_data_map pdus (insert (extract_onu_id pdu.name) pdu m)

module _ (u : OnuUsecase) (snmp : SnmpRepository) (board_id pon_id : ℤ) where
  abbrev pub batch_oids : OltConfig → ℤ → List Text
  batch_oids c id =
      onu_oid_of u.base_oid2 c.oids.onu_type_oid id
      ∷ onu_oid_of u.base_oid1 c.oids.onu_serial_number_oid id
      ∷ (onu_oid_of u.base_oid1 c.oids.onu_rx_power_oid id ++ snmp_oid_suffix)
      ∷ onu_oid_of u.base_oid1 c.oids.onu_status_oid id
      ∷ []

  unfoldable pub onu_info : OltConfig → SnmpPdu → OnuInfoPerBoard
  unfolding with_batch
  onu_info c pdu =
      let id = extract_id_onu_id pdu.name in
      with_batch (snmp.get (batch_oids c id)) (record {
        board = board_id;
        pon = pon_id;
        id = id;
        name = extract_name pdu.value;
        onu_type = [];
        serial_number = [];
        rx_power = [];
        status = [];
      })

  -- The list of a port, read from the OLT.
  unfoldable pub read_list : OltConfig → Result Text (Option (List OnuInfoPerBoard))
  unfolding onu_info snmp_data_map
  read_list c = elim (snmp.bulk_walk (c.base_oid ++ c.oids.onu_id_name_oid)) [
    | err e ↦ err e
    | ok pdus ↦
        ok (non_nil (sort_by (λ i. i.id) (map (λ kv. onu_info c kv.1) (snmp_data_map pdus []))))
  ]

-- The ids of the ONUs that a walk finds.
abbrev pub walked_ids : List SnmpPdu → List ℤ
walked_ids pdus = map (λ pdu. extract_id_onu_id pdu.name) pdus
