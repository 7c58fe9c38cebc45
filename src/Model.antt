-- ===== src/Model.antt =====
-- The records of internal/model/.
use snmp_olt_zte.Common.{ℤ, Text, List}

-- model.ONUInfoPerBoard
pub record OnuInfoPerBoard : Type 0 where
  pub board : ℤ
  pub pon : ℤ
  pub id : ℤ
  pub name : Text
  pub onu_type : Text
  pub serial_number : Text
  pub rx_power : Text
  pub status : Text

-- model.ONUCustomerInfo
pub record OnuCustomerInfo : Type 0 where
  pub board : ℤ
  pub pon : ℤ
  pub id : ℤ
  pub name : Text
  pub description : Text
  pub onu_type : Text
  pub serial_number : Text
  pub rx_power : Text
  pub tx_power : Text
  pub status : Text
  pub ip_address : Text
  pub last_online : Text
  pub last_offline : Text
  pub uptime : Text
  pub last_down_time_duration : Text
  pub last_offline_reason : Text
  pub gpon_optical_distance : Text

-- model.OnuID
pub record OnuId : Type 0 where
  pub board : ℤ
  pub pon : ℤ
  pub id : ℤ

-- model.OnuSerialNumber
pub record OnuSerialNumber : Type 0 where
  pub board : ℤ
  pub pon : ℤ
  pub id : ℤ
  pub serial_number : Text

-- model.TrapEvent; a time is a number of nanoseconds.
pub record TrapEvent : Type 0 where
  pub timestamp : ℤ
  pub source : Text
  pub board : ℤ
  pub pon : ℤ
  pub onu_id : ℤ
  pub event_type : Text
  pub status : Text
  pub name : Text
  pub description : Text
  pub onu_type : Text
  pub serial_number : Text
  pub rx_power : Text
  pub last_offline : Text
  pub last_online : Text

-- model.UplinkPort
pub record UplinkPort : Type 0 where
  pub name : Text
  pub shelf : ℤ
  pub slot : ℤ
  pub port : ℤ
  pub kind : Text
  pub admin_status : Text
  pub oper_status : Text
  pub speed_mbps : ℤ

-- model.UplinkCard
pub record UplinkCard : Type 0 where
  pub ent_index : ℤ
  pub slot : ℤ
  pub type : Text
  pub role : Text

-- model.UplinkTopology
pub record UplinkTopology : Type 0 where
  pub cards : List UplinkCard
  pub ports : List UplinkPort
