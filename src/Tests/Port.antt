-- ===== src/Tests/Port.antt =====
-- Port 1 of board 3 of an OLT, what the OLT answers, and a store that holds its list.
use snmp_olt_zte.Common.{
  ◌≡◌, refl, none, some, List, [], ◌∷◌, Text, codes, text_eq, split, last_part, ℤ, pos, atoi, ok,
  err, Map, lookup, insert, text_key, int_key,
}
use snmp_olt_zte.Model.{OnuInfoPerBoard}
use snmp_olt_zte.Config.Oid.{oids_at}
use snmp_olt_zte.Config.Topology.{port}
use snmp_olt_zte.Utils.Extract.{str}
use snmp_olt_zte.Cache.{get_list, save_list, hit}
use snmp_olt_zte.Usecase.Device.{SnmpRepository, OnuUsecase, OltConfig, get_board_config, read_list}
use snmp_olt_zte.Usecase.Lists.{info_key}
use snmp_olt_zte.Tests.Stores.{map_redis, codec_json, codec_info}

abbrev pub olt : OnuUsecase
olt = record {
  olt_id = codes "c300";
  board_pon_map = (port (pos 3) (pos 1), oids_at (pos 3) (pos 1)) ∷ [];
  base_oid1 = codes ".1";
  base_oid2 = codes ".2";
  onu_info_ttl = pos 600;
  empty_onu_id_ttl = pos 300;
  timezone = [];
}

abbrev pub port_config : OltConfig
port_config = record { base_oid = codes ".1"; oids = oids_at (pos 3) (pos 1) }

-- An OLT with the ONUs 7 and 5.
abbrev pub device : SnmpRepository
device = record {
  bulk_walk = λ oid. ok (
      record { name = codes ".1.2.7"; value = str (codes "ann") }
      ∷ record { name = codes ".1.2.5"; value = str (codes "bob") }
      ∷ []);
  get = λ oids. ok (str (codes "1,ZTEG1") ∷ []);
}

-- An OLT that does not answer.
abbrev pub dead : SnmpRepository
dead = record { bulk_walk = λ oid. err (codes "timeout"); get = λ oids. err (codes "timeout") }

abbrev pub no_onu : SnmpRepository
no_onu = record { bulk_walk = λ oid. ok []; get = λ oids. err (codes "timeout") }

abbrev pub onu : ℤ → Text → OnuInfoPerBoard
onu id name = record {
  board = pos 3;
  pon = pos 1;
  id = id;
  name = name;
  onu_type = [];
  serial_number = [];
  rx_power = [];
  status = [];
}

pub valid : get_board_config olt (pos 3) (pos 1) ≡ ok port_config
unfolding snmp_olt_zte.Config.Topology.get_board_pon_config lookup
valid = unfold get_board_config in refl

pub listed :
    read_list olt device (pos 3) (pos 1) port_config
    ≡ ok (some (onu (pos 5) (codes "bob") ∷ onu (pos 7) (codes "ann") ∷ []))
unfolding read_list snmp_olt_zte.Common.sort_by insert text_eq
    snmp_olt_zte.Utils.Extract.extract_onu_id atoi last_part split
    snmp_olt_zte.Utils.Extract.extract_id_onu_id snmp_olt_zte.Utils.Extract.extract_name
listed = refl

abbrev pub onus : List OnuInfoPerBoard
onus = onu (pos 5) (codes "bob") ∷ onu (pos 7) (codes "ann") ∷ []

abbrev pub store : Map Text Text
store = insert (info_key olt (pos 3) (pos 1)) ((codec_json codec_info).marshal (some onus)) []

pub kept :
    save_list map_redis
      (codec_json codec_info)
      (info_key olt (pos 3) (pos 1))
      (pos 600)
      (some onus)
      []
    ≡ ok store
unfolding save_list
kept = refl

pub missed :
    hit (get_list map_redis (codec_json codec_info) (info_key olt (pos 3) (pos 1)) []) ≡ none
unfolding get_list lookup
missed = refl
