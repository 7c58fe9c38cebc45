-- ===== src/Tests/Devices.antt =====
-- The theorems on the configuration and on what the OLT's values are read as, at one port.
use snmp_olt_zte.Common.{
  ◌≡◌, refl, codes, split, trim_space, cut, ℤ, pos, atoi, ok, Map, lookup, insert, text_key,
  int_key,
}
use snmp_olt_zte.Config.Oid.{oids_at}
use snmp_olt_zte.Config.Topology.{BoardPonMap, parse_board_specs, get_board_pon_config}
use snmp_olt_zte.Config.Topology.Parse.{
  IsServed, parse_board_specs-IsServed, parse_board_specs-IsTopology,
}
use snmp_olt_zte.Access.{validate_board_pon_params}
use snmp_olt_zte.Access.Valid.{validate-served}

parse_board_specs-IsServed_example :
    (m : BoardPonMap) × IsServed (parse_board_specs (codes "3:16,5:8") (pos 16)).1 m
parse_board_specs-IsServed_example = parse_board_specs-IsServed (codes "3:16,5:8") (pos 16)

abbrev card : Map ℤ ℤ
card = (parse_board_specs (codes "3:16") (pos 16)).1

card_map : (m : BoardPonMap) × IsServed card m
card_map = parse_board_specs-IsServed (codes "3:16") (pos 16)

passes_card : validate_board_pon_params card (codes "3") (codes "1") ≡ ok (pos 3, pos 1)
unfolding validate_board_pon_params atoi lookup parse_board_specs split trim_space
    snmp_olt_zte.Config.Topology.add_spec cut insert
passes_card = refl

validate-served_example :
    get_board_pon_config card_map.0 (pos 3) (pos 1) ≡ ok (oids_at (pos 3) (pos 1))
validate-served_example =
    validate-served card card_map.0 (codes "3") (codes "1") (pos 3) (pos 1)
      ((parse_board_specs-IsTopology (codes "3:16") (pos 16)).0)
      ((parse_board_specs-IsTopology (codes "3:16") (pos 16)).1) card_map.1 passes_card
