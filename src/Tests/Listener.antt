-- ===== src/Tests/Listener.antt =====
-- The theorems on received traps, at a trap of one ONU that goes offline.
use snmp_olt_zte.Common.{
  ◌≡◌, ◌≢◌, false, ◌||◌, eq_ℤ, ap, List, [], ◌∷◌, ◌++◌, arith, codes, has_prefix, pos,
}
use snmp_olt_zte.Config.Oid.{IsSlot, IsPort}
use snmp_olt_zte.Utils.Extract.{Value, SnmpPdu, str, bytes}
use snmp_olt_zte.Trap.Handler.{is_incomplete}
use snmp_olt_zte.Trap.Listener.{
  oid_snmp_trap_oid, oid_trap_onu_offline, oid_onu_serial, extract_string, kind_of, a_name,
  handle_trap,
}
use snmp_olt_zte.Trap.Listener.Ports.{handle_trap-IsPort}
use snmp_olt_zte.Trap.Listener.Named.{onu_of, name_variable, handle_trap-named}

abbrev before : List SnmpPdu
before = record { name = oid_snmp_trap_oid; value = str oid_trap_onu_offline } ∷ []

abbrev after : List SnmpPdu
after =
    record { name = oid_onu_serial ++ codes ".285278977.5"; value = bytes (codes "1,ZTEG1") } ∷ []

abbrev name_value : Value
name_value = bytes (codes "ann")

abbrev variables : List SnmpPdu
variables = before ++ name_variable 3 1 5 name_value ∷ after

after-other : kind_of (oid_onu_serial ++ codes ".285278977.5") ≢ a_name
unfolding kind_of has_prefix
after-other e = ground (arith, e)

handle_trap-named_example :
    onu_of
      (handle_trap (pos 0) (codes "10.0.0.1") (before ++ name_variable 3 1 5 name_value ∷ after))
    ≡ (pos 3, pos 1, pos 5, extract_string name_value)
handle_trap-named_example =
    handle_trap-named (pos 0) (codes "10.0.0.1") before after 3 1 5 name_value (omega arith)
      (omega arith) (omega arith) (omega arith) (omega arith) (after-other, tt)

complete : is_incomplete (handle_trap (pos 0) (codes "10.0.0.1") variables) ≡ false
unfolding is_incomplete
complete =
    ap (λ o. eq_ℤ o.0 (pos 0) || (eq_ℤ o.1 (pos 0) || eq_ℤ o.2 (pos 0)))
      (handle_trap-named (pos 0) (codes "10.0.0.1") before after 3 1 5 name_value (omega arith)
        (omega arith) (omega arith) (omega arith) (omega arith) (after-other, tt))

handle_trap-IsPort_example :
    IsSlot (handle_trap (pos 0) (codes "10.0.0.1") variables).board
    × IsPort (handle_trap (pos 0) (codes "10.0.0.1") variables).pon
handle_trap-IsPort_example = handle_trap-IsPort (pos 0) (codes "10.0.0.1") variables complete
