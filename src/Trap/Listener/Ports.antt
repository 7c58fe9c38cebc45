-- ===== src/Trap/Listener/Ports.antt =====
-- The port and the ONU of a trap's event.
use snmp_olt_zte.Common.{
  ◌&&◌, ℕ, ◌≡◌, refl, ◌⊎◌, inl, inr, false, List, [], ◌∷◌, arith, Text, ℤ, pos, eq_ℤ, eq_ℤ_iff,
  text_key, int_key, Bool-cases, if-holds,
}
use snmp_olt_zte.Config.Oid.{IsSlot, IsPort}
use snmp_olt_zte.Model.{TrapEvent}
use snmp_olt_zte.Utils.Extract.{Value, SnmpPdu, int}
use snmp_olt_zte.Trap.Index.{parse_onu_index, parse_onu_index_sound}
use snmp_olt_zte.Trap.Handler.{is_incomplete}
use snmp_olt_zte.Trap.Listener.{
  Kind, a_serial, a_description, a_name, a_type, a_status, a_reason, unmatched, kind_of,
  oid_onu_name, oid_onu_status, located, with_status, with_reason, extract_variable,
  extract_variables, unrecognized, handle_trap,
}

-- The board and the PON are a port of the hardware, or no board is known.
record AtPort (event : TrapEvent) : Type 0 where
  here : (event.board ≡ pos 0) ⊎ (IsSlot event.board × IsPort event.pon)

located-AtPort : (oid prefix : Text) (event : TrapEvent) → AtPort (located oid prefix event)
unfolding located
located-AtPort oid prefix event = elim (Bool-cases (eq_ℤ (parse_onu_index oid prefix).0 (pos 0))) [
  | inl e ↦ record { here = inl ((eq_ℤ_iff _ (pos 0)).0 e) }
  | inr ne ↦
      let (slot, port, same) =
        parse_onu_index_sound oid prefix refl
          λ z. ground (arith, (eq_ℤ_iff (parse_onu_index oid prefix).0 (pos 0)).1 z) in
      record { here = inr (slot, port) }
]

with_status-AtPort :
    (value : Value) (event : TrapEvent) → AtPort event → AtPort (with_status value event)
with_status-AtPort (int n) event h = record { here = h.here }
with_status-AtPort _ event h = h

with_reason-AtPort :
    (value : Value) (event : TrapEvent) → AtPort event → AtPort (with_reason value event)
with_reason-AtPort (int n) event h = record { here = h.here }
with_reason-AtPort _ event h = h

extract_variable-AtPort :
    (k : Kind) (v : SnmpPdu) (event : TrapEvent)
    → AtPort event
    → AtPort (extract_variable k v event)
unfolding extract_variable
extract_variable-AtPort a_serial v event h = record { here = h.here }
extract_variable-AtPort a_description v event h = record { here = h.here }
extract_variable-AtPort a_name v event h = record {
  here = (located-AtPort v.name oid_onu_name event).here;
}
extract_variable-AtPort a_type v event h = record { here = h.here }
extract_variable-AtPort a_status v event h = with_status-AtPort v.value _ (
    if-holds AtPort (eq_ℤ event.board (pos 0)) (λ _. located-AtPort v.name oid_onu_status event)
      λ _. h)
extract_variable-AtPort a_reason v event h = with_reason-AtPort v.value event h
extract_variable-AtPort unmatched v event h = h

extract_variables-AtPort :
    (vs : List SnmpPdu) (event : TrapEvent) → AtPort event → AtPort (extract_variables vs event)
unfolding extract_variables
extract_variables-AtPort [] event h = h
extract_variables-AtPort (v ∷ vs) event h =
    extract_variables-AtPort vs (extract_variable (kind_of v.name) v event)
      (extract_variable-AtPort (kind_of v.name) v event h)

unrecognized-AtPort :
    (source : Text) (count : ℕ) (event : TrapEvent)
    → AtPort event
    → AtPort (unrecognized source count event)
unfolding unrecognized
unrecognized-AtPort source count event h =
    if-holds AtPort
      (eq_ℤ event.board (pos 0) && (eq_ℤ event.pon (pos 0) && eq_ℤ event.onu_id (pos 0)))
      (λ _. record { here = h.here }) λ _. h

AtPort-known :
    (event : TrapEvent)
    → AtPort event
    → is_incomplete event ≡ false
    → IsSlot event.board × IsPort event.pon
unfolding is_incomplete
AtPort-known event h complete = elim h.here [
  | inl e ↦ ground (arith, e, complete)
  | inr port ↦ port
]

-- Whatever a trap contains, an event that the handler looks at is of a board 1 to 30 and a PON 1 to 16.
pub handle_trap-IsPort :
    (now : ℤ) (source : Text) (variables : List SnmpPdu)
    → is_incomplete (handle_trap now source variables) ≡ false
    → IsSlot (handle_trap now source variables).board
      × IsPort (handle_trap now source variables).pon
unfolding handle_trap
handle_trap-IsPort now source variables complete =
    AtPort-known (handle_trap now source variables)
      (unrecognized-AtPort source _ _
        (extract_variables-AtPort variables _ (record { here = inl refl })))
      complete
