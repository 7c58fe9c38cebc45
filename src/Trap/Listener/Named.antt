-- ===== src/Trap/Listener/Named.antt =====
-- The ONU of a trap that names it.
use snmp_olt_zte.Common.{
  ℕ, ◌^◌, ◌≤◌, ◌<◌, ◌≡◌, refl, ap, ◌∙◌, ◌≢◌, ◌&&◌, false, List, [], ◌∷◌, ◌++◌, arith, Text, ℤ, pos,
  eq_ℤ, has_prefix, text_key, int_key, All, if-holds,
}
use snmp_olt_zte.Model.{TrapEvent}
use snmp_olt_zte.Utils.Extract.{Value, SnmpPdu, int}
use snmp_olt_zte.Trap.Index.{onu_oid, onu_oid_lem, parse_onu_index-onu_oid}
use snmp_olt_zte.Trap.Listener.{
  oid_onu_name, located, with_status, with_reason, Kind, a_serial, a_description, a_name, a_type,
  a_status, a_reason, unmatched, kind_of, extract_string, extract_variable, extract_variables,
  unrecognized, received, trap_hint, handle_trap,
}

-- Board, PON, ONU and name of an event.
abbrev pub onu_of : TrapEvent → ℤ × ℤ × ℤ × Text
onu_of event = (event.board, event.pon, event.onu_id, event.name)

with_status-onu_of :
    (value : Value) (event : TrapEvent) → onu_of (with_status value event) ≡ onu_of event
with_status-onu_of (int n) event = refl
with_status-onu_of _ event = refl

with_reason-onu_of :
    (value : Value) (event : TrapEvent) → onu_of (with_reason value event) ≡ onu_of event
with_reason-onu_of (int n) event = refl
with_reason-onu_of _ event = refl

-- Only the variable of the name changes an event that has a board.
extract_variable-onu_of :
    (k : Kind) (v : SnmpPdu) (event : TrapEvent)
    → k ≢ a_name
    → eq_ℤ event.board (pos 0) ≡ false
    → onu_of (extract_variable k v event) ≡ onu_of event
unfolding extract_variable
extract_variable-onu_of a_serial v event ne h = refl
extract_variable-onu_of a_description v event ne h = refl
extract_variable-onu_of a_name v event ne h = absurd (ne refl)
extract_variable-onu_of a_type v event ne h = refl
extract_variable-onu_of a_status v event ne h = rw h (with_status-onu_of v.value event)
extract_variable-onu_of a_reason v event ne h = with_reason-onu_of v.value event
extract_variable-onu_of unmatched v event ne h = refl

extract_variables-onu_of :
    (vs : List SnmpPdu) (event : TrapEvent)
    → All (λ v. kind_of v.name ≢ a_name) vs
    → eq_ℤ event.board (pos 0) ≡ false
    → onu_of (extract_variables vs event) ≡ onu_of event
unfolding extract_variables
extract_variables-onu_of [] event ne h = refl
extract_variables-onu_of (v ∷ vs) event (n, ne) h =
    let same = extract_variable-onu_of (kind_of v.name) v event n h in
    extract_variables-onu_of vs (extract_variable (kind_of v.name) v event) ne
      (ap (λ o. eq_ℤ o.0 (pos 0)) same ∙ h)
    ∙ same

extract_variables-append :
    (vs ws : List SnmpPdu) (event : TrapEvent)
    → extract_variables (vs ++ ws) event ≡ extract_variables ws (extract_variables vs event)
unfolding extract_variables
extract_variables-append [] ws event = refl
extract_variables-append (v ∷ vs) ws event =
    extract_variables-append vs ws (extract_variable (kind_of v.name) v event)

kind_of-onu_oid : (b p id : ℕ) → kind_of (onu_oid oid_onu_name b p id) ≡ a_name
unfolding kind_of has_prefix
kind_of-onu_oid b p id = rw onu_oid_lem refl

unrecognized-onu_of :
    (source : Text) (count : ℕ) (event : TrapEvent)
    → onu_of (unrecognized source count event) ≡ onu_of event
unfolding unrecognized
unrecognized-onu_of source count event =
    if-holds (λ e. onu_of e ≡ onu_of event)
      (eq_ℤ event.board (pos 0) && (eq_ℤ event.pon (pos 0) && eq_ℤ event.onu_id (pos 0)))
      (λ _. refl) λ _. refl

-- The variable of the name that an ONU's trap has, with the index of its port and its id.
abbrev pub name_variable : ℕ → ℕ → ℕ → Value → SnmpPdu
name_variable b p id value = record { name = onu_oid oid_onu_name b p id; value = value }

extract_name_variable :
    (b p id : ℕ) (value : Value) (event : TrapEvent)
    → 1 ≤ b
    → b ≤ 30
    → 1 ≤ p
    → p ≤ 16
    → id < 2 ^ 63
    → onu_of (extract_variable a_name (name_variable b p id value) event)
      ≡ (pos b, pos p, pos id, extract_string value)
unfolding extract_variable located
extract_name_variable b p id value event h1 h2 h3 h4 h5 =
    rw (parse_onu_index-onu_oid oid_onu_name b p id h1 h2 h3 h4 h5) refl

-- A trap with the name of the ONU `id` at the PON `p` of the board `b`, and no other name behind it,
-- is an event of that ONU with that name, whatever else it contains.
pub handle_trap-named :
    (now : ℤ) (source : Text) (vs ws : List SnmpPdu) (b p id : ℕ) (value : Value)
    → 1 ≤ b
    → b ≤ 30
    → 1 ≤ p
    → p ≤ 16
    → id < 2 ^ 63
    → All (λ w. kind_of w.name ≢ a_name) ws
    → onu_of (handle_trap now source (vs ++ name_variable b p id value ∷ ws))
      ≡ (pos b, pos p, pos id, extract_string value)
unfolding handle_trap extract_variables
handle_trap-named now source vs ws b p id value h1 h2 h3 h4 h5 ne =
    let variables = vs ++ name_variable b p id value ∷ ws in
    let before = extract_variables vs (received now source (trap_hint variables)) in
    let named = extract_variable a_name (name_variable b p id value) before in
    let at_onu = extract_name_variable b p id value before h1 h2 h3 h4 h5 in
    unrecognized-onu_of source _ _
    ∙ (ap onu_of (
          extract_variables-append vs (name_variable b p id value ∷ ws) _
          ∙ ap (λ k. extract_variables ws (extract_variable k (name_variable b p id value) before))
              (kind_of-onu_oid b p id))
        ∙ (extract_variables-onu_of ws named ne (ap (λ o. eq_ℤ o.0 (pos 0)) at_onu ∙ ground arith)
            ∙ at_onu))
