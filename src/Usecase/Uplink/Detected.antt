-- ===== src/Usecase/Uplink/Detected.antt =====
-- What a detected topology holds.
use snmp_olt_zte.Common.{
  ◌≡◌, ◌⊎◌, Bool, true, false, Option, none, some, List, [], Text, codes, has_prefix, ℤ, eq_ℤ, Map,
  lookup, int_key, All, any, InOrder,
}
use snmp_olt_zte.Model.{UplinkPort, UplinkCard, UplinkTopology}
use snmp_olt_zte.Utils.Extract.{SnmpPdu}
use snmp_olt_zte.Usecase.Uplink.{
  PortRow, value_rows, port_less, card_less, to_int, ent_physical_class_module,
}

-- The kind of an interface by its name.
abbrev pub IsUplink : Text → Text → Type 0
IsUplink name kind =
    ((has_prefix name (codes "xgei_") ≡ true) × (kind ≡ codes "10G"))
    ⊎ ((has_prefix name (codes "gei_") ≡ true) × (kind ≡ codes "1G"))

abbrev IsRow : ℤ × PortRow → Type 0
IsRow (idx, row) = IsUplink row.name row.kind

abbrev pub IsUplinkPort : UplinkPort → Type 0
IsUplinkPort p = IsUplink p.name p.kind

-- Whether a class is that of a card.
abbrev pub is_module : Option ℤ → Bool
is_module none = false
is_module (some cls) = eq_ℤ cls ent_physical_class_module

is_card : ℤ → UplinkCard → Bool
is_card idx c = eq_ℤ c.ent_index idx

-- The rows of entPhysicalClass by index; of two rows with one index the later counts.
abbrev pub class_by_idx : List SnmpPdu → Map ℤ ℤ
class_by_idx classes = value_rows (λ _. true) to_int classes []

-- Cards and ports are in order, every port is an uplink of its kind, and there is a card for each
-- entity of class module and for no other.
pub record IsDetected (classes : List SnmpPdu) (topo : UplinkTopology) : Type 0 where
  pub cards_ordered : InOrder card_less topo.cards
  pub ports_ordered : InOrder port_less topo.ports
  pub uplinks : All IsUplinkPort topo.ports
  pub modules :
      (idx : ℤ)
      → any (λ c. eq_ℤ c.ent_index idx) topo.cards ≡ is_module (lookup idx (class_by_idx classes))
