-- ===== src/Registry/Reconciled.antt =====
-- What a reconciliation makes of each OLT.
use snmp_olt_zte.Common.{
  ℕ, ◌≤◌, ◌≡◌, refl, ap, ◌∙◌, inl, inr, Bool, false, ◌&&◌, Option, none, some, List, [], ◌∷◌, arith,
  if◌then◌else◌, Bool-cases, Option-cases, Text, text_eq, text_eq_iff, text_eq_refl, lookup,
  lookup-insert, lookup-delete, text_key, int_key, All, lookup-insert_self,
}
use snmp_olt_zte.Common.{lookup-delete_self}
use snmp_olt_zte.Config.Olts.{OltRuntimeConfig}
use snmp_olt_zte.Config.Olts.Checked.{Once}
use snmp_olt_zte.Registry.{
  OltEntry, OltRegistry, olt_change_key, remove_olt, add_olt, updated, apply_olt, apply_olts,
  is_incoming,
}

abbrev pub fresh : OltRuntimeConfig → ℕ → OltEntry
fresh o n = record { olt = o; stack = n; board_pons = o.board_pons; user_id = o.user_id }

-- The entry of a configured OLT after the reconciliation, by the one before: with unchanged
-- connection data the stack stays and the metadata is new; otherwise there is the new stack `n`, or
-- nothing if the OLT cannot be connected.
unfoldable pub outcome :
    (OltRuntimeConfig → Bool) → OltRuntimeConfig → ℕ → Option OltEntry → Option OltEntry
outcome connects o n none = if connects o then some (fresh o n) else none
outcome connects o n (some e) =
    if text_eq (olt_change_key e.olt) (olt_change_key o)
    then some (updated o e)
    else if connects o
    then some (fresh o n)
    else none

lookup-add_olt :
    (connects : OltRuntimeConfig → Bool) (o : OltRuntimeConfig) (reg : OltRegistry) (id : Text)
    → lookup id (add_olt connects o reg).entries ≡ (
        if connects o && text_eq o.id id
        then some (fresh o reg.next_stack)
        else lookup id reg.entries)
unfolding add_olt
lookup-add_olt connects o reg id = elim (Bool-cases (connects o)) [
  | inl connected ↦ rw connected (lookup-insert o.id id (fresh o reg.next_stack) reg.entries)
  | inr failed ↦ rw failed refl
]

lookup-apply_olt :
    (connects : OltRuntimeConfig → Bool) (o : OltRuntimeConfig) (reg : OltRegistry)
    → lookup o.id (apply_olt connects o reg).entries
      ≡ outcome connects o reg.next_stack (lookup o.id reg.entries)
unfolding apply_olt remove_olt outcome
lookup-apply_olt connects o reg = elim (Option-cases (lookup o.id reg.entries)) [
  | inl missing ↦
      rw (apply_olt, missing, lookup-add_olt connects o reg o.id, text_eq_refl o.id, missing)
        (ground arith)
  | inr (e, found) ↦
      rw (apply_olt, found)
        (elim (Bool-cases (text_eq (olt_change_key e.olt) (olt_change_key o))) [
          | inl same ↦ rw (same, lookup-insert_self) refl
          | inr changed ↦
              rw
                (
                  changed,
                  lookup-add_olt connects o (remove_olt o.id e reg) o.id,
                  text_eq_refl o.id,
                  lookup-delete_self,
                )
                (ground arith)
        ])
]

lookup-apply_olt_other :
    (connects : OltRuntimeConfig → Bool) (o : OltRuntimeConfig) (reg : OltRegistry) (id : Text)
    → text_eq o.id id ≡ false
    → lookup id (apply_olt connects o reg).entries ≡ lookup id reg.entries
unfolding apply_olt remove_olt
lookup-apply_olt_other connects o reg id h = elim (Option-cases (lookup o.id reg.entries)) [
  | inl missing ↦ rw (apply_olt, missing) (ground (arith, lookup-add_olt connects o reg id))
  | inr (e, found) ↦
      rw (apply_olt, found)
        (elim (Bool-cases (text_eq (olt_change_key e.olt) (olt_change_key o))) [
          | inl same ↦ rw (same, lookup-insert, h) refl
          | inr changed ↦ rw changed (
              ground (
                arith,
                lookup-add_olt connects o (remove_olt o.id e reg) id,
                lookup-delete o.id id reg.entries,
              ))
        ])
]

next_stack-add_olt :
    (connects : OltRuntimeConfig → Bool) (o : OltRuntimeConfig) (reg : OltRegistry)
    → reg.next_stack ≤ (add_olt connects o reg).next_stack
unfolding add_olt
next_stack-add_olt connects o reg = ground arith

next_stack-apply_olt :
    (connects : OltRuntimeConfig → Bool) (o : OltRuntimeConfig) (reg : OltRegistry)
    → reg.next_stack ≤ (apply_olt connects o reg).next_stack
unfolding apply_olt remove_olt
next_stack-apply_olt connects o reg = elim (Option-cases (lookup o.id reg.entries)) [
  | inl missing ↦ rw (apply_olt, missing) (next_stack-add_olt connects o reg)
  | inr (e, found) ↦
      rw (apply_olt, found)
        (elim (Bool-cases (text_eq (olt_change_key e.olt) (olt_change_key o))) [
          | inl same ↦ rw same (omega arith)
          | inr changed ↦ rw changed (next_stack-add_olt connects o (remove_olt o.id e reg))
        ])
]

-- The OLT's entry in `after` is the outcome for its entry in `before`.
abbrev pub Follows :
    (OltRuntimeConfig → Bool) → OltRegistry → OltRegistry → OltRuntimeConfig → Type 0
Follows connects before after o =
    (n : ℕ) × (before.next_stack ≤ n)
    × (lookup o.id after.entries ≡ outcome connects o n (lookup o.id before.entries))

pub lookup-apply_olts_other :
    (connects : OltRuntimeConfig → Bool) (os : List OltRuntimeConfig) (reg : OltRegistry)
    (id : Text)
    → is_incoming os id ≡ false
    → lookup id (apply_olts connects os reg).entries ≡ lookup id reg.entries
unfolding apply_olts is_incoming
lookup-apply_olts_other connects [] reg id h = refl
lookup-apply_olts_other connects (o ∷ os) reg id h =
    lookup-apply_olts_other connects os (apply_olt connects o reg) id (ground arith)
    ∙ lookup-apply_olt_other connects o reg id (ground arith)

not_incoming :
    (o : OltRuntimeConfig) (os : List OltRuntimeConfig)
    → All (λ p. text_eq o.id p.id ≡ false) os
    → is_incoming os o.id ≡ false
unfolding is_incoming
not_incoming o [] h = refl
not_incoming o (p ∷ os) (h, hs) =
    ground (arith, not_incoming o os hs, text_eq_iff p.id o.id, text_eq_iff o.id p.id)

Follows-earlier :
    (connects : OltRuntimeConfig → Bool) (o : OltRuntimeConfig) (before after : OltRegistry)
    (os : List OltRuntimeConfig)
    → All (λ p. text_eq o.id p.id ≡ false) os
    → All (Follows connects (apply_olt connects o before) after) os
    → All (Follows connects before after) os
Follows-earlier connects o before after [] h f = tt
Follows-earlier connects o before after (p ∷ os) (h, hs) ((n, later, eq), fs) = (
  (
    n,
    omega (arith, next_stack-apply_olt connects o before),
    eq ∙ ap (outcome connects p n) (lookup-apply_olt_other connects o before p.id h),
  ),
  Follows-earlier connects o before after os hs fs,
)

pub apply_olts-Follows :
    (connects : OltRuntimeConfig → Bool) (os : List OltRuntimeConfig) (reg : OltRegistry)
    → Once os
    → All (Follows connects reg (apply_olts connects os reg)) os
unfolding apply_olts
apply_olts-Follows connects [] reg d = tt
apply_olts-Follows connects (o ∷ os) reg (h, d) = (
  (
    reg.next_stack,
    omega arith,
    lookup-apply_olts_other connects os (apply_olt connects o reg) o.id (not_incoming o os h)
        ∙ lookup-apply_olt connects o reg,
  ),
  Follows-earlier connects o reg (apply_olts connects os (apply_olt connects o reg)) os h
      (apply_olts-Follows connects os (apply_olt connects o reg) d),
)
