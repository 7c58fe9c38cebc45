-- ===== src/Registry/Soundness.antt =====
-- Which stacks the registry keeps, and that it never serves a retired one.
use snmp_olt_zte.Common.{
  ℕ, ◌<◌, ◌≡◌, inl, inr, Bool, true, false, none, some, List, [], ◌∷◌, arith, ◌==◌, Bool-cases,
  Option-cases, Text, text_eq, text_eq_iff, lookup, insert, lookup-insert, lookup-delete, Distinct,
  text_key, int_key, insert-Distinct,
}
use snmp_olt_zte.Common.{any, lookup-delete_self, delete-Distinct}
use snmp_olt_zte.Config.Olts.{OltRuntimeConfig}
use snmp_olt_zte.Registry.{
  OltEntry, OltRegistry, olt_change_key, remove_olt, add_olt, updated, apply_olt, apply_olts,
}

-- Is the number on the list?
unfoldable pub mem_ℕ : ℕ → List ℕ → Bool
mem_ℕ n ns = any (λ m. m == n) ns

-- The stack of each entry has been made and is not retired, and no two OLTs share one.
pub record IsSound (reg : OltRegistry) : Type 0 where
  pub made : (id : Text) {e : OltEntry} → lookup id reg.entries ≡ some e → e.stack < reg.next_stack
  pub live :
      (id : Text) {e : OltEntry}
      → lookup id reg.entries ≡ some e
      → mem_ℕ e.stack reg.retired ≡ false
  pub apart :
      (i j : Text) {e f : OltEntry}
      → lookup i reg.entries ≡ some e
      → lookup j reg.entries ≡ some f
      → e.stack ≡ f.stack
      → i ≡ j
  pub distinct : Distinct reg.entries
  -- Nothing but made stacks is retired.
  pub retired_made : (n : ℕ) → mem_ℕ n reg.retired ≡ true → n < reg.next_stack

remove_olt-live :
    (id : Text) (entry : OltEntry) (reg : OltRegistry)
    → lookup id reg.entries ≡ some entry
    → IsSound reg
    → (j : Text) (e : OltEntry) → lookup j (remove_olt id entry reg).entries ≡ some e
    → mem_ℕ e.stack (remove_olt id entry reg).retired ≡ false
unfolding remove_olt mem_ℕ
remove_olt-live id entry reg found w j e h = ground (
  arith,
  lookup-delete id j reg.entries,
  w.live j {e = e},
  w.apart id j {e = entry} {f = e} found,
  text_eq_iff id j,
)

pub remove_olt-IsSound :
    (id : Text) (entry : OltEntry) (reg : OltRegistry)
    → lookup id reg.entries ≡ some entry
    → IsSound reg
    → IsSound (remove_olt id entry reg)
unfolding remove_olt mem_ℕ
remove_olt-IsSound id entry reg found w = record {
  made = λ j {e} h. w.made j {e = e} (ground (arith, lookup-delete id j reg.entries));
  live = λ j {e} h. remove_olt-live id entry reg found w j e h;
  apart = λ i j {e} {f} h h' same.
      w.apart i j {e = e} {f = f} (ground (arith, lookup-delete id i reg.entries))
        (ground (arith, lookup-delete id j reg.entries)) same;
  retired_made = λ n h. ground (arith, w.made id {e = entry} found, w.retired_made n);
  distinct = delete-Distinct id reg.entries w.distinct;
}

-- A new stack for an OLT that has no entry.
add_olt-IsSound :
    (connects : OltRuntimeConfig → Bool) (o : OltRuntimeConfig) (reg : OltRegistry)
    → lookup o.id reg.entries ≡ none
    → IsSound reg
    → IsSound (add_olt connects o reg)
unfolding add_olt
add_olt-IsSound connects o reg missing w = elim (Bool-cases (connects o)) [
  | inr failed ↦ rw failed w
  | inl connected ↦ rw connected (record {
    made = λ j {e} h. ground (arith, lookup-insert o.id j fresh reg.entries, w.made j {e = e});
    live = λ j {e} h. ground (
      arith,
      lookup-insert o.id j fresh reg.entries,
      w.live j {e = e},
      w.retired_made reg.next_stack,
    );
    apart = λ i j {e} {f} h h' same. ground (
      arith,
      lookup-insert o.id i fresh reg.entries,
      lookup-insert o.id j fresh reg.entries,
      w.apart i j {e = e} {f = f},
      w.made i {e = e},
      w.made j {e = f},
      text_eq_iff o.id i,
      text_eq_iff o.id j,
    );
    retired_made = λ n h. ground (arith, w.retired_made n);
    distinct = insert-Distinct o.id fresh reg.entries w.distinct;
  })
]
  where
    fresh : OltEntry
    fresh = record {
      olt = o;
      stack = reg.next_stack;
      board_pons = o.board_pons;
      user_id = o.user_id;
    }

-- New metadata on the stack that the OLT has.
update-IsSound :
    (o : OltRuntimeConfig) (existing : OltEntry) (reg : OltRegistry)
    → lookup o.id reg.entries ≡ some existing
    → IsSound reg
    → IsSound (record reg { entries = insert o.id (updated o existing) reg.entries })
update-IsSound o existing reg found w = record {
  made = λ j {e} h. ground (
    arith,
    lookup-insert o.id j (updated o existing) reg.entries,
    w.made j {e = e},
    w.made o.id {e = existing} found,
  );
  live = λ j {e} h. ground (
    arith,
    lookup-insert o.id j (updated o existing) reg.entries,
    w.live j {e = e},
    w.live o.id {e = existing} found,
  );
  apart = λ i j {e} {f} h h' same. ground (
    arith,
    lookup-insert o.id i (updated o existing) reg.entries,
    lookup-insert o.id j (updated o existing) reg.entries,
    w.apart i j {e = e} {f = f},
    w.apart o.id j {e = existing} {f = f} found,
    w.apart i o.id {e = e} {f = existing},
    text_eq_iff o.id i,
    text_eq_iff o.id j,
    found,
  );
  retired_made = w.retired_made;
  distinct = insert-Distinct o.id (updated o existing) reg.entries w.distinct;
}

apply_olt-IsSound :
    (connects : OltRuntimeConfig → Bool) (o : OltRuntimeConfig) (reg : OltRegistry)
    → IsSound reg
    → IsSound (apply_olt connects o reg)
unfolding apply_olt
apply_olt-IsSound connects o reg w = elim (Option-cases (lookup o.id reg.entries)) [
  | inl missing ↦ rw (apply_olt, missing) (add_olt-IsSound connects o reg missing w)
  | inr (existing, found) ↦
      rw (apply_olt, found)
        (elim (Bool-cases (text_eq (olt_change_key existing.olt) (olt_change_key o))) [
          | inl same ↦ rw same (update-IsSound o existing reg found w)
          | inr changed ↦ rw changed (
              add_olt-IsSound connects o (remove_olt o.id existing reg)
                (unfold remove_olt in lookup-delete_self o.id reg.entries)
                (remove_olt-IsSound o.id existing reg found w))
        ])
]

pub apply_olts-IsSound :
    (connects : OltRuntimeConfig → Bool) (os : List OltRuntimeConfig) (reg : OltRegistry)
    → IsSound reg
    → IsSound (apply_olts connects os reg)
unfolding apply_olts
apply_olts-IsSound connects [] reg w = w
apply_olts-IsSound connects (o ∷ os) reg w =
    apply_olts-IsSound connects os (apply_olt connects o reg) (apply_olt-IsSound connects o reg w)
