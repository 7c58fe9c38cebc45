-- ===== src/Registry/Converges.antt =====
-- A reconciliation makes the registry follow the configured OLTs.
use snmp_olt_zte.Common.{
  ℕ, ◌≡◌, refl, sym, ap, ◌∙◌, inl, inr, Bool, true, false, Option, none, some, List, [], ◌∷◌, arith,
  if◌then◌else◌, Bool-cases, Text, text_eq, text_eq_iff, text_eq→eq, text_eq_refl, Map, lookup,
  text_key, int_key, All, All-map,
}
use mathlib.Core.Option.{some-injective}
use snmp_olt_zte.Config.Olts.{OltRuntimeConfig}
use snmp_olt_zte.Config.Olts.Checked.{Once}
use snmp_olt_zte.Registry.{
  OltEntry, OltRegistry, olt_change_key, remove_olt, updated, is_incoming, remove_missing,
  reconcile,
}
use snmp_olt_zte.Registry.Sweep.{remove_missing-kept, remove_missing-gone}
use snmp_olt_zte.Registry.Reconciled.{
  fresh, outcome, Follows, apply_olts-Follows, lookup-apply_olts_other,
}

next_stack-remove_missing :
    (os : List OltRuntimeConfig) (entries : Map Text OltEntry) (reg : OltRegistry)
    → (remove_missing os entries reg).next_stack ≡ reg.next_stack
unfolding remove_missing remove_olt
next_stack-remove_missing os [] reg = refl
next_stack-remove_missing os ((j, entry) ∷ entries) reg = elim (Bool-cases (is_incoming os j)) [
  | inl stays ↦ rw (remove_missing, stays) (next_stack-remove_missing os entries reg)
  | inr goes ↦
      rw (remove_missing, goes) (next_stack-remove_missing os entries (remove_olt j entry reg))
]

All-incoming : (os : List OltRuntimeConfig) → All (λ p. is_incoming os p.id ≡ true) os
unfolding is_incoming
All-incoming [] = tt
All-incoming (o ∷ os) =
    (ground (arith, text_eq_refl o.id), All-map (λ p h. ground arith) os (All-incoming os))

Follows-sweep :
    (connects : OltRuntimeConfig → Bool) (os ps : List OltRuntimeConfig) (reg after : OltRegistry)
    → All (λ p. is_incoming os p.id ≡ true) ps
    → All (Follows connects (remove_missing os reg.entries reg) after) ps
    → All (Follows connects reg after) ps
Follows-sweep connects os [] reg after h f = tt
Follows-sweep connects os (p ∷ ps) reg after (h, hs) ((n, later, eq), fs) = (
  (
    n,
    omega (arith, next_stack-remove_missing os reg.entries reg),
    eq ∙ ap (outcome connects p n) (remove_missing-kept os reg.entries reg p.id h),
  ),
  Follows-sweep connects os ps reg after hs fs,
)

pub reconcile-Follows :
    (connects : OltRuntimeConfig → Bool) (os : List OltRuntimeConfig) (reg : OltRegistry)
    → Once os
    → All (Follows connects reg (reconcile connects os reg)) os
unfolding reconcile
reconcile-Follows connects os reg d =
    Follows-sweep connects os os reg (reconcile connects os reg) (All-incoming os)
      (apply_olts-Follows connects os (remove_missing os reg.entries reg) d)

-- After a reconciliation an OLT that is not configured has no entry.
pub reconcile-gone :
    (connects : OltRuntimeConfig → Bool) (os : List OltRuntimeConfig) (reg : OltRegistry)
    (id : Text)
    → is_incoming os id ≡ false
    → lookup id (reconcile connects os reg).entries ≡ none
unfolding reconcile
reconcile-gone connects os reg id h =
    lookup-apply_olts_other connects os (remove_missing os reg.entries reg) id h
    ∙ remove_missing-gone os reg.entries reg id h (λ e. e)

same_some :
    (connects : OltRuntimeConfig → Bool) (o : OltRuntimeConfig) (m : ℕ) (e : OltEntry)
    → e.olt ≡ o
    → e.user_id ≡ o.user_id
    → outcome connects o m (some e) ≡ some e
unfolding outcome
same_some connects o m e h u = rw (outcome, keyed) refl ∙ ap some same
  where
    keyed : text_eq (olt_change_key e.olt) (olt_change_key o) ≡ true
    keyed = (text_eq_iff (olt_change_key e.olt) (olt_change_key o)).1 (ap olt_change_key h)

    same : updated o e ≡ e
    same i = record { olt = sym h i; stack = e.stack; board_pons = e.board_pons; user_id = sym u i }

fresh-olt :
    (connected : Bool) (o : OltRuntimeConfig) (n : ℕ) (e : OltEntry)
    → (if connected then some (fresh o n) else none) ≡ some e
    → (e.olt ≡ o) × (e.user_id ≡ o.user_id)
fresh-olt true o n e h =
    let same = some-injective (fresh o n) e h in
    (sym (ap (λ x. x.olt) same), sym (ap (λ x. x.user_id) same))
fresh-olt false o n e h = ground (arith, h)

-- An entry that a reconciliation leaves has the OLT that is configured.
outcome-olt :
    (connects : OltRuntimeConfig → Bool) (o : OltRuntimeConfig) (n : ℕ) (before : Option OltEntry)
    (e : OltEntry)
    → outcome connects o n before ≡ some e
    → (e.olt ≡ o) × (e.user_id ≡ o.user_id)
unfolding outcome
outcome-olt connects o n none e h = fresh-olt (connects o) o n e h
outcome-olt connects o n (some old) e h =
    elim (Bool-cases (text_eq (olt_change_key old.olt) (olt_change_key o))) [
      | inl kept ↦
          let same = some-injective (updated o old) e (rw (outcome, kept) at h) in
          (sym (ap (λ x. x.olt) same), sym (ap (λ x. x.user_id) same))
      | inr changed ↦ fresh-olt (connects o) o n e (rw (outcome, changed) at h)
    ]

-- What holds of all configured OLTs holds of one with the id.
pick :
    (P Q : OltRuntimeConfig → Type 0) (os : List OltRuntimeConfig) (id : Text)
    → is_incoming os id ≡ true
    → All P os
    → All Q os
    → (o : OltRuntimeConfig) × (o.id ≡ id) × P o × Q o
unfolding is_incoming
pick P Q [] id h f g = ground arith
pick P Q (o ∷ os) id h (f, fs) (g, gs) = elim (Bool-cases (text_eq o.id id)) [
  | inl same ↦ (o, text_eq→eq o.id id same, f, g)
  | inr other ↦ pick P Q os id (ground arith) fs gs
]

-- An entry that a reconciliation with OLTs of different ids leaves is not changed by the next one with
-- the same OLTs, whichever of them can be connected then: no running stack is dropped or rebuilt.
pub reconcile_twice :
    (connects later : OltRuntimeConfig → Bool) (os : List OltRuntimeConfig) (reg : OltRegistry)
    (id : Text) (entry : OltEntry)
    → Once os
    → lookup id (reconcile connects os reg).entries ≡ some entry
    → lookup id (reconcile later os (reconcile connects os reg)).entries ≡ some entry
reconcile_twice connects later os reg id entry d running =
    let first = reconcile-Follows connects os reg d in
    let second = reconcile-Follows later os (reconcile connects os reg) d in
    elim (Bool-cases (is_incoming os id)) [
      | inr other ↦ ground (arith, reconcile-gone connects os reg id other, running)
      | inl configured ↦
          let (o, is_id, (n, _, eq), (m, _, eq')) =
            pick (Follows connects reg (reconcile connects os reg))
              (Follows later (reconcile connects os reg)
                (reconcile later os (reconcile connects os reg)))
              os id configured first second in
          let here : lookup o.id (reconcile connects os reg).entries ≡ some entry =
            ap (λ j. lookup j (reconcile connects os reg).entries) is_id ∙ running in
          let (same, owner) =
            outcome-olt connects o n (lookup o.id reg.entries) entry (sym eq ∙ here) in
          ap (λ j. lookup j (reconcile later os (reconcile connects os reg)).entries) (sym is_id)
          ∙ (eq' ∙ (ap (outcome later o m) here ∙ same_some later o m entry same owner))
    ]
