-- ===== src/Registry/Sweep.antt =====
-- The loops of the registry over its own entries: those without a configured OLT go, or all of them.
use snmp_olt_zte.Common.{
  ◌≡◌, refl, inl, inr, Bool, true, false, none, some, List, [], ◌∷◌, arith, if◌then◌else◌,
  Bool-cases, Text, text_eq, text_eq_iff, text_eq_refl, Map, lookup, delete, lookup-delete,
  Distinct, text_key, int_key, All,
}
use snmp_olt_zte.Config.Olts.{OltRuntimeConfig}
use snmp_olt_zte.Registry.{
  OltEntry, OltRegistry, remove_olt, is_incoming, remove_missing, reconcile, close_entries, close,
}
use snmp_olt_zte.Registry.Soundness.{IsSound, remove_olt-IsSound, apply_olts-IsSound}

-- The entries still to be visited are those of the registry.
abbrev Present : Map Text OltEntry → Map Text OltEntry → Type 0
Present entries m = All (λ kv. lookup kv.0 m ≡ some kv.1) entries

Present-delete :
    (id : Text) (entries m : Map Text OltEntry)
    → lookup id entries ≡ none
    → Present entries m
    → Present entries (delete id m)
unfolding lookup
Present-delete id [] m missing h = tt
Present-delete id ((j, e) ∷ entries) m missing (h, hs) = (
  ground (arith, lookup-delete id j m, text_eq_iff id j, text_eq_iff j id),
  Present-delete id entries m (ground arith) hs,
)

Present-cons :
    (id : Text) (entry : OltEntry) (entries m : Map Text OltEntry)
    → lookup id entries ≡ none
    → Present entries m
    → Present entries ((id, entry) ∷ m)
unfolding lookup
Present-cons id entry [] m missing h = tt
Present-cons id entry ((j, e) ∷ entries) m missing (h, hs) = (
  ground (arith, text_eq_iff id j, text_eq_iff j id),
  Present-cons id entry entries m (ground arith) hs,
)

Present-self : (m : Map Text OltEntry) → Distinct m → Present m m
unfolding lookup
Present-self [] d = tt
Present-self ((id, entry) ∷ m) (h, d) =
    (ground (arith, text_eq_refl id), Present-cons id entry m m h (Present-self m d))

remove_missing-loop :
    (os : List OltRuntimeConfig) (entries : Map Text OltEntry) (reg : OltRegistry)
    → Distinct entries
    → Present entries reg.entries
    → IsSound reg
    → IsSound (remove_missing os entries reg)
unfolding remove_missing remove_olt
remove_missing-loop os [] reg d h w = w
remove_missing-loop os ((id, entry) ∷ entries) reg (fresh, d) (h, hs) w =
    elim (Bool-cases (is_incoming os id)) [
      | inl stays ↦ rw stays (remove_missing-loop os entries reg d hs w)
      | inr goes ↦ rw goes (
          remove_missing-loop os entries (remove_olt id entry reg) d
            (Present-delete id entries reg.entries fresh hs) (remove_olt-IsSound id entry reg h w))
    ]

close_entries-loop :
    (entries : Map Text OltEntry) (reg : OltRegistry)
    → Distinct entries
    → Present entries reg.entries
    → IsSound reg
    → IsSound (close_entries entries reg)
unfolding close_entries remove_olt
close_entries-loop [] reg d h w = w
close_entries-loop ((id, entry) ∷ entries) reg (fresh, d) (h, hs) w =
    close_entries-loop entries (remove_olt id entry reg) d
      (Present-delete id entries reg.entries fresh hs) (remove_olt-IsSound id entry reg h w)

-- Whatever the configured OLTs are and whichever can be connected, after a reconciliation the
-- registry serves live stacks only, each to one OLT.
pub reconcile-IsSound :
    (connects : OltRuntimeConfig → Bool) (os : List OltRuntimeConfig) (reg : OltRegistry)
    → IsSound reg
    → IsSound (reconcile connects os reg)
unfolding reconcile
reconcile-IsSound connects os reg w =
    apply_olts-IsSound connects os (remove_missing os reg.entries reg)
      (remove_missing-loop os reg.entries reg w.distinct (Present-self reg.entries w.distinct) w)

-- A closed registry serves nothing, and is sound.
pub close-IsSound : (reg : OltRegistry) → IsSound reg → IsSound (close reg)
unfolding close
close-IsSound reg w =
    close_entries-loop reg.entries reg w.distinct (Present-self reg.entries w.distinct) w

lookup-remove_olt :
    (id j : Text) (entry : OltEntry) (reg : OltRegistry)
    → lookup j (remove_olt id entry reg).entries
      ≡ (if text_eq id j then none else lookup j reg.entries)
unfolding remove_olt
lookup-remove_olt id j entry reg = lookup-delete id j reg.entries

-- A configured OLT keeps its entry in the first loop.
pub remove_missing-kept :
    (os : List OltRuntimeConfig) (entries : Map Text OltEntry) (reg : OltRegistry) (id : Text)
    → is_incoming os id ≡ true
    → lookup id (remove_missing os entries reg).entries ≡ lookup id reg.entries
unfolding remove_missing
remove_missing-kept os [] reg id h = refl
remove_missing-kept os ((j, entry) ∷ entries) reg id h = elim (Bool-cases (is_incoming os j)) [
  | inl stays ↦ rw (remove_missing, stays) (remove_missing-kept os entries reg id h)
  | inr goes ↦
      rw (remove_missing, goes, remove_missing-kept os entries (remove_olt j entry reg) id h)
        (ground (arith, lookup-remove_olt j id entry reg, text_eq_iff j id))
]

pub remove_missing-gone :
    (os : List OltRuntimeConfig) (entries : Map Text OltEntry) (reg : OltRegistry) (id : Text)
    → is_incoming os id ≡ false
    → (lookup id entries ≡ none → lookup id reg.entries ≡ none)
    → lookup id (remove_missing os entries reg).entries ≡ none
unfolding remove_missing lookup
remove_missing-gone os [] reg id h g = g refl
remove_missing-gone os ((j, entry) ∷ entries) reg id h g = elim (Bool-cases (is_incoming os j)) [
  | inl stays ↦
      rw (remove_missing, stays)
        (remove_missing-gone os entries reg id h (λ e. g (ground (arith, text_eq_iff j id))))
  | inr goes ↦
      rw (remove_missing, goes)
        (remove_missing-gone os entries (remove_olt j entry reg) id h
          (λ e. ground (arith, lookup-remove_olt j id entry reg, g)))
]
