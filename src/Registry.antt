-- ===== src/Registry.antt =====
-- app/registry.go: the running OLT stacks, and how they follow the configured OLTs.
pub mod Soundness
pub mod Sweep
pub mod Reconciled
pub mod Converges
use snmp_olt_zte.Common.{
  ℕ, suc, Bool, true, false, Option, none, some, List, [], ◌∷◌, ◌++◌, map, ltb, if◌then◌else◌, Text,
  codes, text_eq, ℤ, itoa, itoa_ℕ, Result, ok, err, Map, lookup, insert, delete, text_key, int_key,
}
use snmp_olt_zte.Common.{any}
use snmp_olt_zte.Config.Olts.{OltRuntimeConfig}

-- An OLTEntry. `stack` names what `addOLTLocked` makes once for an OLT and the copies share: the SNMP
-- pool, the use case, the handler and the lifecycle.
pub record OltEntry : Type 0 where
  pub olt : OltRuntimeConfig
  pub stack : ℕ
  pub board_pons : Map ℤ ℤ
  pub user_id : ℤ

-- OLTRegistry, with the number of stacks made and the stacks that are retired.
pub record OltRegistry : Type 0 where
  pub entries : Map Text OltEntry
  pub default_olt : Text
  pub next_stack : ℕ
  pub retired : List ℕ

-- The order of sort.Strings.
unfoldable pub text_lt : Text → Text → Bool
text_lt s [] = false
text_lt [] (d ∷ t) = true
text_lt (c ∷ s) (d ∷ t) = if ltb c d then true else if ltb d c then false else text_lt s t

unfoldable pub insert_text : Text → List Text → List Text
insert_text s [] = s ∷ []
insert_text s (t ∷ ts) = let rest = insert_text s ts in if text_lt t s then t ∷ rest else s ∷ t ∷ ts

unfoldable pub sort_texts : List Text → List Text
unfolding insert_text
sort_texts [] = []
sort_texts (s ∷ ss) = insert_text s (sort_texts ss)

-- strings.Join
unfoldable pub join : Text → List Text → Text
join sep [] = []
join sep (s ∷ []) = s
join sep (s ∷ t ∷ ts) = s ++ (sep ++ join sep (t ∷ ts))

unfoldable pub olt_change_key : OltRuntimeConfig → Text
unfolding sort_texts join
olt_change_key o =
    let boards = sort_texts (map (λ kv. itoa kv.0 ++ b':' ∷ itoa kv.1) o.board_pons) in
    o.host
    ++ b'|'
      ∷ (itoa_ℕ o.port
          ++ b'|'
            ∷ (o.community
                ++ b'|'
                  ∷ ((if o.use_walk then codes "true" else codes "false")
                      ++ b'|' ∷ join (codes ",") boards)))

-- Retires the stack of the entry and removes the entry.
unfoldable pub remove_olt : Text → OltEntry → OltRegistry → OltRegistry
remove_olt id entry reg = record reg {
  entries = delete id reg.entries;
  retired = entry.stack ∷ reg.retired;
}

-- The copy of an entry with new metadata.
abbrev pub updated : OltRuntimeConfig → OltEntry → OltEntry
updated o existing = record existing { olt = o; user_id = o.user_id }

-- `connects` says that SetupSnmpConnectionWith succeeds for the OLT; an error leaves the registry.
module _ (connects : OltRuntimeConfig → Bool) where
  unfoldable pub add_olt : OltRuntimeConfig → OltRegistry → OltRegistry
  add_olt o reg =
      if connects o
      then record reg {
        entries =
            insert o.id
              (record {
                olt = o;
                stack = reg.next_stack;
                board_pons = o.board_pons;
                user_id = o.user_id;
              })
              reg.entries;
        next_stack = suc reg.next_stack;
      }
      else reg

  -- One configured OLT.
  unfoldable pub apply_olt : OltRuntimeConfig → OltRegistry → OltRegistry
  unfolding add_olt remove_olt olt_change_key
  apply_olt o reg = elim (lookup o.id reg.entries) [
    | none ↦ add_olt o reg
    | some existing ↦
        if text_eq (olt_change_key existing.olt) (olt_change_key o)
        then record reg { entries = insert o.id (updated o existing) reg.entries }
        else add_olt o (remove_olt o.id existing reg)
  ]

  unfoldable pub apply_olts : List OltRuntimeConfig → OltRegistry → OltRegistry
  unfolding apply_olt
  apply_olts [] reg = reg
  apply_olts (o ∷ os) reg = apply_olts os (apply_olt o reg)

-- Is the OLT among the configured ones?
unfoldable pub is_incoming : List OltRuntimeConfig → Text → Bool
is_incoming os id = any (λ o. text_eq o.id id) os

-- The loop over the entries at its start.
unfoldable pub remove_missing :
    List OltRuntimeConfig → Map Text OltEntry → OltRegistry → OltRegistry
unfolding remove_olt is_incoming
remove_missing os [] reg = reg
remove_missing os ((id, entry) ∷ entries) reg =
    remove_missing os entries (if is_incoming os id then reg else remove_olt id entry reg)

unfoldable pub reconcile :
    (OltRuntimeConfig → Bool) → List OltRuntimeConfig → OltRegistry → OltRegistry
unfolding remove_missing apply_olts
reconcile connects os reg = apply_olts connects os (remove_missing os reg.entries reg)

-- A tick of the poller: an error and a nil list keep the OLTs.
unfoldable pub poll :
    (OltRuntimeConfig → Bool)
    → Result Text (Option (List OltRuntimeConfig))
    → OltRegistry
    → OltRegistry
unfolding reconcile
poll connects (err e) reg = reg
poll connects (ok none) reg = reg
poll connects (ok (some os)) reg = reconcile connects os reg

unfoldable pub close_entries : Map Text OltEntry → OltRegistry → OltRegistry
unfolding remove_olt
close_entries [] reg = reg
close_entries ((id, entry) ∷ entries) reg = close_entries entries (remove_olt id entry reg)

unfoldable pub close : OltRegistry → OltRegistry
unfolding close_entries
close reg = close_entries reg.entries reg

-- `first` is the entry at which `range` happens to start.
unfoldable pub get_default : OltRegistry → Option OltEntry
get_default reg = elim (lookup reg.default_olt reg.entries) [
  | some e ↦ some e
  | none ↦ elim reg.entries [ [] ↦ none | kv ∷ rest ↦ some kv.1 ]
]
