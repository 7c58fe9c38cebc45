-- ===== src/Trap/Batcher/Flush.antt =====
-- A flush of one queue: what becomes of every key, and what is sent.
use snmp_olt_zte.Common.{
  ◌≡◌, refl, inl, inr, Bool, true, false, ◌||◌, Option, none, some, List, [], ◌∷◌, map, arith,
  if◌then◌else◌, Bool-cases, Option-cases, Text, text_eq, text_eq→eq, ℤ, pos, leb_ℤ, lookup, delete,
  lookup-insert, lookup-delete, text_key, int_key,
}
use snmp_olt_zte.Model.{TrapEvent}
use snmp_olt_zte.Trap.Event.{Severity}
use snmp_olt_zte.Trap.Batcher.{
  BatcherEntry, Queue, Batcher, same_severity, Pass, no_pass, collect, delete_all, find_event,
  mark_entry, mark_notified, settle, WebhookClient, flush_severity,
}

-- Is the key on the list?
unfoldable pub mem_key : Text → List Text → Bool
mem_key k [] = false
mem_key k (j ∷ keys) = text_eq j k || mem_key k keys

pub lookup-delete_all :
    (k : Text) (keys : List Text) (q : Queue)
    → lookup k (delete_all keys q) ≡ (if mem_key k keys then none else lookup k q)
unfolding delete_all mem_key
lookup-delete_all k [] q = refl
lookup-delete_all k (j ∷ keys) q =
    ground (arith, lookup-delete_all k keys (delete j q), lookup-delete j k q)

-- The entry of a key that was notified.
abbrev pub renotified :
    Text → ℤ → TrapEvent → List TrapEvent → Option BatcherEntry → Option BatcherEntry
renotified k now first list none = none
renotified k now first list (some en) =
    some (record { event = find_event k first list; last_notified = some now })

lookup-mark_entry :
    (k j : Text) (now : ℤ) (first : TrapEvent) (list : List TrapEvent) (q : Queue)
    → lookup k (mark_entry j now first list q)
      ≡ (if text_eq j k then renotified k now first list (lookup k q) else lookup k q)
lookup-mark_entry k j now first list q = elim (Option-cases (lookup j q)) [
  | inl missing ↦
      rw (missing, mark_entry)
        (elim (Bool-cases (text_eq j k)) [
          | inl same ↦ rw (same, ← text_eq→eq j k same, missing)
          | inr other ↦ rw other
        ])
  | inr (en, found) ↦
      rw (found, mark_entry, lookup-insert)
        (elim (Bool-cases (text_eq j k)) [
          | inl same ↦ rw (same, ← text_eq→eq j k same, found)
          | inr other ↦ rw other
        ])
]

renotified_idem :
    (k : Text) (now : ℤ) (first : TrapEvent) (list : List TrapEvent) (o : Option BatcherEntry)
    → renotified k now first list (renotified k now first list o) ≡ renotified k now first list o
renotified_idem k now first list none = refl
renotified_idem k now first list (some en) = refl

mark_step :
    (a b : Bool) (k : Text) (now : ℤ) (first : TrapEvent) (list : List TrapEvent)
    (o : Option BatcherEntry)
    → (if b
        then renotified k now first list (if a then renotified k now first list o else o)
        else (if a then renotified k now first list o else o))
      ≡ (if a || b then renotified k now first list o else o)
mark_step true true k now first list o = renotified_idem k now first list o
mark_step _ _ k now first list o = refl

pub lookup-mark_notified :
    (k : Text) (keys : List Text) (now : ℤ) (first : TrapEvent) (list : List TrapEvent) (q : Queue)
    → lookup k (mark_notified keys now first list q)
      ≡ (if mem_key k keys then renotified k now first list (lookup k q) else lookup k q)
unfolding mark_notified mem_key
lookup-mark_notified k [] now first list q = refl
lookup-mark_notified k (j ∷ keys) now first list q =
    rw
      (
        lookup-mark_notified k keys now first list (mark_entry j now first list q),
        lookup-mark_entry k j,
      )
      (mark_step (text_eq j k) (mem_key k keys) k now first list (lookup k q))

-- What settling a batch makes of a key.
abbrev pub settled :
    ℤ → ℤ → List Text → List TrapEvent → Text → Option BatcherEntry → Option BatcherEntry
settled repeat_interval now keys [] k o = o
settled repeat_interval now keys (first ∷ list) k o =
    if mem_key k keys
    then (if leb_ℤ repeat_interval (pos 0) then none else renotified k now first (first ∷ list) o)
    else o

pub lookup-settle :
    (repeat_interval now : ℤ) (keys : List Text) (list : List TrapEvent) (q : Queue) (k : Text)
    → lookup k (settle repeat_interval now keys list q)
      ≡ settled repeat_interval now keys list k (lookup k q)
unfolding settle
lookup-settle repeat_interval now keys [] q k = refl
lookup-settle repeat_interval now keys (first ∷ list) q k =
    elim (Bool-cases (leb_ℤ repeat_interval (pos 0))) [
      | inl never ↦
          rw (never, lookup-delete_all, lookup-mark_notified)
            (elim (Bool-cases (mem_key k keys)) [ inl m ↦ rw m | inr m ↦ rw m ])
      | inr again ↦
          rw (again, lookup-mark_notified)
            (elim (Bool-cases (mem_key k keys)) [ inl m ↦ rw m | inr m ↦ rw m ])
    ]

module _ (sev : Severity) (verify : TrapEvent → Option TrapEvent) (clock : Text → ℤ) (now : ℤ)
    (wc : Option WebhookClient) (b : Batcher) where
  -- The lists that the loop of the flush fills.
  abbrev pub pass : Pass
  pass =
      collect (b.repeat_intervals sev) verify clock (λ _. b.groups sev)
        (map (λ kv. kv.0) (b.groups sev)) no_pass

  -- A flush drops the keys that failed the verification; a key that was notified is dropped too if
  -- there is no repeat interval, and otherwise keeps the notified event and the time of the flush;
  -- every other key of the queue, and every other queue, is as it was.
  pub lookup-flush_severity :
      (s : Severity) (k : Text)
      → lookup k ((flush_severity sev verify clock now wc b).0.groups s) ≡ (
          if same_severity s sev
          then settled
              (b.repeat_intervals sev)
              now
              pass.notified_keys
              pass.list
              k
              (if mem_key k pass.to_remove then none else lookup k (b.groups sev))
          else lookup k (b.groups s))
  unfolding flush_severity
  lookup-flush_severity s k = elim (Bool-cases (same_severity s sev)) [
    | inl here ↦ rw (here, lookup-settle, lookup-delete_all)
    | inr other ↦ rw other
  ]
