-- ===== src/Trap/Batcher/Batch.antt =====
-- What a flush sends, and that it keeps the queues well formed.
use snmp_olt_zte.Common.{
  ◌≡◌, sym, ◌∙◌, ◌⊎◌, inl, inr, true, Option, none, some, List, [], ◌∷◌, ◌++◌, arith, Bool-cases,
  Option-cases, Text, text_eq, text_eq_iff, text_eq→eq, ℤ, pos, leb_ℤ, lookup, text_key, int_key,
  All, All-concat, All-map,
}
use snmp_olt_zte.Model.{TrapEvent}
use snmp_olt_zte.Trap.Event.{Severity, event_severity}
use snmp_olt_zte.Trap.Batcher.{
  BatcherEntry, Queue, Batcher, onu_key, is_due, Pass, visit, collect, find_event,
}
use snmp_olt_zte.Trap.Batcher.Laws.{IsQueued, Belongs}
use snmp_olt_zte.Trap.Batcher.Flush.{mem_key, settled}

-- A batch holds an event of the ONU with the key.
abbrev pub HasKey : Text → List TrapEvent → Type 0
HasKey k [] = ⊥
HasKey k (e ∷ list) = (onu_key e ≡ k) ⊎ HasKey k list

HasKey-concat :
    (k : Text) (list : List TrapEvent) (e : TrapEvent) → HasKey k list → HasKey k (list ++ e ∷ [])
HasKey-concat k [] e x = elim x [ ]
HasKey-concat k (x ∷ list) e (inl h) = inl h
HasKey-concat k (x ∷ list) e (inr h) = inr (HasKey-concat k list e h)

HasKey-last :
    (k : Text) (list : List TrapEvent) (e : TrapEvent) → onu_key e ≡ k → HasKey k (list ++ e ∷ [])
HasKey-last k [] e h = inl h
HasKey-last k (x ∷ list) e h = inr (HasKey-last k list e h)

-- The events of a batch are of its severity, and each key that is marked has one.
pub record IsBatch (sev : Severity) (p : Pass) : Type 0 where
  pub severe : All (λ e. sev ≡ event_severity e.event_type) p.list
  pub marked : All (λ k. HasKey k p.list) p.notified_keys

find_event-key :
    (k : Text) (first : TrapEvent) (list : List TrapEvent)
    → HasKey k list
    → onu_key (find_event k first list) ≡ k
unfolding find_event
find_event-key k first [] x = elim x [ ]
find_event-key k first (e ∷ list) (inl h) = rw ((text_eq_iff (onu_key e) k).1 h) h
find_event-key k first (e ∷ list) (inr h) = elim (Bool-cases (text_eq (onu_key e) k)) [
  | inl same ↦ rw same (text_eq→eq (onu_key e) k same)
  | inr other ↦ rw other (find_event-key k first list h)
]

find_event-severity :
    (sev : Severity) (k : Text) (first : TrapEvent) (list : List TrapEvent)
    → sev ≡ event_severity first.event_type
    → All (λ e. sev ≡ event_severity e.event_type) list
    → sev ≡ event_severity (find_event k first list).event_type
unfolding find_event
find_event-severity sev k first [] h hs = h
find_event-severity sev k first (e ∷ list) h (he, hs) = elim (Bool-cases (text_eq (onu_key e) k)) [
  | inl same ↦ rw same he
  | inr other ↦ rw other (find_event-severity sev k first list h hs)
]

-- A verification that keeps the ONU, and gives the type of an event of the queue that it came from.
abbrev pub Keeps : Severity → (TrapEvent → Option TrapEvent) → Type 0
Keeps sev verify =
    (e e' : TrapEvent)
    → verify e ≡ some e'
    → sev ≡ event_severity e.event_type
    → (onu_key e' ≡ onu_key e) × (sev ≡ event_severity e'.event_type)

module _ (sev : Severity) (repeat_interval : ℤ) (verify : TrapEvent → Option TrapEvent)
    (keeps : Keeps sev verify) where
  visit-IsBatch :
      (now : ℤ) (k : Text) (o : Option BatcherEntry) (p : Pass)
      → Belongs sev k o
      → IsBatch sev p
      → IsBatch sev (visit repeat_interval verify now k o p)
  unfolding visit
  visit-IsBatch now k none p h g = g
  visit-IsBatch now k (some en) p (hk, hs) g =
      elim (Bool-cases (is_due repeat_interval now en.last_notified)) [
        | inr quiet ↦ rw quiet g
        | inl due ↦ rw due (elim (Option-cases (verify en.event)) [
          | inl recovered ↦ rw (visit, recovered) (record { severe = g.severe; marked = g.marked })
          | inr (e, still) ↦
              let (same, severe) = keeps en.event e still hs in
              rw (visit, still)
                (record {
                  severe = All-concat _ p.list e g.severe severe;
                  marked =
                      All-concat _ p.notified_keys k
                        (All-map (λ j h. HasKey-concat j p.list e h) p.notified_keys g.marked)
                        (HasKey-last k p.list e (same ∙ sym hk));
                })
        ])
      ]

  pub collect-IsBatch :
      (clock : Text → ℤ) (q : Queue)
      → ((k : Text) → Belongs sev k (lookup k q))
      → (keys : List Text) (p : Pass) → IsBatch sev p
      → IsBatch sev (collect repeat_interval verify clock (λ _. q) keys p)
  unfolding collect
  collect-IsBatch clock q belongs [] p g = g
  collect-IsBatch clock q belongs (k ∷ keys) p g =
      collect-IsBatch clock q belongs keys (visit repeat_interval verify (clock k) k (lookup k q) p)
        (visit-IsBatch (clock k) k (lookup k q) p (belongs k) g)

pub IsQueued-Belongs :
    (b : Batcher) (s : Severity) (k : Text)
    → IsQueued b
    → (o : Option BatcherEntry) → lookup k (b.groups s) ≡ o
    → Belongs s k o
IsQueued-Belongs b s k w none e = tt
IsQueued-Belongs b s k w (some en) e = w.keyed s k {en = en} e

All-mem_key :
    (k : Text) (list : List TrapEvent) (keys : List Text)
    → All (λ j. HasKey j list) keys
    → mem_key k keys ≡ true
    → HasKey k list
unfolding mem_key
All-mem_key k list [] hs e = cc
All-mem_key k list (j ∷ keys) (h, hs) e = elim (Bool-cases (text_eq j k)) [
  | inl same ↦ rw (text_eq→eq j k same) at h
  | inr other ↦ All-mem_key k list keys hs (ground arith)
]

-- Settling a batch leaves entries that belong in the queue.
pub settled-Belongs :
    (sev : Severity) (repeat_interval now : ℤ) (keys : List Text) (list : List TrapEvent) (k : Text)
    (o : Option BatcherEntry)
    → All (λ e. sev ≡ event_severity e.event_type) list
    → All (λ j. HasKey j list) keys
    → Belongs sev k o
    → Belongs sev k (settled repeat_interval now keys list k o)
settled-Belongs sev repeat_interval now keys [] k o hs hk h = h
settled-Belongs sev repeat_interval now keys (first ∷ list) k none hs hk h =
    elim (Bool-cases (mem_key k keys)) [
      | inr other ↦ rw other tt
      | inl marked ↦
          rw marked (elim (Bool-cases (leb_ℤ repeat_interval (pos 0))) [
            | inl a ↦ rw a tt
            | inr a ↦ rw a tt
          ])
    ]
settled-Belongs sev repeat_interval now keys (first ∷ list) k (some en) hs hk h =
    elim (Bool-cases (mem_key k keys)) [
      | inr other ↦ rw other h
      | inl marked ↦ rw marked (elim (Bool-cases (leb_ℤ repeat_interval (pos 0))) [
        | inl a ↦ rw a tt
        | inr a ↦ rw a (
          sym (find_event-key k first (first ∷ list) (All-mem_key k (first ∷ list) keys hk marked)),
          find_event-severity sev k first (first ∷ list) (hs.0) hs,
        )
      ])
    ]
