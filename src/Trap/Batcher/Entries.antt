-- ===== src/Trap/Batcher/Entries.antt =====
-- What a flush makes of each entry of the queues.
use snmp_olt_zte.Common.{
  ◌≡◌, refl, sym, ap, ◌∙◌, ◌⊎◌, inl, inr, Bool, true, false, ◌||◌, not, Option, none, some, List,
  [], ◌∷◌, map, arith, if◌then◌else◌, Bool-cases, Option-cases, Text, text_eq, text_eq_iff,
  text_eq→eq, ℤ, pos, ◌-ℤ◌, ltb_ℤ, leb_ℤ, lookup, text_key, int_key, filter_map,
}
use snmp_olt_zte.Model.{TrapEvent}
use snmp_olt_zte.Trap.Event.{Severity}
use snmp_olt_zte.Trap.Batcher.{
  BatcherEntry, Queue, Batcher, same_severity, onu_key, is_due, no_pass, find_event, WebhookClient,
  flush_severity,
}
use snmp_olt_zte.Trap.Batcher.Laws.{IsQueued, Belongs}
use snmp_olt_zte.Trap.Batcher.Flush.{mem_key, settled, lookup-flush_severity}
use snmp_olt_zte.Trap.Batcher.Batch.{HasKey, Keeps, IsQueued-Belongs}
use snmp_olt_zte.Trap.Batcher.Contents.{key_of, notice, recovered_key, collect-contents}

-- An event that was notified waits until the repeat interval has passed, for ever if there is none.
abbrev pub waits : ℤ → ℤ → Option ℤ → Bool
waits repeat_interval now none = false
waits repeat_interval now (some last) =
    leb_ℤ repeat_interval (pos 0) || ltb_ℤ (now -ℤ last) repeat_interval

-- The entry of an event that was notified at `now`, or of one that has recovered.
abbrev pub after_notice : ℤ → ℤ → Option TrapEvent → Option BatcherEntry
after_notice repeat_interval now none = none
after_notice repeat_interval now (some e) =
    if leb_ℤ repeat_interval (pos 0)
    then none
    else some (record { event = e; last_notified = some now })

-- The entry that follows an entry, for the two times of a flush.
abbrev pub next_entry :
    ℤ → (TrapEvent → Option TrapEvent) → ℤ → ℤ → Option BatcherEntry → Option BatcherEntry
next_entry repeat_interval verify seen now none = none
next_entry repeat_interval verify seen now (some en) =
    if waits repeat_interval seen en.last_notified
    then some en
    else after_notice repeat_interval now (verify en.event)

is_due-waits :
    (repeat_interval now : ℤ) (last : Option ℤ)
    → is_due repeat_interval now last ≡ not (waits repeat_interval now last)
unfolding is_due
is_due-waits repeat_interval now none = refl
is_due-waits repeat_interval now (some last) = ground arith

mem_key-lookup :
    (k : Text) (q : Queue) (en : BatcherEntry)
    → lookup k q ≡ some en
    → mem_key k (map (λ kv. kv.0) q) ≡ true
unfolding mem_key lookup
mem_key-lookup k [] en e = ground arith
mem_key-lookup k ((j, x) ∷ q) en e = ground (arith, mem_key-lookup k q en)

module _ (f : Text → Option Text) (k : Text) where
  mem_key-in :
      (keys : List Text)
      → f k ≡ some k
      → mem_key k keys ≡ true
      → mem_key k (filter_map f keys) ≡ true
  unfolding mem_key filter_map
  mem_key-in [] e m = m
  mem_key-in (j ∷ keys) e m = elim (Bool-cases (text_eq j k)) [
    | inl same ↦ rw (text_eq→eq j k same, e, (text_eq_iff k k).1 refl) refl
    | inr other ↦ elim (Option-cases (f j)) [
      | inl out ↦ rw out (mem_key-in keys e (ground arith))
      | inr (i, kept) ↦ rw (kept, mem_key-in keys e (ground arith)) (ground arith)
    ]
  ]

  mem_key-out :
      ((j : Text) → (f j ≡ none) ⊎ (f j ≡ some j))
      → f k ≡ none
      → (keys : List Text) → mem_key k (filter_map f keys) ≡ false
  unfolding mem_key filter_map
  mem_key-out self e [] = refl
  mem_key-out self e (j ∷ keys) = elim (self j) [
    | inl out ↦ rw out (mem_key-out self e keys)
    | inr kept ↦ elim (Bool-cases (text_eq j k)) [
      | inl same ↦ ground (arith, kept, e, ap f (text_eq→eq j k same))
      | inr other ↦ rw (kept, other) (mem_key-out self e keys)
    ]
  ]

module _ (g : Text → Option TrapEvent) (k : Text) (e : TrapEvent) (here : g k ≡ some e)
    (own : (j : Text) (x : TrapEvent) → g j ≡ some x → onu_key x ≡ j) where
  filter_map-HasKey : (keys : List Text) → mem_key k keys ≡ true → HasKey k (filter_map g keys)
  unfolding mem_key filter_map
  filter_map-HasKey [] m = ground arith
  filter_map-HasKey (j ∷ keys) m = elim (Bool-cases (text_eq j k)) [
    | inl same ↦ rw (text_eq→eq j k same, here) (inl (own k e here))
    | inr other ↦ elim (Option-cases (g j)) [
      | inl out ↦ rw out (filter_map-HasKey keys (ground arith))
      | inr (x, kept) ↦ rw kept (inr (filter_map-HasKey keys (ground arith)))
    ]
  ]

  find_event-own :
      (first : TrapEvent) (keys : List Text)
      → mem_key k keys ≡ true
      → find_event k first (filter_map g keys) ≡ e
  unfolding mem_key filter_map find_event
  find_event-own first [] m = ground arith
  find_event-own first (j ∷ keys) m = elim (Bool-cases (text_eq j k)) [
    | inl same ↦ rw (text_eq→eq j k same, here, (text_eq_iff (onu_key e) k).1 (own k e here)) refl
    | inr other ↦ elim (Option-cases (g j)) [
      | inl out ↦ rw out (find_event-own first keys (ground arith))
      | inr (x, kept) ↦ rw (kept, own j x kept, other) (find_event-own first keys (ground arith))
    ]
  ]

settled-none :
    (repeat_interval now : ℤ) (keys : List Text) (list : List TrapEvent) (k : Text)
    → settled repeat_interval now keys list k none ≡ none
settled-none repeat_interval now keys [] k = refl
settled-none repeat_interval now keys (first ∷ list) k = ground arith

settled-unmarked :
    (repeat_interval now : ℤ) (keys : List Text) (list : List TrapEvent) (k : Text)
    (o : Option BatcherEntry)
    → mem_key k keys ≡ false
    → settled repeat_interval now keys list k o ≡ o
settled-unmarked repeat_interval now keys [] k o h = refl
settled-unmarked repeat_interval now keys (first ∷ list) k o h = rw h refl

settled-marked :
    (repeat_interval now : ℤ) (keys : List Text) (list : List TrapEvent) (k : Text)
    (en : BatcherEntry) (e : TrapEvent)
    → mem_key k keys ≡ true
    → HasKey k list
    → ((first : TrapEvent) → find_event k first list ≡ e)
    → settled repeat_interval now keys list k (some en) ≡ after_notice repeat_interval now (some e)
settled-marked repeat_interval now keys [] k en e m x found = elim x [ ]
settled-marked repeat_interval now keys (first ∷ list) k en e m x found = rw (m, found first) refl

recovered_key_self :
    (repeat_interval : ℤ) (verify : TrapEvent → Option TrapEvent) (clock : Text → ℤ) (q : Queue)
    (k : Text) (o : Option BatcherEntry)
    → (recovered_key repeat_interval verify clock q k o ≡ none)
      ⊎ (recovered_key repeat_interval verify clock q k o ≡ some k)
unfolding recovered_key
recovered_key_self repeat_interval verify clock q k none = inl refl
recovered_key_self repeat_interval verify clock q k (some en) =
    elim (Bool-cases (is_due repeat_interval (clock k) en.last_notified)) [
      | inr quiet ↦ rw quiet (inl refl)
      | inl due ↦ rw due (elim (Option-cases (verify en.event)) [
        | inl gone ↦ rw gone (inr refl)
        | inr (e, still) ↦ rw still (inl refl)
      ])
    ]

key_of_self : (k : Text) (o : Option TrapEvent) → (key_of k o ≡ none) ⊎ (key_of k o ≡ some k)
key_of_self k none = inl refl
key_of_self k (some e) = inr refl

module _ (sev : Severity) (repeat_interval : ℤ) (verify : TrapEvent → Option TrapEvent)
    (keeps : Keeps sev verify) (clock : Text → ℤ) (now : ℤ) (q : Queue)
    (belongs : (k : Text) → Belongs sev k (lookup k q)) where
  noticed : Text → Option TrapEvent
  noticed k = notice repeat_interval verify clock q k (lookup k q)

  gone : Text → Option Text
  gone k = recovered_key repeat_interval verify clock q k (lookup k q)

  told : Text → Option Text
  told k = key_of k (noticed k)

  notice-own :
      (k : Text) (o : Option BatcherEntry) (e : TrapEvent)
      → Belongs sev k o
      → notice repeat_interval verify clock q k o ≡ some e
      → onu_key e ≡ k
  unfolding notice
  notice-own k none e h f = ground arith
  notice-own k (some en) e (hk, hs) f =
      elim (Bool-cases (is_due repeat_interval (clock k) en.last_notified)) [
        | inr quiet ↦ ground (arith, quiet, f)
        | inl due ↦ (keeps en.event e (ground (arith, due, f)) hs).0 ∙ sym hk
      ]

  -- The two lists and the batch of a flush, from the point of view of one key.
  entry_after : (keys : List Text) → Text → Option BatcherEntry → Option BatcherEntry
  entry_after keys k o =
      settled repeat_interval now (filter_map told keys) (filter_map noticed keys) k
        (if mem_key k (filter_map gone keys) then none else o)

  entry_after-none : (keys : List Text) (k : Text) → entry_after keys k none ≡ none
  unfolding entry_after
  entry_after-none keys k = elim (Bool-cases (mem_key k (filter_map gone keys))) [
    | inl m ↦
        rw m (settled-none repeat_interval now (filter_map told keys) (filter_map noticed keys) k)
    | inr m ↦
        rw m (settled-none repeat_interval now (filter_map told keys) (filter_map noticed keys) k)
  ]

  entry_after-quiet :
      (keys : List Text) (k : Text) (o : Option BatcherEntry)
      → gone k ≡ none
      → noticed k ≡ none
      → entry_after keys k o ≡ o
  unfolding entry_after told gone
  entry_after-quiet keys k o g n =
      rw
        (
          mem_key-out gone k (λ j. recovered_key_self repeat_interval verify clock q j (lookup j q))
              g keys,
          settled-unmarked repeat_interval now (filter_map told keys) (filter_map noticed keys) k o
              (mem_key-out told k (λ j. key_of_self j (noticed j)) (ap (key_of k) n) keys),
        )
        refl

  entry_after-gone :
      (keys : List Text) (k : Text) (o : Option BatcherEntry)
      → gone k ≡ some k
      → mem_key k keys ≡ true
      → entry_after keys k o ≡ none
  unfolding entry_after
  entry_after-gone keys k o g m =
      rw (mem_key-in gone k keys g m)
        (settled-none repeat_interval now (filter_map told keys) (filter_map noticed keys) k)

  entry_after-told :
      (keys : List Text) (k : Text) (en : BatcherEntry) (e : TrapEvent)
      → gone k ≡ none
      → noticed k ≡ some e
      → mem_key k keys ≡ true
      → entry_after keys k (some en) ≡ after_notice repeat_interval now (some e)
  unfolding entry_after told gone noticed
  entry_after-told keys k en e g n m =
      let own : (j : Text) (x : TrapEvent) → noticed j ≡ some x → onu_key x ≡ j =
        λ j x f. notice-own j (lookup j q) x (belongs j) f in
      rw
        (mem_key-out gone k (λ j. recovered_key_self repeat_interval verify clock q j (lookup j q))
          g keys)
        (settled-marked repeat_interval now (filter_map told keys) (filter_map noticed keys) k en e
          (mem_key-in told k keys (ap (key_of k) n) m) (filter_map-HasKey noticed k e n own keys m)
          (λ first. find_event-own noticed k e n own first keys m))

  entry_after-next :
      (k : Text)
      → entry_after (map (λ kv. kv.0) q) k (lookup k q)
        ≡ next_entry repeat_interval verify (clock k) now (lookup k q)
  unfolding gone noticed recovered_key notice
  entry_after-next k = elim (Option-cases (lookup k q)) [
    | inl missing ↦ rw missing (entry_after-none (map (λ kv. kv.0) q) k)
    | inr (en, found) ↦
        let due = is_due-waits repeat_interval (clock k) en.last_notified in
        rw found (elim (Bool-cases (waits repeat_interval (clock k) en.last_notified)) [
          | inl w ↦ rw w (
              entry_after-quiet (map (λ kv. kv.0) q) k (some en) (rw (found, due, w) refl)
                (rw (found, due, w) refl))
          | inr w ↦ rw w (elim (Option-cases (verify en.event)) [
            | inl out ↦ rw out (
                entry_after-gone (map (λ kv. kv.0) q) k (some en) (rw (found, due, w, out) refl)
                  (mem_key-lookup k q en found))
            | inr (e, still) ↦ rw still (
                entry_after-told (map (λ kv. kv.0) q) k en e (rw (found, due, w, still) refl)
                  (rw (found, due, w, still) refl) (mem_key-lookup k q en found))
          ])
        ])
  ]

-- With well-formed queues and a verification that keeps the ONU and the severity, a flush leaves every
-- other queue as it is, and in its own queue: an event that was notified and waits for the repeat
-- interval stays as it is; an event whose verification finds the ONU recovered is dropped; and an event
-- that is notified is dropped if there is no repeat interval, and else is replaced by the verified event
-- with the time of the flush.
pub flush_severity-next_entry :
    (sev : Severity) (verify : TrapEvent → Option TrapEvent) (clock : Text → ℤ) (now : ℤ)
    (wc : Option WebhookClient) (b : Batcher)
    → Keeps sev verify
    → IsQueued b
    → (s : Severity) (k : Text)
    → lookup k ((flush_severity sev verify clock now wc b).0.groups s) ≡ (
        if same_severity s sev
        then next_entry (b.repeat_intervals sev) verify (clock k) now (lookup k (b.groups sev))
        else lookup k (b.groups s))
unfolding entry_after noticed gone told
flush_severity-next_entry sev verify clock now wc b keeps w s k =
    rw
      (
        lookup-flush_severity sev verify clock now wc b s k,
        collect-contents (b.repeat_intervals sev) verify clock (b.groups sev)
            (map (λ kv. kv.0) (b.groups sev)) no_pass,
        ← entry_after-next sev (b.repeat_intervals sev) verify keeps clock now (b.groups sev)
            (λ j. IsQueued-Belongs b sev j w (lookup j (b.groups sev)) refl) k,
      )
      refl
