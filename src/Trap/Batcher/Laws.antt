-- ===== src/Trap/Batcher/Laws.antt =====
-- Queueing and removing events: an ONU stands in one queue at most.
use snmp_olt_zte.Common.{
  ◌≡◌, refl, ◌≢◌, inl, inr, true, Option, none, some, arith, if◌then◌else◌, Bool-cases, Text,
  text_eq, text_eq_iff, lookup, lookup-insert, lookup-delete, text_key, int_key,
}
use snmp_olt_zte.Model.{TrapEvent}
use snmp_olt_zte.Trap.Event.{Severity, critical, high, medium, low, unknown, event_severity}
use snmp_olt_zte.Trap.Batcher.{BatcherEntry, Batcher, same_severity, onu_key, queued, add, remove}

pub same_severity→eq : (s t : Severity) → same_severity s t ≡ true → s ≡ t
unfolding same_severity
same_severity→eq critical critical h = refl
same_severity→eq high high h = refl
same_severity→eq medium medium h = refl
same_severity→eq low low h = refl
same_severity→eq unknown unknown h = refl
same_severity→eq _ _ h = cc

pub same_severity_refl : (s : Severity) → same_severity s s ≡ true
unfolding same_severity
same_severity_refl critical = refl
same_severity_refl _ = refl

-- After `Add` the event's key is in the queue of the event's severity and in no other, with the
-- time of its last notification if it stood there before; every other key is as it was.
pub lookup-add :
    (event : TrapEvent) (b : Batcher) (s : Severity) (k : Text)
    → lookup k ((add event b).groups s) ≡ (
        if text_eq (onu_key event) k
        then (if same_severity s (event_severity event.event_type)
            then some (queued event (lookup (onu_key event) (b.groups s)))
            else none)
        else lookup k (b.groups s))
unfolding add
lookup-add event b s k = elim (Bool-cases (same_severity s (event_severity event.event_type))) [
  | inl here ↦ rw (here, lookup-insert)
  | inr other ↦ rw (other, lookup-delete)
]

-- After `Remove` the event's key is in no queue; every other key is as it was.
pub lookup-remove :
    (event : TrapEvent) (b : Batcher) (s : Severity) (k : Text)
    → lookup k ((remove event b).groups s)
      ≡ (if text_eq (onu_key event) k then none else lookup k (b.groups s))
unfolding remove
lookup-remove event b s k = lookup-delete (onu_key event) k (b.groups s)

-- An ONU is in one queue at most, under its own key, and in the queue of its event's severity.
pub record IsQueued (b : Batcher) : Type 0 where
  pub keyed :
      (s : Severity) (k : Text) {en : BatcherEntry}
      → lookup k (b.groups s) ≡ some en
      → (k ≡ onu_key en.event) × (s ≡ event_severity en.event.event_type)
  pub once :
      (s t : Severity) (k : Text)
      → lookup k (b.groups s) ≢ none
      → lookup k (b.groups t) ≢ none
      → s ≡ t

-- A queue whose events belong in it, by one of its entries.
abbrev pub Belongs : Severity → Text → Option BatcherEntry → Type 0
Belongs s k none = Unit
Belongs s k (some en) = (k ≡ onu_key en.event) × (s ≡ event_severity en.event.event_type)

queued-event : (event : TrapEvent) (o : Option BatcherEntry) → (queued event o).event ≡ event
queued-event event none = refl
queued-event event (some en) = refl

add-keyed :
    (event : TrapEvent) (b : Batcher)
    → IsQueued b
    → (s : Severity) (k : Text) {en : BatcherEntry} → lookup k ((add event b).groups s) ≡ some en
    → (k ≡ onu_key en.event) × (s ≡ event_severity en.event.event_type)
add-keyed event b w s k {en} e = ground (
  arith,
  lookup-add event b s k,
  w.keyed s k {en = en},
  text_eq_iff (onu_key event) k,
  same_severity→eq s (event_severity event.event_type),
  queued-event event (lookup (onu_key event) (b.groups s)),
)

add-once :
    (event : TrapEvent) (b : Batcher)
    → IsQueued b
    → (s t : Severity) (k : Text) → lookup k ((add event b).groups s) ≢ none
    → lookup k ((add event b).groups t) ≢ none
    → s ≡ t
add-once event b w s t k hs ht = ground (
  arith,
  lookup-add event b s k,
  lookup-add event b t k,
  w.once s t k,
  same_severity→eq s (event_severity event.event_type),
  same_severity→eq t (event_severity event.event_type),
)

-- Queueing an event keeps the queues well formed.
pub add-IsQueued : (event : TrapEvent) (b : Batcher) → IsQueued b → IsQueued (add event b)
add-IsQueued event b w = record { keyed = add-keyed event b w; once = add-once event b w }

-- So does removing one.
pub remove-IsQueued : (event : TrapEvent) (b : Batcher) → IsQueued b → IsQueued (remove event b)
remove-IsQueued event b w = record {
  keyed = λ s k {en} e. w.keyed s k {en = en} (ground (arith, lookup-remove event b s k));
  once = λ s t k hs ht.
      w.once s t k (λ e. hs (ground (arith, lookup-remove event b s k)))
        (λ e. ht (ground (arith, lookup-remove event b t k)));
}
