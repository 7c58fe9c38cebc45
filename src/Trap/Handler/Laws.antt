-- ===== src/Trap/Handler/Laws.antt =====
-- What handling an event does to the queues, and what it sends.
use snmp_olt_zte.Common.{
  ◌≡◌, refl, ◌⊎◌, inl, inr, true, false, ◌&&◌, Option, none, some, arith, if◌then◌else◌, Bool-cases,
  Option-cases, Text, text_eq, text_eq_iff, ℤ, lookup, text_key, int_key,
}
use mathlib.Core.Option.{some-injective}
use snmp_olt_zte.Model.{TrapEvent, OnuCustomerInfo}
use snmp_olt_zte.Trap.Event.{Severity, event_severity, is_alert}
use snmp_olt_zte.Trap.Batcher.{Batcher, onu_key, add, remove, same_severity, queued}
use snmp_olt_zte.Trap.Batcher.Laws.{
  IsQueued, add-IsQueued, remove-IsQueued, lookup-add, lookup-remove,
}
use snmp_olt_zte.Trap.Handler.{
  OnuDetailFetcher, Handler, is_incomplete, verified, verify, dispatch, send_now, finish,
  invalidates, handle_event,
}

abbrev pub AllQueued : Option Batcher → Type 0
AllQueued none = Unit
AllQueued (some b) = IsQueued b

dispatch-IsQueued : (e : TrapEvent) (o : Option Batcher) → AllQueued o → AllQueued (dispatch e o)
unfolding dispatch
dispatch-IsQueued e none w = tt
dispatch-IsQueued e (some b) w = elim (Bool-cases (is_alert e.event_type)) [
  | inl alert ↦ rw alert (add-IsQueued e b w)
  | inr other ↦ rw other (remove-IsQueued e b w)
]

finish-IsQueued :
    (h : Handler) (i : Option (ℤ × ℤ × ℤ)) (v : Option TrapEvent)
    → AllQueued h.batcher
    → AllQueued (finish h i v).batcher
finish-IsQueued h i none w = w
finish-IsQueued h i (some e) w = dispatch-IsQueued e h.batcher w

-- Handling any event keeps the queues of the batcher well formed.
pub handle_event-IsQueued :
    (h : Handler) (event : TrapEvent)
    → AllQueued h.batcher
    → AllQueued (handle_event h event).batcher
unfolding handle_event
handle_event-IsQueued h event w = elim (Bool-cases (is_incomplete event)) [
  | inl missing ↦ rw missing w
  | inr complete ↦
      rw complete
        (finish-IsQueued h (invalidates h.onu_fetcher event) (verify h.onu_fetcher event) w)
]

-- An event that is incomplete, or that cannot be verified against the OLT, changes no queue and is
-- not sent.
pub handle_event-unverified :
    (h : Handler) (event : TrapEvent)
    → (is_incomplete event ≡ true) ⊎ (verify h.onu_fetcher event ≡ none)
    → ((handle_event h event).batcher ≡ h.batcher) × ((handle_event h event).sent ≡ none)
unfolding handle_event
handle_event-unverified h event (inl missing) = rw missing (refl, refl)
handle_event-unverified h event (inr failed) = elim (Bool-cases (is_incomplete event)) [
  | inl missing ↦ rw missing (refl, refl)
  | inr complete ↦ rw (complete, failed) (refl, refl)
]

-- The verified ONU is the one of the event.
verify-onu_key :
    (o : Option OnuDetailFetcher) (event e : TrapEvent)
    → verify o event ≡ some e
    → onu_key e ≡ onu_key event
unfolding verify verified onu_key
verify-onu_key none event e h = rw (some-injective event e h) refl
verify-onu_key (some fetcher) event e h =
    elim (Option-cases (fetcher.fetch event.board event.pon event.onu_id)) [
      | inl failed ↦ ground arith
      | inr (detail, found) ↦ rw (same detail found) refl
    ]
  where
    same :
        (detail : OnuCustomerInfo)
        → fetcher.fetch event.board event.pon event.onu_id ≡ some detail
        → e ≡ verified detail event
    same detail found = ground arith

-- After a verified event, with a batcher, its ONU stands in the queue of the verified severity if
-- the verified type is an alert, and in no other queue; every other ONU stands where it stood.
pub handle_event-queued :
    (h : Handler) (event e : TrapEvent) (b : Batcher)
    → h.batcher ≡ some b
    → is_incomplete event ≡ false
    → verify h.onu_fetcher event ≡ some e
    → (b' : Batcher) × ((handle_event h event).batcher ≡ some b')
      × ((handle_event h event).sent ≡ none)
      × ((s : Severity) (k : Text)
          → lookup k (b'.groups s) ≡ (
              if text_eq (onu_key event) k
              then (if is_alert e.event_type && same_severity s (event_severity e.event_type)
                  then some (queued e (lookup k (b.groups s)))
                  else none)
              else lookup k (b.groups s)))
unfolding handle_event dispatch send_now
handle_event-queued h event e b hb complete hv = (
  (if is_alert e.event_type then add e b else remove e b),
  rw (complete, hv, hb) refl,
  rw (complete, hv, hb) refl,
  λ s k. ground (
    arith,
    lookup-add e b s k,
    lookup-remove e b s k,
    verify-onu_key h.onu_fetcher event e hv,
    text_eq_iff (onu_key event) k,
  ),
)
