-- ===== src/Trap/Batcher/Sent.antt =====
-- The batch of a flush as a function of the queue, and that it keeps the queues well formed.
use snmp_olt_zte.Common.{
  ◌≡◌, refl, ◌≢◌, ◌⊎◌, inl, inr, Bool, true, false, Option, none, some, List, [], ◌∷◌, map, arith,
  if◌then◌else◌, Bool-cases, Option-cases, Text, codes, text_eq, ℤ, lookup, text_key, int_key,
}
use snmp_olt_zte.Model.{TrapEvent, OnuCustomerInfo}
use snmp_olt_zte.Trap.Event.{Severity, medium, event_severity, resolve_event_type}
use snmp_olt_zte.Trap.Batcher.{
  Batcher, same_severity, onu_key, Floats, verify_event, verified_type, power_type, no_pass,
  WebhookClient, flush_severity, retype,
}
use snmp_olt_zte.Trap.Batcher.Laws.{same_severity→eq, IsQueued, Belongs}
use snmp_olt_zte.Trap.Batcher.Flush.{mem_key, settled, pass, lookup-flush_severity}
use snmp_olt_zte.Trap.Batcher.Batch.{
  IsBatch, Keeps, collect-IsBatch, IsQueued-Belongs, settled-Belongs,
}

module _ (fl : Floats) (high_threshold low_threshold : fl.Float) where
  power_type-medium :
      (rx t : Text)
      → power_type fl high_threshold low_threshold rx ≡ some t
      → medium ≡ event_severity t
  unfolding power_type event_severity text_eq
  power_type-medium rx t e = elim split_type [ inl eq ↦ rw eq refl | inr eq ↦ rw eq refl ]
    where
      split_type : (t ≡ codes "HighRxPower") ⊎ (t ≡ codes "LowRxPower")
      split_type = ground arith

  verified_type-severity :
      (sev : Severity) (detail : OnuCustomerInfo) (t : Text)
      → verified_type fl high_threshold low_threshold sev detail ≡ some t
      → sev ≡ event_severity t
  unfolding verified_type
  verified_type-severity sev detail t e = ground (
    arith,
    power_type-medium detail.rx_power t,
    same_severity→eq sev medium,
    same_severity→eq (event_severity (resolve_event_type detail.status detail.last_offline_reason))
        sev,
  )

  -- A verified event is the queued one with the fetched detail, under the type that was found.
  verify_event-retype :
      (sev : Severity) (e : TrapEvent) (o : Option OnuCustomerInfo) (e' : TrapEvent)
      → verify_event fl high_threshold low_threshold sev e o ≡ some e'
      → (detail : OnuCustomerInfo) × (t : Text) × (e' ≡ retype t detail e)
        × (verified_type fl high_threshold low_threshold sev detail ≡ some t)
  unfolding verify_event
  verify_event-retype sev e none e' h = ground arith
  verify_event-retype sev e (some detail) e' h =
      elim (Option-cases (verified_type fl high_threshold low_threshold sev detail)) [
        | inl missing ↦ ground arith
        | inr (t, found) ↦ (detail, t, ground arith, found)
      ]

  -- An event that passes the verification of a queue is still of the same ONU, and its type is one
  -- of that queue.
  pub verify_event-kept :
      (sev : Severity) (e : TrapEvent) (o : Option OnuCustomerInfo) (e' : TrapEvent)
      → verify_event fl high_threshold low_threshold sev e o ≡ some e'
      → (onu_key e' ≡ onu_key e) × (sev ≡ event_severity e'.event_type)
  unfolding verify_event onu_key
  verify_event-kept sev e o e' h =
      let (detail, t, eq, ht) = verify_event-retype sev e o e' h in
      (rw eq refl, rw eq (verified_type-severity sev detail t ht))

  pub verify_event-Keeps :
      (sev : Severity) (fetch : TrapEvent → Option OnuCustomerInfo)
      → Keeps sev (λ e. verify_event fl high_threshold low_threshold sev e (fetch e))
  verify_event-Keeps sev fetch e e' h hs = verify_event-kept sev e (fetch e) e' h

settled-none :
    (repeat_interval now : ℤ) (keys : List Text) (list : List TrapEvent) (k : Text) (gone : Bool)
    → settled repeat_interval now keys list k (if gone then none else none) ≡ none
settled-none repeat_interval now keys [] k true = refl
settled-none repeat_interval now keys [] k false = refl
settled-none repeat_interval now keys (first ∷ list) k true = ground arith
settled-none repeat_interval now keys (first ∷ list) k false = ground arith

module _ (sev : Severity) (verify : TrapEvent → Option TrapEvent) (clock : Text → ℤ) (now : ℤ)
    (wc : Option WebhookClient) (b : Batcher) (keeps : Keeps sev verify) (w : IsQueued b) where
  pass-IsBatch : IsBatch sev (pass sev verify clock now wc b)
  pass-IsBatch =
      collect-IsBatch sev (b.repeat_intervals sev) verify keeps clock (b.groups sev)
        (λ j. IsQueued-Belongs b sev j w (lookup j (b.groups sev)) refl)
        (map (λ kv. kv.0) (b.groups sev)) no_pass (record { severe = tt; marked = tt })

  left-Belongs :
      (gone : Bool) (k : Text) → Belongs sev k (if gone then none else lookup k (b.groups sev))
  left-Belongs true k = tt
  left-Belongs false k = IsQueued-Belongs b sev k w (lookup k (b.groups sev)) refl

  flushed-Belongs :
      (s : Severity) (k : Text)
      → s ≡ sev
      → Belongs s k (
          settled
            (b.repeat_intervals sev)
            now
            (pass sev verify clock now wc b).notified_keys
            (pass sev verify clock now wc b).list
            k
            (if mem_key k (pass sev verify clock now wc b).to_remove
              then none
              else lookup k (b.groups sev)))
  flushed-Belongs s k e = rw e (
      settled-Belongs sev (b.repeat_intervals sev) now
        (pass sev verify clock now wc b).notified_keys (pass sev verify clock now wc b).list k
        (if mem_key k (pass sev verify clock now wc b).to_remove
          then none
          else lookup k (b.groups sev))
        pass-IsBatch.severe pass-IsBatch.marked
        (left-Belongs (mem_key k (pass sev verify clock now wc b).to_remove) k))

  flush_severity-Belongs :
      (s : Severity) (k : Text)
      → Belongs s k (lookup k ((flush_severity sev verify clock now wc b).0.groups s))
  flush_severity-Belongs s k =
      rw (lookup-flush_severity sev verify clock now wc b s k)
        (elim (Bool-cases (same_severity s sev)) [
          | inr other ↦ rw other (IsQueued-Belongs b s k w (lookup k (b.groups s)) refl)
          | inl here ↦ rw here (flushed-Belongs s k (same_severity→eq s sev here))
        ])

  -- A key that is in a queue after the flush was in it before.
  flush_severity-kept :
      (s : Severity) (k : Text)
      → lookup k ((flush_severity sev verify clock now wc b).0.groups s) ≢ none
      → lookup k (b.groups s) ≢ none
  flush_severity-kept s k h e = h (
      rw (lookup-flush_severity sev verify clock now wc b s k)
        (elim (Bool-cases (same_severity s sev)) [
          | inr other ↦ rw other e
          | inl here ↦
              rw (here, rw (same_severity→eq s sev here) at e)
                (settled-none (b.repeat_intervals sev) now
                  (pass sev verify clock now wc b).notified_keys
                  (pass sev verify clock now wc b).list k
                  (mem_key k (pass sev verify clock now wc b).to_remove))
        ]))

  -- A flush whose verification keeps the ONU and the queue of an event keeps the queues well formed.
  pub flush_severity-IsQueued : IsQueued (flush_severity sev verify clock now wc b).0
  flush_severity-IsQueued = record {
    keyed = λ s k {en} e. rw e at (flush_severity-Belongs s k);
    once = λ s t k hs ht. w.once s t k (flush_severity-kept s k hs) (flush_severity-kept t k ht);
  }
