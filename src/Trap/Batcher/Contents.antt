-- ===== src/Trap/Batcher/Contents.antt =====
-- The lists that a flush fills, without its loop.
use snmp_olt_zte.Common.{
  ◌≡◌, refl, ◌∙◌, inl, inr, Option, none, some, List, [], ◌∷◌, ◌++◌, append_assoc, append-nil,
  if◌then◌else◌, Bool-cases, Option-cases, Text, ℤ, lookup, text_key, int_key,
}
use snmp_olt_zte.Common.{filter_map, maybe_cons}
use snmp_olt_zte.Model.{TrapEvent}
use snmp_olt_zte.Trap.Batcher.{BatcherEntry, Queue, Batcher, is_due, Pass, visit, collect}

abbrev pub key_of : Text → Option TrapEvent → Option Text
key_of k none = none
key_of k (some e) = some k

module _ (repeat_interval : ℤ) (verify : TrapEvent → Option TrapEvent) (clock : Text → ℤ)
    (q : Queue) where
  -- What the notification of an entry would be.
  unfoldable pub notice : Text → Option BatcherEntry → Option TrapEvent
  notice k none = none
  notice k (some en) =
      if is_due repeat_interval (clock k) en.last_notified then verify en.event else none

  -- The key, if its entry is due and the verification finds the ONU recovered.
  unfoldable pub recovered_key : Text → Option BatcherEntry → Option Text
  recovered_key k none = none
  recovered_key k (some en) =
      if is_due repeat_interval (clock k) en.last_notified
      then elim (verify en.event) [ none ↦ some k | some e ↦ none ]
      else none

  abbrev pub contents : List Text → Pass → Pass
  contents keys p = record {
    to_remove = p.to_remove ++ filter_map (λ k. recovered_key k (lookup k q)) keys;
    list = p.list ++ filter_map (λ k. notice k (lookup k q)) keys;
    notified_keys = p.notified_keys ++ filter_map (λ k. key_of k (notice k (lookup k q))) keys;
  }

  visit-contents :
      (k : Text) (o : Option BatcherEntry) (p : Pass) (rs ns : List Text) (es : List TrapEvent)
      → ◌≡◌ {A = Pass}
          (record {
            to_remove = (visit repeat_interval verify (clock k) k o p).to_remove ++ rs;
            list = (visit repeat_interval verify (clock k) k o p).list ++ es;
            notified_keys = (visit repeat_interval verify (clock k) k o p).notified_keys ++ ns;
          })
          (record {
            to_remove = p.to_remove ++ maybe_cons (recovered_key k o) rs;
            list = p.list ++ maybe_cons (notice k o) es;
            notified_keys = p.notified_keys ++ maybe_cons (key_of k (notice k o)) ns;
          })
  unfolding visit notice recovered_key
  visit-contents k none p rs ns es = refl
  visit-contents k (some en) p rs ns es =
      elim (Bool-cases (is_due repeat_interval (clock k) en.last_notified)) [
        | inr quiet ↦ rw quiet refl
        | inl due ↦ rw due (elim (Option-cases (verify en.event)) [
          | inl gone ↦ rw gone (rw (append_assoc p.to_remove (k ∷ []) rs) refl)
          | inr (e, still) ↦
              rw (still, append_assoc p.list (e ∷ []) es, append_assoc p.notified_keys (k ∷ []) ns)
                refl
        ])
      ]

  -- The loop of a flush collects each due entry once, in the order of the keys.
  pub collect-contents :
      (keys : List Text) (p : Pass)
      → collect repeat_interval verify clock (λ _. q) keys p ≡ contents keys p
  unfolding collect filter_map
  collect-contents [] p = simp append-nil
  collect-contents (k ∷ keys) p =
      collect-contents keys (visit repeat_interval verify (clock k) k (lookup k q) p)
      ∙ visit-contents k (lookup k q) p _ _ _
