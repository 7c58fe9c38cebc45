-- ===== src/Config/Fetch/Retries.antt =====
-- The end of the retries.
use snmp_olt_zte.Common.{
  ℕ, zero, suc, ◌+◌, ◌*◌, ◌/◌, ◌≤◌, ◌<◌, ◌≡◌, refl, ap, ◌∙◌, inl, inr, Bool-cases, true, false,
  Option, some, arith, Text, Result, ok, err, Result-cases, ltb,
}
use snmp_olt_zte.Config.Fetch.{
  FetchError, second, next_backoff, initial_backoff, retry, fetch_registry_olts_with_retry,
}

next_backoff-ge : (backoff : ℕ) → second ≤ backoff → second ≤ next_backoff backoff
unfolding next_backoff
next_backoff-ge backoff h = ground arith

module _ (fetch : ℕ → Result FetchError Text) (duration oversleep : ℕ → ℕ) where
  -- The answer is that of an attempt before which all have failed, counted from `attempt`.
  pub record IsLast (attempt : ℕ) (answer : Result FetchError Text) : Type 0 where
    pub last : ℕ
    pub answered : fetch (attempt + last) ≡ answer
    pub failed : (i : ℕ) → i < last → (e : FetchError) × (fetch (attempt + i) ≡ err e)

  here :
      (attempt : ℕ) (answer : Result FetchError Text)
      → fetch attempt ≡ answer
      → IsLast attempt answer
  here attempt answer e = record {
    last = 0;
    answered = ap fetch (omega arith) ∙ e;
    failed = λ i lt. elim lt [ ];
  }

  there :
      (attempt : ℕ) (answer : Result FetchError Text) (e : FetchError)
      → fetch attempt ≡ err e
      → IsLast (suc attempt) answer
      → IsLast attempt answer
  there attempt answer e h l = record {
    last = suc l.last;
    answered = ap fetch (omega arith) ∙ l.answered;
    failed = shifted;
  }
    where
      shifted : (i : ℕ) → i < suc l.last → (e' : FetchError) × (fetch (attempt + i) ≡ err e')
      shifted zero lt = (e, ap fetch (omega arith) ∙ h)
      shifted (suc i) lt =
          let (e', f) = l.failed i (omega (arith, lt)) in (e', ap fetch (omega arith) ∙ f)

  module _ (fuel deadline attempt now backoff : ℕ) where
    abbrev later : ℕ
    later = now + duration attempt + backoff

    retry-ok :
        (olts : Text)
        → fetch attempt ≡ ok olts
        → retry fetch duration oversleep (suc fuel) deadline attempt now backoff ≡ some (ok olts)
    unfolding retry
    retry-ok olts e = rw (retry, e) refl

    retry-stop :
        (e : FetchError)
        → fetch attempt ≡ err e
        → ltb later deadline ≡ false
        → retry fetch duration oversleep (suc fuel) deadline attempt now backoff ≡ some (err e)
    unfolding retry
    retry-stop e failed over = rw (retry, failed, over) refl

    retry-again :
        (e : FetchError)
        → fetch attempt ≡ err e
        → ltb later deadline ≡ true
        → retry fetch duration oversleep (suc fuel) deadline attempt now backoff
          ≡ retry fetch duration oversleep fuel deadline
              (suc attempt)
              (later + oversleep attempt)
              (next_backoff backoff)
    unfolding retry
    retry-again e failed early = rw (retry, failed, early) refl

  -- What a run gives: an answer, which is that of the last attempt.
  abbrev pub Ends : ℕ → Option (Result FetchError Text) → Type 0
  Ends attempt run = (answer : Result FetchError Text) × (run ≡ some answer) × IsLast attempt answer

  retry-step :
      (fuel deadline attempt now backoff : ℕ)
      → (ltb (now + duration attempt + backoff) deadline ≡ true
          → Ends (suc attempt) (
              retry fetch duration oversleep fuel deadline
                (suc attempt)
                (now + duration attempt + backoff + oversleep attempt)
                (next_backoff backoff)))
      → Ends attempt (retry fetch duration oversleep (suc fuel) deadline attempt now backoff)
  retry-step fuel deadline attempt now backoff again = elim (Result-cases (fetch attempt)) [
    | inl (olts, e) ↦ (ok olts, retry-ok fuel deadline attempt now backoff olts e, here attempt _ e)
    | inr (e, failed) ↦ elim (Bool-cases (ltb (now + duration attempt + backoff) deadline)) [
      | inl early ↦
          let (answer, same, l) = again early in
          (
            answer,
            retry-again fuel deadline attempt now backoff e failed early ∙ same,
            there attempt answer e failed l,
          )
      | inr over ↦
          (err e, retry-stop fuel deadline attempt now backoff e failed over, here attempt _ failed)
    ]
  ]

  retry-Ends :
      (fuel deadline attempt now backoff : ℕ)
      → second ≤ backoff
      → deadline ≤ now + suc fuel * second
      → Ends attempt (retry fetch duration oversleep (suc fuel) deadline attempt now backoff)
  retry-Ends zero deadline attempt now backoff h enough =
      retry-step zero deadline attempt now backoff
        λ early. absurd (ground (arith, early, h, enough))
  retry-Ends (suc fuel) deadline attempt now backoff h enough =
      retry-step (suc fuel) deadline attempt now backoff λ early.
        retry-Ends fuel deadline (suc attempt)
          (now + duration attempt + backoff + oversleep attempt) (next_backoff backoff)
          (next_backoff-ge backoff h) (omega (arith, h, enough))

  -- Starting up ends, whatever the registry answers and however long that takes: with the answer of the
  -- last of its attempts, of which all others have failed.
  pub fetch_registry_olts_with_retry-ends :
      (startup_timeout : ℕ)
      → (answer : Result FetchError Text) × (fetch_registry_olts_with_retry fetch duration oversleep
            startup_timeout
          ≡ some answer)
        × IsLast 0 answer
  unfolding fetch_registry_olts_with_retry
  fetch_registry_olts_with_retry-ends startup_timeout =
      retry-Ends (startup_timeout / second) startup_timeout 0 0 initial_backoff (omega arith)
        (omega arith)
