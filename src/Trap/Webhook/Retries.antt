-- ===== src/Trap/Webhook/Retries.antt =====
-- The posts and the sleeps of a delivery.
use native.Mathlib.Nat.{pow-le-pow_right}
use snmp_olt_zte.Common.{
  wrap64_lem, ltb, ◌*ℤ◌, ℕ, zero, suc, ◌+◌, ◌*◌, ◌^◌, ◌≤◌, ◌<◌, ℤ, ◌≡◌, refl, ap, sym, ◌∙◌, ◌⊎◌,
  inl, inr, Bool-cases, ltb_ℤ, if◌then◌else◌, true, false, Option, arith, pos,
}
use snmp_olt_zte.Trap.Webhook.{
  power_duration, Delivery, second, backoff, is_success, send_attempts, send_payload,
}

-- The sleeps before `n` attempts from `attempt` on.
total_backoff : (ℕ → ℤ) → ℕ → ℕ → ℕ
total_backoff huge attempt zero = 0
total_backoff huge attempt (suc n) = backoff huge attempt + total_backoff huge (suc attempt) n

duration_product : (n : ℕ) → pos n *ℤ pos second ≡ pos (n * second)
unfolding ◌*ℤ◌
duration_product n = ground arith

power_second-fits : (n : ℕ) → n ≤ 33 → suc (2 ^ n * second) ≤ 2 ^ 63
power_second-fits n h =
    let le : 2 ^ n ≤ 2 ^ 33 = pow-le-pow_right (omega arith) h in omega (arith, le)

-- The durations of up to 34 sleeps fit 64 bits.
backoff-fits : (huge : ℕ → ℤ) (n : ℕ) → n ≤ 33 → backoff huge (suc n) ≡ 2 ^ n * second
unfolding backoff power_duration
backoff-fits huge n h =
    let small : ltb n 63 ≡ true = ground arith in
    rw (small, duration_product (2 ^ n), wrap64_lem (pos (2 ^ n * second)) (power_second-fits n h))
      refl

zero_add : (n : ℕ) → 0 + n ≡ n
zero_add n = omega arith

sum_zero : (k : ℕ) → k ≡ k + 0
sum_zero k = omega arith

sum_suc : (k n : ℕ) → suc k + n ≡ k + suc n
sum_suc k n = omega arith

total_backoff-power :
    (huge : ℕ → ℤ) (k n : ℕ)
    → k + n ≤ 34
    → total_backoff huge (suc k) n + 2 ^ k * second ≡ 2 ^ (k + n) * second
unfolding total_backoff
total_backoff-power huge k zero h =
    let moved : 2 ^ k * second ≡ 2 ^ (k + 0) * second = ap (λ e. 2 ^ e * second) (sum_zero k) in
    omega (arith, moved)
total_backoff-power huge k (suc n) h =
    let moved : 2 ^ (suc k + n) * second ≡ 2 ^ (k + suc n) * second =
      ap (λ e. 2 ^ e * second) (sum_suc k n) in
    omega (
      arith,
      total_backoff-power huge (suc k) n (omega arith),
      backoff-fits huge k (omega arith),
      moved,
    )

Nat-split : (i n : ℕ) → i ≤ n → (i < n) ⊎ (i ≡ n)
Nat-split i n h = ground arith

Nat-bound : (n k : ℕ) → (n ≤ k) ⊎ (k < n)
Nat-bound n k = ground arith

module _ (post : ℕ → Option ℕ) where
  -- None of `n` attempts from `attempt` on is answered with 2xx.
  abbrev pub AllFail : ℕ → ℕ → Type 0
  AllFail attempt n = (i : ℕ) → i < n → is_success (post (attempt + i)) ≡ false

  AllFail-tail : (attempt n : ℕ) → AllFail attempt (suc n) → AllFail (suc attempt) n
  AllFail-tail attempt n h i lt =
      ap (λ a. is_success (post a)) (omega arith) ∙ h (suc i) (omega arith)

  AllFail-head : (attempt n : ℕ) → AllFail attempt (suc n) → is_success (post attempt) ≡ false
  AllFail-head attempt n h = ap (λ a. is_success (post a)) (omega arith) ∙ h 0 (omega arith)

  AllFail-snoc : (n : ℕ) → AllFail 0 n → is_success (post n) ≡ false → AllFail 0 (suc n)
  AllFail-snoc n h last i lt = elim (Nat-split i n (omega arith)) [
    | inl below ↦ h i below
    | inr same ↦ ap (λ a. is_success (post a)) (zero_add i ∙ same) ∙ last
  ]

module _ (huge : ℕ → ℤ) (post : ℕ → Option ℕ) where
  send_attempts-hit :
      (rounds attempt n : ℕ)
      → n < rounds
      → AllFail post attempt n
      → is_success (post (attempt + n)) ≡ true
      → send_attempts huge post rounds attempt
        ≡ record { sent = true; posts = suc n; slept = total_backoff huge attempt (suc n) }
  unfolding send_attempts total_backoff
  send_attempts-hit zero attempt n lt fails hit = elim lt [ ]
  send_attempts-hit (suc rounds) attempt zero lt fails hit =
      rw (ap (λ a. is_success (post a)) (sum_zero attempt) ∙ hit) (
        ap {B = Delivery} (λ t. record { sent = true; posts = 1; slept = t })
          (sum_zero (backoff huge attempt)))
  send_attempts-hit (suc rounds) attempt (suc n) lt fails hit =
      let rest =
        send_attempts-hit rounds (suc attempt) n (omega arith) (AllFail-tail post attempt n fails)
          (ap (λ a. is_success (post a)) (sum_suc attempt n) ∙ hit) in
      rw (AllFail-head post attempt n fails, rest) refl

  send_attempts-miss :
      (rounds attempt : ℕ)
      → AllFail post attempt rounds
      → send_attempts huge post rounds attempt
        ≡ record { sent = false; posts = rounds; slept = total_backoff huge attempt rounds }
  unfolding send_attempts total_backoff
  send_attempts-miss zero attempt fails = refl
  send_attempts-miss (suc rounds) attempt fails =
      rw
        (
          AllFail-head post attempt rounds fails,
          send_attempts-miss rounds (suc attempt) (AllFail-tail post attempt rounds fails),
        )
        refl

  sleeps : (n : ℕ) → (total_backoff huge 0 (suc n) + second ≡ 2 ^ n * second) ⊎ (34 < n)
  unfolding total_backoff backoff
  sleeps n = elim (Nat-bound n 34) [
    | inr more ↦ inr more
    | inl few ↦
        let moved : 2 ^ (0 + n) * second ≡ 2 ^ n * second = ap (λ e. 2 ^ e * second) (zero_add n) in
        inl (omega (arith, total_backoff-power huge 0 n (omega arith), moved))
  ]

  rounds_of : (max_retries : ℕ) → ltb_ℤ (pos max_retries) (pos 0) ≡ false
  rounds_of max_retries = ground arith

  send_payload-attempts :
      (max_retries : ℕ)
      → send_payload huge post (pos max_retries) ≡ send_attempts huge post (suc max_retries) 0
  unfolding send_payload
  send_payload-attempts max_retries =
      ap (λ b. send_attempts huge post (if b then 0 else suc max_retries) 0) (rounds_of max_retries)

  -- A payload is posted until an answer is 2xx, and at most `max_retries` + 1 times: if the posts
  -- before number `n` have failed, and that one has not or is the last one, then it is the last one,
  -- it decides whether the payload is sent, and all sleeps are 2^n - 1 seconds if n is at most 34.
  pub send_payload_lem :
      (max_retries n : ℕ)
      → n ≤ max_retries
      → AllFail post 0 n
      → (is_success (post n) ≡ true) ⊎ (n ≡ max_retries)
      → ((send_payload huge post (pos max_retries)).sent ≡ is_success (post n))
        × ((send_payload huge post (pos max_retries)).posts ≡ suc n)
        × (((send_payload huge post (pos max_retries)).slept + second ≡ 2 ^ n * second) ⊎ (34 < n))
  send_payload_lem max_retries n le fails last = elim (Bool-cases (is_success (post n))) [
    | inl hit ↦
        rw
          (send_payload-attempts max_retries
            ∙ send_attempts-hit (suc max_retries) 0 n (omega arith) fails
                (ap (λ a. is_success (post a)) (zero_add n) ∙ hit))
          (sym hit, refl, sleeps n)
    | inr miss ↦
        let same : n ≡ max_retries = ground (arith, last, miss) in
        rw
          (ap (λ m. send_payload huge post (pos m)) (sym same)
            ∙ (send_payload-attempts n
                ∙ send_attempts-miss (suc n) 0 (AllFail-snoc post n fails miss)))
          (sym miss, refl, sleeps n)
  ]
