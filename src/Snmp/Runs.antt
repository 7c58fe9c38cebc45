-- ===== src/Snmp/Runs.antt =====
-- Runs of a new repository: any number of operations, in any order, with a call of Close or without.
use snmp_olt_zte.Common.{
  ℕ, zero, suc, ◌+◌, ◌≤◌, ◌≡◌, ◌≢◌, refl, sym, ap, Bool, true, false, Option, none, some, List, [],
  ◌∷◌, arith, if◌then◌else◌, length, get_elem?, replicate, ℤ,
}
use snmp_olt_zte.Snmp.{
  Op, waiting, absent, called, System, move, create_connections, new_pon_repository,
  max_concurrent_of,
}
use snmp_olt_zte.Snmp.Moves.{total, total-ge, count, holds, holds_any, has_token}
use snmp_olt_zte.Snmp.Invariant.{IsSound, FlagsOf, move-IsSound}

-- A number of operations that are about to start, and Close if it is to be called.
unfoldable pub started : ℕ → List (Option ℕ) → ℤ → Bool → ℕ → System
started seed attempts max_concurrent closes n = record {
  max = max_concurrent_of max_concurrent;
  repository = new_pon_repository seed attempts;
  closer = if closes then called else absent;
  ops = replicate n waiting;
}

-- The connections that the constructor opens.
abbrev pub opened : ℕ → List (Option ℕ) → List ℕ
opened seed attempts = (new_pon_repository seed attempts).pool

pub data Run (s : System) : System → Type 0 where
  here : Run s s
  next : {t u : System} (n : ℕ) → Run s t → move n t ≡ some u → Run s u

total-waiting : (f : Op → ℕ) (n : ℕ) → f waiting ≡ 0 → total f (replicate n waiting) ≡ 0
unfolding total
total-waiting f zero h = refl
total-waiting f (suc n) h = omega (arith, total-waiting f n h)

length-create : (n : ℕ) (attempts : List (Option ℕ)) → length (create_connections n attempts) ≤ n
unfolding create_connections
length-create zero attempts = omega arith
length-create (suc n) [] = omega arith
length-create (suc n) (none ∷ attempts) = omega arith
length-create (suc n) (some conn ∷ attempts) = omega (arith, length-create n attempts)

max_concurrent_pos : (n : ℤ) → 1 ≤ max_concurrent_of n
unfolding max_concurrent_of
max_concurrent_pos n = ground arith

started-flags :
    (closes : Bool) (seed : ℕ) (attempts : List (Option ℕ))
    → FlagsOf (if closes then called else absent) (new_pon_repository seed attempts)
unfolding new_pon_repository
started-flags true seed attempts = (refl, refl, refl)
started-flags false seed attempts = (refl, refl, refl)

started-IsSound :
    (seed : ℕ) (attempts : List (Option ℕ)) (max_concurrent : ℤ) (closes : Bool) (n : ℕ)
    → IsSound (opened seed attempts) (started seed attempts max_concurrent closes n)
unfolding started new_pon_repository count holds holds_any has_token
started-IsSound seed attempts max_concurrent closes n = record {
  kept = λ c. omega (arith, total-waiting (holds c) n refl);
  sized = omega (arith, total-waiting holds_any n refl);
  fits = omega (arith, length-create 3 attempts);
  some_conn = omega arith;
  tokens = sym (total-waiting has_token n refl);
  bounded = omega arith;
  some_token = max_concurrent_pos max_concurrent;
  flags = started-flags closes seed attempts;
}

Run-IsSound : (conns : List ℕ) {s t : System} → IsSound conns s → Run s t → IsSound conns t
Run-IsSound conns v here = v
Run-IsSound conns v (next {t} {u} n r e) = move-IsSound conns n t u e (Run-IsSound conns v r)

-- At any time every connection that was opened is in the pool, with one operation or closed, at
-- most `max_concurrent` operations run, and the flags are as Close has set them.
pub Run-started-IsSound :
    (seed : ℕ) (attempts : List (Option ℕ)) (max_concurrent : ℤ) (closes : Bool) (n : ℕ)
    {t : System}
    → Run (started seed attempts max_concurrent closes n) t
    → IsSound (opened seed attempts) t
Run-started-IsSound seed attempts max_concurrent closes n r =
    Run-IsSound (opened seed attempts) (started-IsSound seed attempts max_concurrent closes n) r

total-two :
    (f : Op → ℕ) (ops : List Op) (i j : ℕ) (op op' : Op)
    → get_elem? ops i ≡ some op
    → get_elem? ops j ≡ some op'
    → i ≢ j
    → f op + f op' ≤ total f ops
unfolding total
total-two f [] i j op op' e e' d = ground arith
total-two f (o ∷ ops) zero zero op op' e e' d = absurd (d refl)
total-two f (o ∷ ops) zero (suc j) op op' e e' d = ground (arith, total-ge f ops j op' e')
total-two f (o ∷ ops) (suc i) zero op op' e e' d = ground (arith, total-ge f ops i op e)
total-two f (o ∷ ops) (suc i) (suc j) op op' e e' d =
    omega (arith, total-two f ops i j op op' e e' (λ q. d (ap suc q)))

-- A connection that one operation holds is not in the pool, not closed, and with no other
-- operation, if the connections that were opened are different ones.
pub held_alone :
    (conns : List ℕ) (t : System) (c i : ℕ) (op : Op)
    → IsSound conns t
    → ((x : ℕ) → count x conns ≤ 1)
    → get_elem? t.ops i ≡ some op
    → holds c op ≡ 1
    → (count c t.repository.pool ≡ 0)
      × (count c t.repository.ended ≡ 0)
      × ((j : ℕ) (op' : Op) → get_elem? t.ops j ≡ some op' → j ≢ i → holds c op' ≡ 0)
held_alone conns t c i op v once e h = (
  omega (arith, v.kept c, once c, total-ge (holds c) t.ops i op e),
  omega (arith, v.kept c, once c, total-ge (holds c) t.ops i op e),
  λ j op' e' d.
      omega (arith, v.kept c, once c, total-two (holds c) t.ops i j op op' e e' (λ q. d (sym q))),
)
