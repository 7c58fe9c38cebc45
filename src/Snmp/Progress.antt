-- ===== src/Snmp/Progress.antt =====
-- No run of the pool goes on for ever.
use mathlib.Core.WellFounded.{Acc}
use mathlib.Core.Path.{subst}
use mathlib.Core.Option.{some-injective}
use snmp_olt_zte.Common.{
  ℕ, zero, suc, ◌+◌, ◌*◌, ◌<◌, ◌≡◌, refl, inl, inr, Option, none, some, List, [], ◌∷◌, arith,
  length, get_elem?, set, Option-cases,
}
use snmp_olt_zte.Snmp.{
  SnmpRepository, Op, op_step, drain, Closer, absent, called, stored, draining, finished,
  close_step, System, with_op, with_closer, move,
}
use snmp_olt_zte.Snmp.Moves.{total, total-set, rank, op_step-OpMoves}

-- The steps that Close has left, and a bound on those of the whole system.
abbrev closer_rank : Closer → ℕ
closer_rank absent = 0
closer_rank called = 3
closer_rank stored = 2
closer_rank draining = 1
closer_rank finished = 0

abbrev measure : System → ℕ
measure s = length s.repository.pool + 2 * total rank s.ops + closer_rank s.closer

with_op-lt :
    (s : System) (i : ℕ) (op : Op) (o : Option (Op × SnmpRepository)) (s' : System)
    → get_elem? s.ops i ≡ some op
    → op_step s.max op s.repository ≡ o
    → with_op i s o ≡ some s'
    → measure s' < measure s
with_op-lt s i op none s' at q e = ground arith
with_op-lt s i op (some (op', r')) s' at q e =
    subst (λ t. measure t < measure s)
      (some-injective (record s { ops = set s.ops i op'; repository = r' }) s' e)
      (omega (
        arith,
        (op_step-OpMoves s.max op s.repository op' r' q).shrinks,
        total-set rank s.ops i op op' at,
      ))

drain-lt :
    (s : System) (pool : List ℕ) (s' : System)
    → s.repository.pool ≡ pool
    → s.closer ≡ draining
    → with_closer s (drain pool s.repository) ≡ some s'
    → measure s' < measure s
drain-lt s [] s' p q e = ground arith
drain-lt s (conn ∷ rest) s' p q e = ground arith

close-lt :
    (s : System) (c : Closer) (s' : System)
    → s.closer ≡ c
    → with_closer s (close_step c s.repository) ≡ some s'
    → measure s' < measure s
unfolding close_step
close-lt s draining s' q e = drain-lt s s.repository.pool s' refl q e
close-lt s c s' q e = ground arith

pub move-lt : (n : ℕ) (s s' : System) → move n s ≡ some s' → measure s' < measure s
unfolding move
move-lt zero s s' e = close-lt s s.closer s' refl e
move-lt (suc i) s s' e = elim (Option-cases (get_elem? s.ops i)) [
  | inl gone ↦ absurd (let h : none ≡ some s' = rw gone at e in ground arith)
  | inr (op, at) ↦ with_op-lt s i op (op_step s.max op s.repository) s' at refl (rw at at e)
]

-- `Next s' s`: some goroutine's move takes `s` to `s'`.
pub data Next (s' s : System) : Type 0 where
  moved : (n : ℕ) → move n s ≡ some s' → Next s' s

Acc-below : (bound : ℕ) (s : System) → measure s < bound → Acc Next s
Acc-below zero s h = elim h [ ]
Acc-below (suc bound) s h = Acc.intro s λ s' m. Acc-below bound s' (shorter s' m)
  where
    shorter : (s' : System) → Next s' s → measure s' < bound
    shorter s' (moved n e) = omega (arith, move-lt n s s' e)

-- From any state every sequence of moves ends, whatever the goroutines' order.
pub moves-end : (s : System) → Acc Next s
moves-end s = Acc-below (suc (measure s)) s (omega arith)
