-- ===== src/Snmp/Invariant.antt =====
-- Connections are neither lost nor shared nor closed twice, whatever the goroutines' order.
use snmp_olt_zte.Common.{
  ℕ, zero, suc, ◌+◌, ◌≤◌, ◌≡◌, ◌≢◌, refl, ap, ◌∙◌, inl, inr, true, false, Option, none, some, List,
  [], ◌∷◌, arith, length, get_elem?, set, Option-cases,
}
use mathlib.Core.Path.{subst}
use mathlib.Core.Option.{some-injective}
use snmp_olt_zte.Snmp.{
  SnmpRepository, Op, op_step, default_pool_size, end, drain, Closer, absent, called, stored,
  draining, finished, close_step, System, with_op, with_closer, move,
}
use snmp_olt_zte.Snmp.Moves.{
  total, total-set, total-ge, count, holds, holds_any, has_token, OpMoves, op_step-OpMoves,
}

-- The flags by the place of the goroutine in Close.
abbrev pub FlagsOf : Closer → SnmpRepository → Type 0
FlagsOf absent r = (r.closed ≡ false) × (r.pool_closed ≡ false) × (r.ended ≡ [])
FlagsOf called r = (r.closed ≡ false) × (r.pool_closed ≡ false) × (r.ended ≡ [])
FlagsOf stored r = (r.closed ≡ true) × (r.pool_closed ≡ false)
FlagsOf draining r = (r.closed ≡ true) × (r.pool_closed ≡ true)
FlagsOf finished r = (r.closed ≡ true) × (r.pool_closed ≡ true) × (r.pool ≡ [])

-- Every connection of `conns` is in the pool, with one operation, or closed, as often as it was
-- opened; `sem` counts the operations that run, at most `max`.
pub record IsSound (conns : List ℕ) (s : System) : Type 0 where
  pub kept :
      (c : ℕ)
      → count c s.repository.pool + total (holds c) s.ops + count c s.repository.ended
        ≡ count c conns
  pub sized :
      length s.repository.pool + total holds_any s.ops + length s.repository.ended ≡ length conns
  pub fits : length conns ≤ default_pool_size
  pub some_conn : 1 ≤ length conns
  pub tokens : s.repository.sem ≡ total has_token s.ops
  pub bounded : s.repository.sem ≤ s.max
  pub some_token : 1 ≤ s.max
  pub flags : FlagsOf s.closer s.repository

FlagsOf-op :
    (max : ℕ) (c : Closer) (op op' : Op) (r r' : SnmpRepository)
    → OpMoves max op op' r r'
    → FlagsOf c r
    → FlagsOf c r'
FlagsOf-op max absent op op' r r' m (h, k, e) =
    (m.closed_stays ∙ h, m.pool_closed_stays ∙ k, m.ends h k ∙ e)
FlagsOf-op max called op op' r r' m (h, k, e) =
    (m.closed_stays ∙ h, m.pool_closed_stays ∙ k, m.ends h k ∙ e)
FlagsOf-op max stored op op' r r' m (h, k) = (m.closed_stays ∙ h, m.pool_closed_stays ∙ k)
FlagsOf-op max draining op op' r r' m (h, k) = (m.closed_stays ∙ h, m.pool_closed_stays ∙ k)
FlagsOf-op max finished op op' r r' m (h, k, e) =
    (m.closed_stays ∙ h, m.pool_closed_stays ∙ k, m.stays_empty k e)

op-IsSound :
    (conns : List ℕ) (s : System) (i : ℕ) (op op' : Op) (r' : SnmpRepository)
    → get_elem? s.ops i ≡ some op
    → OpMoves s.max op op' s.repository r'
    → IsSound conns s
    → IsSound conns (record s { ops = set s.ops i op'; repository = r' })
op-IsSound conns s i op op' r' e m v = record {
  kept = λ c. omega (arith, m.kept c, v.kept c, total-set (holds c) s.ops i op op' e);
  sized = omega (arith, m.sized, v.sized, total-set holds_any s.ops i op op' e);
  fits = v.fits;
  some_conn = v.some_conn;
  tokens = omega (
    arith,
    m.tokens (omega (arith, total-ge has_token s.ops i op e, v.tokens)),
    v.tokens,
    total-set has_token s.ops i op op' e,
  );
  bounded = m.bounded v.bounded;
  some_token = v.some_token;
  flags = FlagsOf-op s.max s.closer op op' s.repository r' m v.flags;
}

-- A step of Close, from the connections that it moves and from the flags after it.
closer-IsSound :
    (conns : List ℕ) (s : System) (c' : Closer) (r' : SnmpRepository) (s' : System)
    → some (record s { closer = c'; repository = r' }) ≡ some s'
    → ((c : ℕ)
        → count c r'.pool + count c r'.ended
          ≡ count c s.repository.pool + count c s.repository.ended)
    → length r'.pool + length r'.ended ≡ length s.repository.pool + length s.repository.ended
    → r'.sem ≡ s.repository.sem
    → FlagsOf c' r'
    → IsSound conns s
    → IsSound conns s'
closer-IsSound conns s c' r' s' e moved sized same flags v =
    subst (IsSound conns) (some-injective (record s { closer = c'; repository = r' }) s' e)
      (record {
        kept = λ c. omega (arith, moved c, v.kept c);
        sized = omega (arith, sized, v.sized);
        fits = v.fits;
        some_conn = v.some_conn;
        tokens = same ∙ v.tokens;
        bounded = omega (arith, same, v.bounded);
        some_token = v.some_token;
        flags = flags;
      })

abbrev flags_at :
    (s : System) (c : Closer)
    → s.closer ≡ c
    → FlagsOf s.closer s.repository
    → FlagsOf c s.repository
flags_at s c q h = subst (λ x. FlagsOf x s.repository) q h

drain-IsSound :
    (conns : List ℕ) (s : System) (pool : List ℕ) (s' : System)
    → s.repository.pool ≡ pool
    → s.closer ≡ draining
    → with_closer s (drain pool s.repository) ≡ some s'
    → IsSound conns s
    → IsSound conns s'
unfolding count
drain-IsSound conns s [] s' p q e v =
    let (h, k) = flags_at s draining q v.flags in
    closer-IsSound conns s finished s.repository s' e (λ c. refl) refl refl (h, k, p) v
drain-IsSound conns s (conn ∷ rest) s' p q e v =
    let r = s.repository in
    let (h, k) = flags_at s draining q v.flags in
    closer-IsSound conns s draining (end conn (record r { pool = rest })) s' e
      (λ c.
        let moved : count c r.pool ≡ count c (conn ∷ rest) = ap (count c) p in omega (arith, moved))
      (omega (arith, ap (λ (xs : List ℕ). length xs) p)) refl (h, k) v

close-IsSound :
    (conns : List ℕ) (s : System) (c : Closer) (s' : System)
    → s.closer ≡ c
    → with_closer s (close_step c s.repository) ≡ some s'
    → IsSound conns s
    → IsSound conns s'
unfolding close_step
close-IsSound conns s absent s' q e v = ground arith
close-IsSound conns s called s' q e v =
    let (h, k, w) = flags_at s called q v.flags in
    closer-IsSound conns s stored (record (s.repository) { closed = true }) s' e (λ c. refl) refl
      refl (refl, k) v
close-IsSound conns s stored s' q e v =
    let (h, k) = flags_at s stored q v.flags in
    closer-IsSound conns s draining (record (s.repository) { pool_closed = true }) s' e (λ c. refl)
      refl refl (h, refl) v
close-IsSound conns s draining s' q e v = drain-IsSound conns s s.repository.pool s' refl q e v
close-IsSound conns s finished s' q e v = ground arith

with_op-IsSound :
    (conns : List ℕ) (s : System) (i : ℕ) (op : Op) (o : Option (Op × SnmpRepository)) (s' : System)
    → get_elem? s.ops i ≡ some op
    → op_step s.max op s.repository ≡ o
    → with_op i s o ≡ some s'
    → IsSound conns s
    → IsSound conns s'
with_op-IsSound conns s i op none s' at q e v = ground arith
with_op-IsSound conns s i op (some (op', r')) s' at q e v =
    subst (IsSound conns)
      (some-injective (record s { ops = set s.ops i op'; repository = r' }) s' e)
      (op-IsSound conns s i op op' r' at (op_step-OpMoves s.max op s.repository op' r' q) v)

none_ne_some : (s : System) → none ≢ some s
none_ne_some s e = ground arith

-- Whichever goroutine moves, the system stays sound.
pub move-IsSound :
    (conns : List ℕ) (n : ℕ) (s s' : System)
    → move n s ≡ some s'
    → IsSound conns s
    → IsSound conns s'
unfolding move
move-IsSound conns zero s s' e v = close-IsSound conns s s.closer s' refl e v
move-IsSound conns (suc i) s s' e v = elim (Option-cases (get_elem? s.ops i)) [
  | inl gone ↦ absurd (none_ne_some s' (rw gone at e))
  | inr (op, at) ↦
      with_op-IsSound conns s i op (op_step s.max op s.repository) s' at refl (rw at at e) v
]
