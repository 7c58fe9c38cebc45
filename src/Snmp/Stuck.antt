-- ===== src/Snmp/Stuck.antt =====
-- No run of the pool gets stuck before every operation has returned.
use snmp_olt_zte.Common.{
  ℕ, suc, ◌≤◌, ◌≡◌, ◌≢◌, refl, sym, ap, ◌∙◌, ◌⊎◌, inl, inr, Bool, true, false, Option, none, some,
  List, [], ◌∷◌, arith, length, get_elem?, All,
}
use snmp_olt_zte.Snmp.{
  SnmpRepository, Op, waiting, admitted, receiving, holding, releasing, sending, leaving, returned,
  op_step, receive, default_pool_size, drain, Closer, absent, called, stored, draining, finished,
  close_step, System, with_op, with_closer, move,
}
use snmp_olt_zte.Snmp.Moves.{total, total-ge, count, holds, holds_any, has_token}
use snmp_olt_zte.Snmp.Invariant.{IsSound, FlagsOf}

-- Why an operation cannot move.
data Blocked (max : ℕ) (op : Op) (r : SnmpRepository) : Type 0 where
  done : (made : Bool) → op ≡ returned made → Blocked max op r
  no_token : op ≡ waiting → max ≤ r.sem → Blocked max op r
  no_conn : op ≡ receiving → r.pool ≡ [] → r.pool_closed ≡ false → Blocked max op r
  full : (conn : ℕ) → op ≡ sending conn → default_pool_size ≤ length r.pool → Blocked max op r

op_step-Blocked-receive :
    (max : ℕ) (pool : List ℕ) (r : SnmpRepository)
    → r.pool ≡ pool
    → receive pool r ≡ none
    → Blocked max receiving r
op_step-Blocked-receive max [] r p e = no_conn refl p (ground arith)
op_step-Blocked-receive max (conn ∷ rest) r p e = ground arith

op_step-Blocked :
    (max : ℕ) (op : Op) (r : SnmpRepository) → op_step max op r ≡ none → Blocked max op r
unfolding op_step
op_step-Blocked max waiting r e = no_token refl (ground arith)
op_step-Blocked max admitted r e = ground arith
op_step-Blocked max receiving r e = op_step-Blocked-receive max r.pool r refl e
op_step-Blocked max (holding conn) r e = ground arith
op_step-Blocked max (releasing conn) r e = ground arith
op_step-Blocked max (sending conn) r e = full conn refl (ground arith)
op_step-Blocked max (leaving made) r e = ground arith
op_step-Blocked max (returned made) r e = done made refl

abbrev pub IsReturned : Op → Type 0
IsReturned op = (made : Bool) × (op ≡ returned made)

-- No goroutine can move.
abbrev pub Stuck : System → Type 0
Stuck s = (n : ℕ) → move n s ≡ none

op-Blocked :
    (s : System) (i : ℕ) (op : Op)
    → Stuck s
    → get_elem? s.ops i ≡ some op
    → Blocked s.max op s.repository
unfolding move
op-Blocked s i op stuck at =
    op_step-Blocked s.max op s.repository
      (with_op-none i s (op_step s.max op s.repository) (rw at at (stuck (suc i))))
  where
    with_op-none :
        (i : ℕ) (s : System) (o : Option (Op × SnmpRepository)) → with_op i s o ≡ none → o ≡ none
    with_op-none i s none e = refl
    with_op-none i s (some x) e = ground arith

-- A predicate of all operations from one of each position.
All-of_get {ℓ} :
    (P : Op → Type ℓ) (ops : List Op)
    → ((i : ℕ) (op : Op) → get_elem? ops i ≡ some op → P op)
    → All P ops
All-of_get P [] h = tt
All-of_get P (op ∷ ops) h = (h 0 op refl, All-of_get P ops (λ i op' e. h (suc i) op' e))

total-zero :
    (f : Op → ℕ) (ops : List Op)
    → ((i : ℕ) (op : Op) → get_elem? ops i ≡ some op → f op ≡ 0)
    → total f ops ≡ 0
unfolding total
total-zero f [] h = refl
total-zero f (op ∷ ops) h =
    let first : f op ≡ 0 = h 0 op refl in
    omega (arith, first, total-zero f ops (λ i op' e. h (suc i) op' e))

data CloserStuck (s : System) : Type 0 where
  uncalled :
      s.closer ≡ absent → s.repository.pool_closed ≡ false → s.repository.ended ≡ [] → CloserStuck s
  completed :
      s.closer ≡ finished → s.repository.pool_closed ≡ true → s.repository.pool ≡ [] → CloserStuck s

drain-some : (s : System) (pool : List ℕ) → with_closer s (drain pool s.repository) ≢ none
drain-some s [] e = ground arith
drain-some s (conn ∷ rest) e = ground arith

closer-stuck :
    (s : System) (c : Closer)
    → s.closer ≡ c
    → with_closer s (close_step c s.repository) ≡ none
    → FlagsOf c s.repository
    → CloserStuck s
unfolding close_step
closer-stuck s absent q e (h, k, w) = uncalled q k w
closer-stuck s called q e w = ground arith
closer-stuck s stored q e w = ground arith
closer-stuck s draining q e w = absurd (drain-some s s.repository.pool e)
closer-stuck s finished q e (h, k, w) = completed q k w

module _ (conns : List ℕ) (s : System) (v : IsSound conns s) (stuck : Stuck s) where
  closer-CloserStuck : CloserStuck s
  unfolding move
  closer-CloserStuck = closer-stuck s s.closer refl (stuck 0) v.flags

  -- A send is never blocked: the buffer has room for every connection that is out.
  never-full :
      (i : ℕ) (op : Op) (conn : ℕ)
      → get_elem? s.ops i ≡ some op
      → op ≡ sending conn
      → default_pool_size ≤ length s.repository.pool
      → ⊥
  unfolding holds_any
  never-full i op conn at e h =
      let one : holds_any op ≡ 1 = rw e refl in
      omega (arith, one, h, total-ge holds_any s.ops i op at, v.sized, v.fits)

  holds_any-Blocked :
      (i : ℕ) (op : Op)
      → get_elem? s.ops i ≡ some op
      → Blocked s.max op s.repository
      → holds_any op ≡ 0
  unfolding holds_any
  holds_any-Blocked i op at (done made e) = rw e refl
  holds_any-Blocked i op at (no_token e h) = rw e refl
  holds_any-Blocked i op at (no_conn e h k) = rw e refl
  holds_any-Blocked i op at (full conn e h) = absurd (never-full i op conn at e h)

  none-held : total holds_any s.ops ≡ 0
  none-held =
      total-zero holds_any s.ops (λ i op at. holds_any-Blocked i op at (op-Blocked s i op stuck at))

  -- With an open channel and no connection out, the pool has one.
  no-conn-absurd : s.repository.pool ≡ [] → s.repository.pool_closed ≡ false → ⊥
  no-conn-absurd empty open_channel = elim closer-CloserStuck [
    | uncalled q k w ↦ omega (
      arith,
      none-held,
      v.sized,
      v.some_conn,
      ap (λ (xs : List ℕ). length xs) w,
      ap (λ (xs : List ℕ). length xs) empty,
    )
    | completed q k w ↦ let h : true ≡ false = sym k ∙ open_channel in cc
  ]

  has_token-Blocked :
      (i : ℕ) (op : Op)
      → get_elem? s.ops i ≡ some op
      → Blocked s.max op s.repository
      → has_token op ≡ 0
  unfolding has_token
  has_token-Blocked i op at (done made e) = rw e refl
  has_token-Blocked i op at (no_token e h) = rw e refl
  has_token-Blocked i op at (no_conn e h k) = absurd (no-conn-absurd h k)
  has_token-Blocked i op at (full conn e h) = absurd (never-full i op conn at e h)

  all-IsReturned : (i : ℕ) (op : Op) → get_elem? s.ops i ≡ some op → IsReturned op
  all-IsReturned i op at = elim (op-Blocked s i op stuck at) [
    | done made e ↦ (made, e)
    | no_token e h ↦ absurd (
        omega (
          arith,
          h,
          v.tokens,
          v.some_token,
          total-zero has_token s.ops (λ j o w. has_token-Blocked j o w (op-Blocked s j o stuck w)),
        ))
    | no_conn e h k ↦ absurd (no-conn-absurd h k)
    | full conn e h ↦ absurd (never-full i op conn at e h)
  ]

  none-held_of : (c : ℕ) → total (holds c) s.ops ≡ 0
  unfolding holds
  none-held_of c =
      total-zero (holds c) s.ops λ i op at. let (made, e) = all-IsReturned i op at in rw e refl

  -- Where no goroutine can move, every operation has returned; and Close was not called, or it has
  -- returned and every connection that was opened is closed, as often as it was opened.
  pub stuck-IsReturned :
      All IsReturned s.ops
      × ((s.closer ≡ absent)
          ⊎ ((s.closer ≡ finished) × ((c : ℕ) → count c s.repository.ended ≡ count c conns)))
  stuck-IsReturned = (
    All-of_get IsReturned s.ops all-IsReturned,
    elim closer-CloserStuck [
      | uncalled q k w ↦ inl q
      | completed q k w ↦ inr (
        q,
        λ c.
            let empty : count c s.repository.pool ≡ 0 = rw w (unfold count in refl) in
            omega (arith, v.kept c, none-held_of c, empty),
      )
    ],
  )
