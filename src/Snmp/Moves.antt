-- ===== src/Snmp/Moves.antt =====
-- Totals over the operations of a system, and how a step changes them.
use snmp_olt_zte.Common.{
  ℕ, zero, suc, ◌+◌, ◌*◌, ◌<◌, ◌≤◌, ◌≡◌, refl, true, false, some, List, [], ◌∷◌, ◌++◌, arith, ◌==◌,
  if◌then◌else◌, length, length-append, get_elem?, set,
}
use snmp_olt_zte.Snmp.{
  SnmpRepository, Op, waiting, admitted, receiving, holding, releasing, sending, leaving, returned,
  op_step,
}

unfoldable pub total : (Op → ℕ) → List Op → ℕ
total f [] = 0
total f (op ∷ ops) = f op + total f ops

pub total-set :
    (f : Op → ℕ) (ops : List Op) (i : ℕ) (op op' : Op)
    → get_elem? ops i ≡ some op
    → total f (set ops i op') + f op ≡ total f ops + f op'
unfolding total
total-set f [] i op op' e = ground arith
total-set f (o ∷ ops) zero op op' e = ground arith
total-set f (o ∷ ops) (suc i) op op' e = omega (arith, total-set f ops i op op' e)

pub total-ge :
    (f : Op → ℕ) (ops : List Op) (i : ℕ) (op : Op) → get_elem? ops i ≡ some op → f op ≤ total f ops
unfolding total
total-ge f [] i op e = ground arith
total-ge f (o ∷ ops) zero op e = ground arith
total-ge f (o ∷ ops) (suc i) op e = omega (arith, total-ge f ops i op e)

unfoldable pub count : ℕ → List ℕ → ℕ
count c [] = 0
count c (x ∷ xs) = (if x == c then 1 else 0) + count c xs

pub count-append : (c : ℕ) (xs ys : List ℕ) → count c (xs ++ ys) ≡ count c xs + count c ys
unfolding count
count-append c [] ys = omega arith
count-append c (x ∷ xs) ys = omega (arith, count-append c xs ys)

-- How often an operation holds the connection: 0 or 1.
unfoldable pub holds : ℕ → Op → ℕ
holds c (holding conn) = if conn == c then 1 else 0
holds c (releasing conn) = if conn == c then 1 else 0
holds c (sending conn) = if conn == c then 1 else 0
holds c _ = 0

unfoldable pub holds_any : Op → ℕ
holds_any (holding conn) = 1
holds_any (releasing conn) = 1
holds_any (sending conn) = 1
holds_any _ = 0

-- Whether it has a token of `sem`.
unfoldable pub has_token : Op → ℕ
has_token waiting = 0
has_token (returned made) = 0
has_token _ = 1

-- The steps that are left.
unfoldable pub rank : Op → ℕ
rank waiting = 7
rank admitted = 6
rank receiving = 5
rank (holding conn) = 4
rank (releasing conn) = 3
rank (sending conn) = 2
rank (leaving made) = 1
rank (returned made) = 0

-- One step of an operation: connections move between pool, operation and `ended`, tokens between
-- operation and `sem`, and the rest stays.
pub record OpMoves (max : ℕ) (op op' : Op) (r r' : SnmpRepository) : Type 0 where
  pub kept :
      (c : ℕ)
      → count c r'.pool + holds c op' + count c r'.ended
        ≡ count c r.pool + holds c op + count c r.ended
  pub sized :
      length r'.pool + holds_any op' + length r'.ended
      ≡ length r.pool + holds_any op + length r.ended
  pub tokens : has_token op ≤ r.sem → r'.sem + has_token op ≡ r.sem + has_token op'
  pub closed_stays : r'.closed ≡ r.closed
  pub pool_closed_stays : r'.pool_closed ≡ r.pool_closed
  pub bounded : r.sem ≤ max → r'.sem ≤ max
  pub ends : r.closed ≡ false → r.pool_closed ≡ false → r'.ended ≡ r.ended
  pub stays_empty : r.pool_closed ≡ true → r.pool ≡ [] → r'.pool ≡ []
  pub shrinks : length r'.pool + 2 * rank op' < length r.pool + 2 * rank op

module _ (max : ℕ) where
  op_step-OpMoves_receive :
      (pool : List ℕ) (r : SnmpRepository) (op' : Op) (r' : SnmpRepository)
      → r.pool ≡ pool
      → op_step max receiving r ≡ some (op', r')
      → OpMoves max receiving op' r r'
  unfolding op_step count holds holds_any has_token rank
  op_step-OpMoves_receive [] r op' r' q e = ground arith
  op_step-OpMoves_receive (conn ∷ rest) r op' r' q e = ground arith

  op_step-OpMoves_send :
      (conn : ℕ) (r : SnmpRepository) (op' : Op) (r' : SnmpRepository)
      → op_step max (sending conn) r ≡ some (op', r')
      → OpMoves max (sending conn) op' r r'
  unfolding op_step count holds holds_any has_token rank
  op_step-OpMoves_send conn r op' r' e = record {
    kept = λ c. ground (arith, count-append c r.pool (conn ∷ []));
    sized = ground (arith, length-append r.pool (conn ∷ []));
    tokens = λ h. ground arith;
    closed_stays = ground arith;
    pool_closed_stays = ground arith;
    bounded = λ h. ground arith;
    ends = λ h k. ground arith;
    stays_empty = λ h k. ground arith;
    shrinks = ground (arith, length-append r.pool (conn ∷ []));
  }

  pub op_step-OpMoves :
      (op : Op) (r : SnmpRepository) (op' : Op) (r' : SnmpRepository)
      → op_step max op r ≡ some (op', r')
      → OpMoves max op op' r r'
  unfolding op_step count holds holds_any has_token rank
  op_step-OpMoves waiting r op' r' e = ground arith
  op_step-OpMoves admitted r op' r' e = ground arith
  op_step-OpMoves receiving r op' r' e = op_step-OpMoves_receive r.pool r op' r' refl e
  op_step-OpMoves (sending conn) r op' r' e = op_step-OpMoves_send conn r op' r' e
  op_step-OpMoves op r op' r' e = ground arith
