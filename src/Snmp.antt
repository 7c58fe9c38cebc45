-- ===== src/Snmp.antt =====
-- internal/repository/snmp.go: the pool of connections of an OLT. An operation (Get, Walk, BulkWalk)
-- is a goroutine that goes through the steps of `Op`; `op_step` is its next step, or none while it
-- is blocked. `close_step` is the goroutine that is in Close. The call of gosnmp on a connection is
-- one step, and a connection is a number.
pub mod Moves
pub mod Invariant
pub mod Runs
pub mod Progress
pub mod Stuck
pub mod Complete
use snmp_olt_zte.Common.{
  ℕ, zero, suc, ◌-◌, ◌==◌, Bool, true, false, Option, none, some, List, [], ◌∷◌, ◌++◌, ltb,
  if◌then◌else◌, length, get_elem?, set, ℤ, pos, pos_part, leb_ℤ,
}

-- DefaultPoolSize, the capacity of the channel, and DefaultMaxConcurrent.
abbrev pub default_pool_size : ℕ
default_pool_size = 4

abbrev pub default_max_concurrent : ℕ
default_max_concurrent = 5

abbrev pub default_max_repetitions : ℕ
default_max_repetitions = 20

-- What the goroutines share: the buffer of the channel `pool` and whether it is closed, the flag
-- `closed`, and the tokens in `sem`. `ended` holds the connections that were closed.
pub record SnmpRepository : Type 0 where
  pub pool : List ℕ
  pub pool_closed : Bool
  pub closed : Bool
  pub sem : ℕ
  pub ended : List ℕ

-- Before the send to `sem`; before the load of `closed` in acquire; at the receive; with a
-- connection, before the call returns; at the load in release; at the send; before the receive from
-- `sem`; and returned, with whether the call was made.
pub data Op : Type 0 where
  waiting admitted receiving : Op
  holding releasing sending : ℕ → Op
  leaving returned : Bool → Op

abbrev pub end : ℕ → SnmpRepository → SnmpRepository
end conn r = record r { ended = conn ∷ r.ended }

abbrev pub receive : List ℕ → SnmpRepository → Option (Op × SnmpRepository)
receive [] r = if r.pool_closed then some (leaving false, r) else none
receive (conn ∷ rest) r = some (holding conn, record r { pool = rest })

-- The next step of an operation. The send on a closed channel panics, and the recover closes the
-- connection.
unfoldable pub op_step : ℕ → Op → SnmpRepository → Option (Op × SnmpRepository)
op_step max waiting r =
    if ltb r.sem max then some (admitted, record r { sem = suc r.sem }) else none
op_step max admitted r = if r.closed then some (leaving false, r) else some (receiving, r)
op_step max receiving r = receive r.pool r
op_step max (holding conn) r = some (releasing conn, r)
op_step max (releasing conn) r =
    if r.closed then some (leaving true, end conn r) else some (sending conn, r)
op_step max (sending conn) r =
    if r.pool_closed
    then some (leaving true, end conn r)
    else if ltb (length r.pool) default_pool_size
    then some (leaving true, record r { pool = r.pool ++ conn ∷ [] })
    else none
op_step max (leaving made) r = some (returned made, record r { sem = r.sem - 1 })
op_step max (returned made) r = none

-- Close: not called; before the store to `closed`; before close(pool); in the loop; and returned.
-- `once` makes every other call a no-op.
pub data Closer : Type 0 where
  absent called stored draining finished : Closer

abbrev pub drain : List ℕ → SnmpRepository → Option (Closer × SnmpRepository)
drain [] r = some (finished, r)
drain (conn ∷ rest) r = some (draining, end conn (record r { pool = rest }))

unfoldable pub close_step : Closer → SnmpRepository → Option (Closer × SnmpRepository)
close_step absent r = none
close_step called r = some (stored, record r { closed = true })
close_step stored r = some (draining, record r { pool_closed = true })
close_step draining r = drain r.pool r
close_step finished r = none

pub record System : Type 0 where
  pub max : ℕ
  pub repository : SnmpRepository
  pub closer : Closer
  pub ops : List Op

abbrev pub with_closer : System → Option (Closer × SnmpRepository) → Option System
with_closer s none = none
with_closer s (some (closer, r)) = some (record s { closer = closer; repository = r })

abbrev pub with_op : ℕ → System → Option (Op × SnmpRepository) → Option System
with_op i s none = none
with_op i s (some (op, r)) = some (record s { ops = set s.ops i op; repository = r })

abbrev pub move_op : ℕ → System → Option Op → Option System
move_op i s none = none
move_op i s (some op) = with_op i s (op_step s.max op s.repository)

-- One goroutine moves: number 0 is Close, number i + 1 the operation i. `none`: it cannot move.
unfoldable pub move : ℕ → System → Option System
unfolding op_step close_step
move zero s = with_closer s (close_step s.closer s.repository)
move (suc i) s = move_op i s (get_elem? s.ops i)

-- The loop of NewPonRepositoryWithConcurrency over the results of createConnection: it breaks at
-- the first that fails.
unfoldable pub create_connections : ℕ → List (Option ℕ) → List ℕ
create_connections zero attempts = []
create_connections (suc n) [] = []
create_connections (suc n) (none ∷ attempts) = []
create_connections (suc n) (some conn ∷ attempts) = conn ∷ create_connections n attempts

unfoldable pub new_pon_repository : ℕ → List (Option ℕ) → SnmpRepository
unfolding create_connections
new_pon_repository seed attempts = record {
  pool = seed ∷ create_connections (default_pool_size - 1) attempts;
  pool_closed = false;
  closed = false;
  sem = 0;
  ended = [];
}

unfoldable pub max_concurrent_of : ℤ → ℕ
max_concurrent_of max_concurrent =
    if leb_ℤ max_concurrent (pos 0) then default_max_concurrent else pos_part max_concurrent

unfoldable pub max_repetitions_of : ℕ → ℕ
max_repetitions_of seed_repetitions =
    if seed_repetitions == 0 then default_max_repetitions else seed_repetitions
