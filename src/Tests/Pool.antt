-- ===== src/Tests/Pool.antt =====
-- The pool of an OLT with two connections and three operations, and a call of Close.
use snmp_olt_zte.Common.{
  ℕ, zero, suc, ◌≡◌, ◌⊎◌, refl, true, false, Option, none, some, List, [], ◌∷◌, pos, All,
}
use snmp_olt_zte.Snmp.{
  Op, admitted, holding, returned, waiting, absent, finished, System, move, op_step,
}
use snmp_olt_zte.Snmp.Moves.{count}
use snmp_olt_zte.Snmp.Invariant.{IsSound}
use snmp_olt_zte.Snmp.Runs.{started, opened, Run, here, next, Run-started-IsSound}
use snmp_olt_zte.Snmp.Complete.{Ends, IsComplete, started-Ends}
use snmp_olt_zte.Snmp.Stuck.{IsReturned, Stuck, stuck-IsReturned}

-- Connection 10 is the seed, 11 the one that is created before an attempt fails.
abbrev attempts : List (Option ℕ)
attempts = some 11 ∷ none ∷ some 12 ∷ []

abbrev start : System
start = started 10 attempts (pos 2) true 3

-- After three moves of operation 0.
abbrev in_use : System
in_use = record start {
  repository = record (start.repository) { pool = 11 ∷ []; sem = 1 };
  ops = holding 10 ∷ waiting ∷ waiting ∷ [];
}

in_use-Run : Run start in_use
unfolding started snmp_olt_zte.Snmp.new_pon_repository snmp_olt_zte.Snmp.max_concurrent_of move
    op_step
in_use-Run = next 1 (next 1 (next 1 here refl) refl) refl

Run-started-IsSound_example : IsSound (opened 10 attempts) in_use
Run-started-IsSound_example = Run-started-IsSound 10 attempts (pos 2) true 3 {t = in_use} in_use-Run

started-Ends_example : Ends (IsComplete (opened 10 attempts)) (started 10 attempts (pos 2) true 3)
started-Ends_example = started-Ends 10 attempts (pos 2) true 3

-- A pool that is closed before its one operation has a token.
abbrev rest : System
rest = record {
  max = 2;
  repository = record {
    pool = [];
    pool_closed = true;
    closed = true;
    sem = 0;
    ended = 11 ∷ 10 ∷ [];
  };
  closer = finished;
  ops = returned false ∷ [];
}

closed-Run :
    {s : System}
    → Run (started 10 attempts (pos 2) true 1) s
    → move 1 s
      ≡ some
          (record rest { repository = record (rest.repository) { sem = 1 }; ops = admitted ∷ [] })
    → Run (started 10 attempts (pos 2) true 1) rest
unfolding move op_step
closed-Run r e = next 1 (next 1 (next 1 r e) refl) refl

rest-Run : Run (started 10 attempts (pos 2) true 1) rest
unfolding started snmp_olt_zte.Snmp.new_pon_repository snmp_olt_zte.Snmp.max_concurrent_of move
    op_step snmp_olt_zte.Snmp.close_step
rest-Run =
    closed-Run (next 0 (next 0 (next 0 (next 0 (next 0 here refl) refl) refl) refl) refl) refl

rest-Stuck : Stuck rest
unfolding move op_step started
rest-Stuck zero = refl
rest-Stuck (suc zero) = refl
rest-Stuck (suc (suc i)) = refl

stuck-IsReturned_example :
    All IsReturned rest.ops
    × ((rest.closer ≡ absent)
        ⊎ ((rest.closer ≡ finished)
            × ((c : ℕ) → count c rest.repository.ended ≡ count c (opened 10 attempts))))
stuck-IsReturned_example =
    stuck-IsReturned (opened 10 attempts) rest
      (Run-started-IsSound 10 attempts (pos 2) true 1 {t = rest} rest-Run) rest-Stuck
