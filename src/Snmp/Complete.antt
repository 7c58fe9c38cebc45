-- ===== src/Snmp/Complete.antt =====
-- Every schedule of a new repository comes to its end.
use mathlib.Core.WellFounded.{Acc}
use snmp_olt_zte.Common.{ℕ, ◌≡◌, ◌⊎◌, Bool, Option, List, All, ℤ}
use snmp_olt_zte.Snmp.{System, absent, finished}
use snmp_olt_zte.Snmp.Moves.{count}
use snmp_olt_zte.Snmp.Invariant.{IsSound, move-IsSound}
use snmp_olt_zte.Snmp.Runs.{started, opened, Run-started-IsSound, here}
use snmp_olt_zte.Snmp.Progress.{Next, moved, moves-end}
use snmp_olt_zte.Snmp.Stuck.{IsReturned, Stuck, stuck-IsReturned}

-- Whichever goroutine moves at each step, after finitely many steps none can, and then `P` holds.
pub data Ends (P : System → Type 0) : System → Type 0 where
  ends : {s : System} → ((s' : System) → Next s' s → Ends P s') → (Stuck s → P s) → Ends P s

-- All operations have returned, and Close was not called, or it has returned and has closed the
-- connections, each as often as it was opened.
pub record IsComplete (conns : List ℕ) (s : System) : Type 0 where
  pub returned : All IsReturned s.ops
  pub closed :
      (s.closer ≡ absent)
      ⊎ ((s.closer ≡ finished) × ((c : ℕ) → count c s.repository.ended ≡ count c conns))

Next-IsSound : (conns : List ℕ) (s s' : System) → Next s' s → IsSound conns s → IsSound conns s'
Next-IsSound conns s s' (moved n e) v = move-IsSound conns n s s' e v

IsSound-Ends :
    (conns : List ℕ) (s : System) → Acc Next s → IsSound conns s → Ends (IsComplete conns) s
IsSound-Ends conns s (Acc.intro _ below) v =
    ends (λ s' m. IsSound-Ends conns s' (below s' m) (Next-IsSound conns s s' m v))
      λ stuck.
        let (all, closed) = stuck-IsReturned conns s v stuck in
        record { returned = all; closed = closed }

-- Whatever the order of the goroutines of a new repository, their moves come to an end, and then every
-- operation has returned, and Close was not called or it has closed every connection that was opened.
pub started-Ends :
    (seed : ℕ) (attempts : List (Option ℕ)) (max_concurrent : ℤ) (closes : Bool) (n : ℕ)
    → Ends (IsComplete (opened seed attempts)) (started seed attempts max_concurrent closes n)
started-Ends seed attempts max_concurrent closes n =
    IsSound-Ends (opened seed attempts) (started seed attempts max_concurrent closes n)
      (moves-end (started seed attempts max_concurrent closes n))
      (Run-started-IsSound seed attempts max_concurrent closes n here)
