-- ===== src/Tests/Power.antt =====
-- The power monitor, with two ONUs of a high and a normal power, and whole numbers for floats.
use mathlib.Core.Path.{subst}
use snmp_olt_zte.Common.{
  ℕ, ◌*◌, ◌≡◌, ◌≢◌, refl, some, List, [], ◌∷◌, ◌++◌, arith, Text, codes, ℤ, pos, negsuc, ◌+ℤ◌, ◌≤ℤ◌,
  itoa, lookup, text_key, text_eq, atoi, All,
}
use mathlib.Core.Option.{some-injective}
use snmp_olt_zte.Model.{OnuInfoPerBoard}
use snmp_olt_zte.Trap.Batcher.{Batcher}
use snmp_olt_zte.Trap.Power.{
  PowerMonitorConfig, PowerMonitor, Alert, Reading, Fetch, normal, alert_interval, judge, scans,
}
use snmp_olt_zte.Trap.Power.Limiter.{IsMonotone, StaysAbnormal, AnswersAbnormal, scans-late}
use snmp_olt_zte.Tests.Traps.{whole}

abbrev fixed : ℕ → ℤ → Text
fixed n x = itoa x

abbrev config : PowerMonitorConfig whole
config = record {
  high_threshold = negsuc 7;
  low_threshold = negsuc 26;
  source = codes "olt";
  boards = pos 1 ∷ [];
  pons_per_board = pos 1;
}

-- A minute passes between two reads.
abbrev clock : ℕ → ℤ
clock n = pos (n * 60_000_000_000)

clock-IsMonotone : IsMonotone clock
clock-IsMonotone n = omega arith

abbrev onu : ℤ → Text → OnuInfoPerBoard
onu id power = record {
  board = pos 1;
  pon = pos 1;
  id = id;
  name = codes "ann";
  onu_type = [];
  serial_number = [];
  rx_power = power;
  status = codes "Online";
}

abbrev loud : OnuInfoPerBoard
loud = onu (pos 5) (codes "-3")

abbrev fetch : Fetch
fetch b p = some (loud ∷ [])

abbrev reading : OnuInfoPerBoard → Reading
reading o = record { board_id = pos 1; pon_id = pos 1; onu = o }

abbrev idle : PowerMonitor
idle = record { alerted = []; reads = 0; alerts = [] }

abbrev alerted : PowerMonitor
alerted = record { alerted = (codes "1-1-5", pos 0) ∷ []; reads = 1; alerts = [] }

loud-abnormal : (r : Reading) → r.onu ≡ loud → judge whole fixed config clock r ≢ normal
unfolding judge text_eq atoi
loud-abnormal r e h = ground arith

fetch-AnswersAbnormal :
    AnswersAbnormal whole fixed config clock clock-IsMonotone (codes "1-1-5") (pos 0) fetch
fetch-AnswersAbnormal b p onus e =
    subst
      (λ zs.
        All
          (λ o.
            StaysAbnormal whole fixed config clock clock-IsMonotone (codes "1-1-5") (pos 0)
              (record { board_id = b; pon_id = p; onu = o }))
          zs)
      (some-injective (loud ∷ []) onus e) ((λ _. loud-abnormal _ refl), tt)

scans-late_example :
    (new : List Alert) × ((scans whole fixed config clock (fetch ∷ fetch ∷ []) alerted).alerts
      ≡ alerted.alerts ++ new)
    × All (λ a. a.key ≡ codes "1-1-5" → pos 0 +ℤ alert_interval ≤ℤ a.at) new
unfolding lookup text_eq
scans-late_example =
    scans-late whole fixed config clock clock-IsMonotone (codes "1-1-5") (pos 0)
      (fetch ∷ fetch ∷ []) alerted refl (fetch-AnswersAbnormal, (fetch-AnswersAbnormal, tt))
