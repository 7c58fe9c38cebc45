-- ===== src/Trap/Power/Queued.antt =====
-- A scan raises an alert for every ONU that is due, and its event is queued for the next batch.
use snmp_olt_zte.Common.{ℕ, ◌≡◌, refl, List, [], ◌∷◌, ◌++◌, Text, ℤ, text_key}
use snmp_olt_zte.Trap.Batcher.{Floats, Batcher, add}
use snmp_olt_zte.Trap.Power.Readings.{readings, check_all}
use snmp_olt_zte.Trap.Power.{PowerMonitorConfig, PowerMonitor, Alert, Reading, Fetch}

-- The queues after the alerts are added.
add_alerts : List Alert → Batcher → Batcher
add_alerts [] b = b
add_alerts (a ∷ alerts) b = add_alerts alerts (add a.event b)

add_alerts-append :
    (xs ys : List Alert) (b : Batcher) → add_alerts (xs ++ ys) b ≡ add_alerts ys (add_alerts xs b)
unfolding add_alerts
add_alerts-append [] ys b = refl
add_alerts-append (x ∷ xs) ys b = add_alerts-append xs ys (add x.event b)

module _ (fl : Floats) (fixed : ℕ → fl.Float → Text) (config : PowerMonitorConfig fl)
    (clock : ℕ → ℤ) (fetch : Fetch) (before after : List Reading) (r : Reading) (m : PowerMonitor)
    (read : readings config fetch ≡ before ++ r ∷ after) where
  abbrev at_reading : PowerMonitor
  at_reading = check_all fl fixed config clock before m
