-- ===== src/Trap/Power.antt =====
-- internal/trap/power_monitor.go: the scan of the RX powers and the suppression of repeated alerts.
-- The clock is a function of the number of its reads, and the monitor counts them. The cron library,
-- the ticker and the recovery from a panic only decide when a scan runs.
pub mod Cases
pub mod Limiter
pub mod Readings
pub mod Raised
pub mod Queued
use snmp_olt_zte.Common.{
  ℕ, zero, suc, ◌+◌, ◌*◌, Bool, true, false, Option, none, some, List, [], ◌∷◌, ◌++◌, if◌then◌else◌,
  Text, codes, text_eq, ℤ, pos, ◌-ℤ◌, pos_part, ltb_ℤ, itoa, Map, lookup, insert, delete, text_key,
}
use snmp_olt_zte.Model.{OnuInfoPerBoard, TrapEvent}
use snmp_olt_zte.Trap.Batcher.{Floats, Batcher, add}

pub record PowerMonitorConfig (fl : Floats) : Type 0 where
  pub high_threshold : fl.Float
  pub low_threshold : fl.Float
  pub source : Text
  pub boards : List ℤ
  pub pons_per_board : ℤ

-- A call of sendAlert: its event, and the key and time under which the ONU is now in `alerted`.
pub record Alert : Type 0 where
  pub key : Text
  pub at : ℤ
  pub event : TrapEvent

pub record PowerMonitor : Type 0 where
  pub alerted : Map Text ℤ
  pub reads : ℕ
  pub alerts : List Alert

-- One ONU of the list of a port.
pub record Reading : Type 0 where
  pub board_id : ℤ
  pub pon_id : ℤ
  pub onu : OnuInfoPerBoard

-- 30*time.Minute
abbrev pub alert_interval : ℤ
alert_interval = pos (30 * 60 * 1_000_000_000)

abbrev pub alert_key : Reading → Text
alert_key r = itoa r.board_id ++ b'-' ∷ (itoa r.pon_id ++ b'-' ∷ itoa r.onu.id)

-- What a scan makes of a power.
pub data Judgement : Type 0 where
  skipped : Judgement
  normal : Judgement
  abnormal : Text → Text → Judgement

abbrev pub scanned_boards : List ℤ → List ℤ
scanned_boards [] = pos 1 ∷ pos 2 ∷ []
scanned_boards (b ∷ bs) = b ∷ bs

abbrev pub scanned_pons : ℤ → ℕ
scanned_pons n = if ltb_ℤ n (pos 1) then 16 else pos_part n

-- GetByBoardIDAndPonID; `none` is its error.
abbrev pub Fetch : Type 0
Fetch = ℤ → ℤ → Option (List OnuInfoPerBoard)

-- shouldAlert: the time that is kept for the ONU if it is to be alerted, and the monitor.
module _ (clock : ℕ → ℤ) where
  abbrev pub mark : Text → ℕ → PowerMonitor → Option ℤ × PowerMonitor
  mark key reads m = (
    some (clock reads),
    record m { alerted = insert key (clock reads) m.alerted; reads = suc reads },
  )

  unfoldable pub should_alert : Text → PowerMonitor → Option ℤ × PowerMonitor
  should_alert key m = elim (lookup key m.alerted) [
    | none ↦ mark key m.reads m
    | some last_alert ↦
        if ltb_ℤ (clock m.reads -ℤ last_alert) alert_interval
        then (none, record m { reads = suc m.reads })
        else mark key (suc m.reads) m
  ]

-- `fixed n` is the verb %.nf of fmt.
module _ (fl : Floats) (fixed : ℕ → fl.Float → Text) (config : PowerMonitorConfig fl)
    (clock : ℕ → ℤ) where
  open config use {high_threshold, low_threshold, source, boards, pons_per_board}

  -- "ONU %d/%d/%d RX Power %.2f dBm", and what follows it.
  abbrev pub description_of : Reading → fl.Float → Text → fl.Float → Text → Text
  description_of r power relation threshold risk =
      codes "ONU "
      ++ (itoa r.board_id
          ++ b'/'
            ∷ (itoa r.pon_id
                ++ b'/'
                  ∷ (itoa r.onu.id
                      ++ (codes " RX Power "
                          ++ (fixed 2 power
                              ++ (codes " dBm "
                                  ++ (relation
                                      ++ (fixed 1 threshold ++ (codes " dBm " ++ risk)))))))))

  unfoldable pub judge : Reading → Judgement
  judge r = if text_eq r.onu.rx_power [] then skipped else elim (fl.parse_float r.onu.rx_power) [
    | none ↦ skipped
    | some power ↦
        if fl.lt high_threshold power
        then abnormal (codes "HighRxPower") (
            description_of r power (codes "exceeds high threshold ") high_threshold
              (codes "(overload risk)"))
        else if fl.lt power low_threshold
        then abnormal (codes "LowRxPower") (
            description_of r power (codes "below low threshold ") low_threshold
              (codes "(weak signal)"))
        else normal
  ]

  unfoldable pub alert_event : OnuInfoPerBoard → ℤ → Text → Text → TrapEvent
  alert_event onu now event_type description = record {
    timestamp = now;
    source = source;
    board = onu.board;
    pon = onu.pon;
    onu_id = onu.id;
    event_type = event_type;
    status = onu.status;
    name = onu.name;
    description = description;
    onu_type = onu.onu_type;
    serial_number = onu.serial_number;
    rx_power = onu.rx_power;
    last_offline = [];
    last_online = [];
  }

  abbrev pub alert_of : Reading → ℤ → Text → Text → PowerMonitor → Alert
  alert_of r at event_type description m = record {
    key = alert_key r;
    at = at;
    event = alert_event r.onu (clock m.reads) event_type description;
  }

  -- sendAlert, which reads the clock for the timestamp; `at` is the time that shouldAlert kept.
  unfoldable pub send_alert : Reading → ℤ → Text → Text → PowerMonitor → PowerMonitor
  unfolding alert_event
  send_alert r at event_type description m = record m {
    reads = suc m.reads;
    alerts = m.alerts ++ alert_of r at event_type description m ∷ [];
  }

  abbrev pub raise : Reading → Text → Text → Option ℤ × PowerMonitor → PowerMonitor
  raise r event_type description (none, m) = m
  raise r event_type description (some at, m) = send_alert r at event_type description m

  -- The body of the innermost loop.
  unfoldable pub check_onu : Reading → PowerMonitor → PowerMonitor
  unfolding judge should_alert send_alert
  check_onu r m = elim (judge r) [
    | skipped ↦ m
    | normal ↦ record m { alerted = delete (alert_key r) m.alerted }
    | abnormal event_type description ↦
        raise r event_type description (should_alert clock (alert_key r) m)
  ]

  unfoldable pub scan_onus : ℤ → ℤ → List OnuInfoPerBoard → PowerMonitor → PowerMonitor
  unfolding check_onu
  scan_onus board_id pon_id [] m = m
  scan_onus board_id pon_id (onu ∷ onus) m =
      scan_onus board_id pon_id onus
        (check_onu (record { board_id = board_id; pon_id = pon_id; onu = onu }) m)

  -- A port whose list cannot be read is skipped.
  abbrev pub scan_port : ℤ → ℤ → Option (List OnuInfoPerBoard) → PowerMonitor → PowerMonitor
  scan_port board_id pon_id none m = m
  scan_port board_id pon_id (some onus) m = scan_onus board_id pon_id onus m

  -- for ponID := 1; ponID <= ponsPerBoard; ponID++, by the rounds left.
  unfoldable pub scan_pons : Fetch → ℕ → ℤ → ℕ → PowerMonitor → PowerMonitor
  unfolding scan_onus
  scan_pons fetch zero board_id pon_id m = m
  scan_pons fetch (suc rounds) board_id pon_id m =
      scan_pons fetch rounds board_id (pon_id + 1)
        (scan_port board_id (pos pon_id) (fetch board_id (pos pon_id)) m)

  unfoldable pub scan_boards : Fetch → ℕ → List ℤ → PowerMonitor → PowerMonitor
  unfolding scan_pons
  scan_boards fetch pons [] m = m
  scan_boards fetch pons (board_id ∷ boards') m =
      scan_boards fetch pons boards' (scan_pons fetch pons board_id 1 m)

  unfoldable pub scan : Fetch → PowerMonitor → PowerMonitor
  unfolding scan_boards
  scan fetch m = scan_boards fetch (scanned_pons pons_per_board) (scanned_boards boards) m

  -- The scans of Start one after the other, each with what the OLT answers then.
  unfoldable pub scans : List Fetch → PowerMonitor → PowerMonitor
  unfolding scan
  scans [] m = m
  scans (fetch ∷ fetches) m = scans fetches (scan fetch m)

-- The end of sendAlert: an event goes to the batcher if there is one, and else to the webhook if one
-- is configured. The result has the events that are posted.
unfoldable pub route : Option Batcher → Bool → List Alert → Option Batcher × List TrapEvent
route b enabled [] = (b, [])
route none true (a ∷ alerts) = let (b', posted) = route none true alerts in (b', a.event ∷ posted)
route none false (a ∷ alerts) = route none false alerts
route (some b) enabled (a ∷ alerts) = route (some (add a.event b)) enabled alerts
