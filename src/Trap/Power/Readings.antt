-- ===== src/Trap/Power/Readings.antt =====
-- The readings of a scan as one list, and the scan as one loop over it.
use snmp_olt_zte.Common.{
  ℕ, zero, suc, ◌+◌, ◌≡◌, refl, sym, ap, ◌∙◌, Option, none, some, List, [], ◌∷◌, ◌++◌, map, Text, ℤ,
  pos, text_key,
}
use snmp_olt_zte.Model.{OnuInfoPerBoard}
use snmp_olt_zte.Trap.Batcher.{Floats}
use snmp_olt_zte.Trap.Power.{
  PowerMonitorConfig, PowerMonitor, Reading, Fetch, check_onu, scan_onus, scan_port, scan_pons,
  scan_boards, scanned_pons, scanned_boards, scan,
}

-- The readings of a scan in their order, written without the monitor.
port_readings : ℤ → ℤ → Option (List OnuInfoPerBoard) → List Reading
port_readings b p none = []
port_readings b p (some onus) = map (λ o. record { board_id = b; pon_id = p; onu = o }) onus

board_readings : Fetch → ℕ → ℤ → ℕ → List Reading
board_readings fetch zero b p = []
board_readings fetch (suc rounds) b p =
    port_readings b (pos p) (fetch b (pos p)) ++ board_readings fetch rounds b (p + 1)

all_readings : Fetch → ℕ → List ℤ → List Reading
all_readings fetch pons [] = []
all_readings fetch pons (b ∷ bs) = board_readings fetch pons b 1 ++ all_readings fetch pons bs

unfoldable pub readings : {fl : Floats} → PowerMonitorConfig fl → Fetch → List Reading
unfolding port_readings board_readings all_readings
readings config fetch =
    all_readings fetch (scanned_pons config.pons_per_board) (scanned_boards config.boards)

module _ (fl : Floats) (fixed : ℕ → fl.Float → Text) (config : PowerMonitorConfig fl)
    (clock : ℕ → ℤ) where
  unfoldable pub check_all : List Reading → PowerMonitor → PowerMonitor
  check_all [] m = m
  check_all (r ∷ rs) m = check_all rs (check_onu fl fixed config clock r m)

  pub check_all-append :
      (xs ys : List Reading) (m : PowerMonitor)
      → check_all (xs ++ ys) m ≡ check_all ys (check_all xs m)
  unfolding check_all
  check_all-append [] ys m = refl
  check_all-append (x ∷ xs) ys m = check_all-append xs ys (check_onu fl fixed config clock x m)

  scan_onus-check_all :
      (b p : ℤ) (onus : List OnuInfoPerBoard) (m : PowerMonitor)
      → scan_onus fl fixed config clock b p onus m ≡ check_all (port_readings b p (some onus)) m
  unfolding scan_onus check_all port_readings
  scan_onus-check_all b p [] m = refl
  scan_onus-check_all b p (o ∷ onus) m = scan_onus-check_all b p onus _

  scan_port-check_all :
      (b p : ℤ) (o : Option (List OnuInfoPerBoard)) (m : PowerMonitor)
      → scan_port fl fixed config clock b p o m ≡ check_all (port_readings b p o) m
  unfolding check_all port_readings
  scan_port-check_all b p none m = refl
  scan_port-check_all b p (some onus) m = scan_onus-check_all b p onus m

  scan_pons-check_all :
      (fetch : Fetch) (rounds : ℕ) (b : ℤ) (p : ℕ) (m : PowerMonitor)
      → scan_pons fl fixed config clock fetch rounds b p m
        ≡ check_all (board_readings fetch rounds b p) m
  unfolding scan_pons check_all board_readings
  scan_pons-check_all fetch zero b p m = refl
  scan_pons-check_all fetch (suc rounds) b p m =
      let here : List Reading = port_readings b (pos p) (fetch b (pos p)) in
      let rest : List Reading = board_readings fetch rounds b (p + 1) in
      scan_pons-check_all fetch rounds b (p + 1)
        (scan_port fl fixed config clock b (pos p) (fetch b (pos p)) m)
      ∙ ap (check_all rest) (scan_port-check_all b (pos p) (fetch b (pos p)) m)
      ∙ sym (check_all-append here rest m)

  scan_boards-check_all :
      (fetch : Fetch) (pons : ℕ) (bs : List ℤ) (m : PowerMonitor)
      → scan_boards fl fixed config clock fetch pons bs m ≡ check_all (all_readings fetch pons bs) m
  unfolding scan_boards check_all all_readings
  scan_boards-check_all fetch pons [] m = refl
  scan_boards-check_all fetch pons (b ∷ bs) m =
      scan_boards-check_all fetch pons bs (scan_pons fl fixed config clock fetch pons b 1 m)
      ∙ ap (check_all (all_readings fetch pons bs)) (scan_pons-check_all fetch pons b 1 m)
      ∙ sym (check_all-append (board_readings fetch pons b 1) (all_readings fetch pons bs) m)

  -- A scan checks the readings one after the other.
  pub scan-check_all :
      (fetch : Fetch) (m : PowerMonitor)
      → scan fl fixed config clock fetch m ≡ check_all (readings config fetch) m
  unfolding scan readings
  scan-check_all fetch m =
      scan_boards-check_all fetch (scanned_pons config.pons_per_board)
        (scanned_boards config.boards) m
