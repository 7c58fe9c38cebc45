-- ===== src/Trap/Power/Limiter.antt =====
-- Repeated alerts are at least 30 minutes apart, while the power of the ONU is not normal.
use snmp_olt_zte.Common.{
  ℕ, zero, suc, ◌+◌, ◌≡◌, refl, sym, ap, ◌∙◌, ◌≢◌, ◌⊎◌, inl, inr, false, Option, none, some, List,
  [], ◌∷◌, ◌++◌, append_assoc, append-nil, arith, Bool-cases, Option-cases, Text, text_eq, ℤ, pos,
  ◌+ℤ◌, ◌-ℤ◌, ◌≤ℤ◌, ltb_ℤ, lookup, lookup-insert, lookup-delete, text_key, All, All-append,
  text_eq_iff, text_eq_refl,
}
use snmp_olt_zte.Model.{OnuInfoPerBoard}
use snmp_olt_zte.Trap.Batcher.{Floats}
use snmp_olt_zte.Trap.Power.Cases.{Judgement-cases, skips, clears, raises, alerts-should_alert}
use snmp_olt_zte.Trap.Power.{
  PowerMonitorConfig, PowerMonitor, Alert, Reading, Fetch, normal, alert_interval, alert_key,
  should_alert, judge, alert_of, send_alert, raise, check_onu, scan_onus, scan_pons, scan_boards,
  scanned_pons, scanned_boards, scan, scans,
}

-- The clock does not run backwards.
abbrev pub IsMonotone : (ℕ → ℤ) → Type 0
IsMonotone clock = (n : ℕ) → clock n ≤ℤ clock (suc n)

interval_passed :
    (t last now now' : ℤ)
    → (last ≡ t) ⊎ (t +ℤ alert_interval ≤ℤ last)
    → ltb_ℤ (now -ℤ last) alert_interval ≡ false
    → now ≤ℤ now'
    → t +ℤ alert_interval ≤ℤ now'
unfolding ◌+ℤ◌ ◌-ℤ◌
interval_passed t last now now' h e le = ground arith

-- Every alert of the ONU `k` from `m` to `m'` is late enough.
abbrev Late : Text → ℤ → PowerMonitor → PowerMonitor → Type 0
Late k t m m' =
    (new : List Alert) × (m'.alerts ≡ m.alerts ++ new)
    × All (λ a. a.key ≡ k → t +ℤ alert_interval ≤ℤ a.at) new

Late-refl : (k : Text) (t : ℤ) (m m' : PowerMonitor) → m'.alerts ≡ m.alerts → Late k t m m'
Late-refl k t m m' e = ([], e ∙ sym (append-nil _), tt)

Late-trans :
    (k : Text) (t : ℤ) (m m' m'' : PowerMonitor) → Late k t m m' → Late k t m' m'' → Late k t m m''
Late-trans k t m m' m'' (xs, e, h) (ys, e', h') =
    (xs ++ ys, e' ∙ ap (λ zs. zs ++ ys) e ∙ append_assoc m.alerts xs ys, All-append _ xs ys h h')

-- The time of the ONU's last alert is `t` or late enough.
abbrev Marked : Text → ℤ → PowerMonitor → Type 0
Marked k t m =
    (last : ℤ) × (lookup k m.alerted ≡ some last) × ((last ≡ t) ⊎ (t +ℤ alert_interval ≤ℤ last))

module _ (fl : Floats) (fixed : ℕ → fl.Float → Text) (config : PowerMonitorConfig fl)
    (clock : ℕ → ℤ) (monotone : IsMonotone clock) (k : Text) (t : ℤ) where
  -- No reading of the ONU that can be parsed is normal.
  abbrev pub StaysAbnormal : Reading → Type 0
  StaysAbnormal r = alert_key r ≡ k → judge fl fixed config clock r ≢ normal

  abbrev Keeps : PowerMonitor → PowerMonitor → Type 0
  Keeps m m' = Marked k t m' × Late k t m m'

  should_alert-same :
      (m : PowerMonitor) (event_type description : Text) (r : Reading)
      → alert_key r ≡ k
      → Marked k t m
      → Keeps m (
          raise fl fixed config clock r event_type description (should_alert clock (alert_key r) m))
  unfolding should_alert send_alert
  should_alert-same m event_type description r e (last, h, late) =
      elim (Bool-cases (ltb_ℤ (clock m.reads -ℤ last) alert_interval)) [
        | inl early ↦ rw (e, should_alert, h, early) ((last, h, late), ([], sym (append-nil _), tt))
        | inr due ↦
            let passed =
              interval_passed t last (clock m.reads) (clock (suc m.reads)) late due
                (monotone m.reads) in
            rw (e, should_alert, h, due)
              (
                (clock (suc m.reads), rw (lookup-insert, e, text_eq_refl k) refl, inr passed),
                (_ ∷ [], refl, ((λ _. passed), tt)),
              )
      ]

  raise-other :
      (m : PowerMonitor) (event_type description : Text) (r : Reading) (o : Option ℤ × PowerMonitor)
      → alert_key r ≢ k
      → lookup k o.1.alerted ≡ lookup k m.alerted
      → o.1.alerts ≡ m.alerts
      → Marked k t m
      → Keeps m (raise fl fixed config clock r event_type description o)
  unfolding send_alert
  raise-other m event_type description r (none, m') other same kept (last, h, late) =
      ((last, same ∙ h, late), Late-refl k t m m' kept)
  raise-other m event_type description r (some at, m') other same kept (last, h, late) =
      let a = alert_of fl fixed config clock r at event_type description m' in
      (
        (last, same ∙ h, late),
        (a ∷ [], ap (λ zs. zs ++ a ∷ []) kept, ((λ e. absurd (other e)), tt)),
      )

  lookup-should_alert_other :
      (m : PowerMonitor) (key : Text)
      → key ≢ k
      → lookup k (should_alert clock key m).1.alerted ≡ lookup k m.alerted
  unfolding should_alert
  lookup-should_alert_other m key other = ground (
    arith,
    text_eq_iff key k,
    lookup-insert key k (clock m.reads) m.alerted,
    lookup-insert key k (clock (suc m.reads)) m.alerted,
  )

  -- One reading.
  check_onu-Keeps :
      (r : Reading) (m : PowerMonitor)
      → StaysAbnormal r
      → Marked k t m
      → Keeps m (check_onu fl fixed config clock r m)
  unfolding check_onu
  check_onu-Keeps r m abnormal_power w = elim (Judgement-cases (judge fl fixed config clock r)) [
    | skips e ↦ rw (check_onu, e) (w, Late-refl k t m m refl)
    | clears e ↦ elim (Bool-cases (text_eq (alert_key r) k)) [
      | inl same ↦ absurd (abnormal_power ((text_eq_iff _ k).0 same) e)
      | inr other ↦
          rw (check_onu, e)
            ((w.0, rw (lookup-delete, other) w.1, w.2), ([], sym (append-nil _), tt))
    ]
    | raises event_type description e ↦ elim (Bool-cases (text_eq (alert_key r) k)) [
      | inl same ↦
          rw (check_onu, e)
            (should_alert-same m event_type description r ((text_eq_iff _ k).0 same) w)
      | inr other ↦
          let different : alert_key r ≢ k = λ q. ground (arith, text_eq_iff (alert_key r) k) in
          rw (check_onu, e)
            (raise-other m event_type description r (should_alert clock (alert_key r) m) different
              (lookup-should_alert_other m (alert_key r) different)
              (alerts-should_alert clock m (alert_key r)) w)
    ]
  ]

  Keeps-trans :
      (m m' m'' : PowerMonitor) → Keeps m m' → (Marked k t m' → Keeps m' m'') → Keeps m m''
  Keeps-trans m m' m'' (w, late) next =
      let (w', late') = next w in (w', Late-trans k t m m' m'' late late')

  scan_onus-Keeps :
      (b p : ℤ) (onus : List OnuInfoPerBoard) (m : PowerMonitor)
      → All (λ o. StaysAbnormal (record { board_id = b; pon_id = p; onu = o })) onus
      → Marked k t m
      → Keeps m (scan_onus fl fixed config clock b p onus m)
  unfolding scan_onus
  scan_onus-Keeps b p [] m h w = (w, Late-refl k t m m refl)
  scan_onus-Keeps b p (o ∷ onus) m (h, hs) w =
      let r : Reading = record { board_id = b; pon_id = p; onu = o } in
      let m' : PowerMonitor = check_onu fl fixed config clock r m in
      Keeps-trans m m' (scan_onus fl fixed config clock b p onus m') (check_onu-Keeps r m h w)
        (scan_onus-Keeps b p onus m' hs)

  -- What an OLT answers while the ONU stays abnormal.
  abbrev pub AnswersAbnormal : Fetch → Type 0
  AnswersAbnormal fetch =
      (b p : ℤ) (onus : List OnuInfoPerBoard)
      → fetch b p ≡ some onus
      → All (λ o. StaysAbnormal (record { board_id = b; pon_id = p; onu = o })) onus

  scan_pons-Keeps :
      (fetch : Fetch)
      → AnswersAbnormal fetch
      → (rounds : ℕ) (b : ℤ) (p : ℕ) (m : PowerMonitor) → Marked k t m
      → Keeps m (scan_pons fl fixed config clock fetch rounds b p m)
  unfolding scan_pons
  scan_pons-Keeps fetch h zero b p m w = (w, Late-refl k t m m refl)
  scan_pons-Keeps fetch h (suc rounds) b p m w = elim (Option-cases (fetch b (pos p))) [
    | inl e ↦ rw (scan_pons, e) (scan_pons-Keeps fetch h rounds b (p + 1) m w)
    | inr (onus, e) ↦
        let m' : PowerMonitor = scan_onus fl fixed config clock b (pos p) onus m in
        rw (scan_pons, e)
          (Keeps-trans m m' (scan_pons fl fixed config clock fetch rounds b (p + 1) m')
            (scan_onus-Keeps b (pos p) onus m (h b (pos p) onus e) w)
            (scan_pons-Keeps fetch h rounds b (p + 1) m'))
  ]

  scan_boards-Keeps :
      (fetch : Fetch)
      → AnswersAbnormal fetch
      → (pons : ℕ) (bs : List ℤ) (m : PowerMonitor) → Marked k t m
      → Keeps m (scan_boards fl fixed config clock fetch pons bs m)
  unfolding scan_boards
  scan_boards-Keeps fetch h pons [] m w = (w, Late-refl k t m m refl)
  scan_boards-Keeps fetch h pons (b ∷ bs) m w =
      let m' : PowerMonitor = scan_pons fl fixed config clock fetch pons b 1 m in
      Keeps-trans m m' (scan_boards fl fixed config clock fetch pons bs m')
        (scan_pons-Keeps fetch h pons b 1 m w) (scan_boards-Keeps fetch h pons bs m')

  scans-Keeps :
      (fetches : List Fetch) (m : PowerMonitor)
      → All AnswersAbnormal fetches
      → Marked k t m
      → Keeps m (scans fl fixed config clock fetches m)
  unfolding scans scan
  scans-Keeps [] m h w = (w, Late-refl k t m m refl)
  scans-Keeps (fetch ∷ fetches) m (h, hs) w =
      let m' : PowerMonitor = scan fl fixed config clock fetch m in
      Keeps-trans m m' (scans fl fixed config clock fetches m')
        (scan_boards-Keeps fetch h (scanned_pons config.pons_per_board)
          (scanned_boards config.boards) m w)
        (scans-Keeps fetches m' hs)

  -- After an alert at time `t` any number of scans raise no alert of the same ONU earlier than
  -- `t` + 30 minutes, if the clock does not run backwards and no power of the ONU that is read is normal.
  pub scans-late :
      (fetches : List Fetch) (m : PowerMonitor)
      → lookup k m.alerted ≡ some t
      → All AnswersAbnormal fetches
      → (new : List Alert) × ((scans fl fixed config clock fetches m).alerts ≡ m.alerts ++ new)
        × All (λ a. a.key ≡ k → t +ℤ alert_interval ≤ℤ a.at) new
  scans-late fetches m e h = (scans-Keeps fetches m h (t, e, inl refl)).1
