-- ===== src/Trap/Power/Raised.antt =====
-- A reading that is due raises an alert, and alerts are of medium severity and stay.
use snmp_olt_zte.Common.{
  ℕ, suc, ◌≡◌, refl, sym, ap, ◌∙◌, inl, inr, false, Option, none, some, List, [], ◌∷◌, ◌++◌,
  append_assoc, append-nil, arith, Option-cases, Text, text_eq, ℤ, ◌-ℤ◌, ◌≤ℤ◌, ltb_ℤ, lookup,
  text_key, All, All-concat,
}
use snmp_olt_zte.Trap.Event.{medium, event_severity}
use snmp_olt_zte.Trap.Batcher.{Floats}
use snmp_olt_zte.Trap.Power.Cases.{Judgement-cases, skips, clears, raises, alerts-should_alert}
use snmp_olt_zte.Trap.Power.Readings.{check_all}
use snmp_olt_zte.Trap.Power.{
  PowerMonitorConfig, PowerMonitor, Alert, Reading, abnormal, alert_interval, alert_key,
  alert_event, alert_of, should_alert, judge, send_alert, raise, check_onu,
}

-- The type of a power alert.
abbrev pub IsMedium : Alert → Type 0
IsMedium a = event_severity a.event.event_type ≡ medium

abbrev pub AllMedium : PowerMonitor → Type 0
AllMedium m = All IsMedium m.alerts

module _ (fl : Floats) (fixed : ℕ → fl.Float → Text) (config : PowerMonitorConfig fl)
    (clock : ℕ → ℤ) where
  -- The alerts before a reading stay in front.
  abbrev pub Extends : PowerMonitor → PowerMonitor → Type 0
  Extends m m' = (new : List Alert) × (m'.alerts ≡ m.alerts ++ new)

  raise-Extends :
      (r : Reading) (event_type description : Text) (m : PowerMonitor) (o : Option ℤ × PowerMonitor)
      → o.1.alerts ≡ m.alerts
      → Extends m (raise fl fixed config clock r event_type description o)
  unfolding send_alert
  raise-Extends r event_type description m (none, m') e = ([], e ∙ sym (append-nil _))
  raise-Extends r event_type description m (some at, m') e =
      let a = alert_of fl fixed config clock r at event_type description m' in
      (a ∷ [], ap (λ zs. zs ++ a ∷ []) e)

  check_onu-Extends :
      (r : Reading) (m : PowerMonitor) → Extends m (check_onu fl fixed config clock r m)
  unfolding check_onu
  check_onu-Extends r m = elim (Judgement-cases (judge fl fixed config clock r)) [
    | skips e ↦ rw (check_onu, e) ([], sym (append-nil _))
    | clears e ↦ rw (check_onu, e) ([], sym (append-nil _))
    | raises event_type description e ↦
        rw (check_onu, e)
          (raise-Extends r event_type description m (should_alert clock (alert_key r) m)
            (alerts-should_alert clock m (alert_key r)))
  ]

  pub check_all-Extends :
      (rs : List Reading) (m : PowerMonitor) → Extends m (check_all fl fixed config clock rs m)
  unfolding check_all
  check_all-Extends [] m = ([], sym (append-nil _))
  check_all-Extends (r ∷ rs) m =
      let (xs, e) = check_onu-Extends r m in
      let (ys, e') = check_all-Extends rs (check_onu fl fixed config clock r m) in
      (xs ++ ys, e' ∙ ap (λ zs. zs ++ ys) e ∙ append_assoc m.alerts xs ys)

  judge-medium :
      (r : Reading) (event_type description : Text)
      → judge fl fixed config clock r ≡ abnormal event_type description
      → event_severity event_type ≡ medium
  unfolding judge event_severity text_eq
  judge-medium r event_type description e = ground arith

  raise-AllMedium :
      (r : Reading) (event_type description : Text) (m : PowerMonitor) (o : Option ℤ × PowerMonitor)
      → event_severity event_type ≡ medium
      → o.1.alerts ≡ m.alerts
      → AllMedium m
      → AllMedium (raise fl fixed config clock r event_type description o)
  unfolding send_alert alert_event
  raise-AllMedium r event_type description m (none, m') s e h = rw e h
  raise-AllMedium r event_type description m (some at, m') s e h =
      All-concat _ m'.alerts _ (rw e h) s

  check_onu-AllMedium :
      (r : Reading) (m : PowerMonitor)
      → AllMedium m
      → AllMedium (check_onu fl fixed config clock r m)
  unfolding check_onu
  check_onu-AllMedium r m h = elim (Judgement-cases (judge fl fixed config clock r)) [
    | skips e ↦ rw (check_onu, e) h
    | clears e ↦ rw (check_onu, e) h
    | raises event_type description e ↦
        rw (check_onu, e)
          (raise-AllMedium r event_type description m (should_alert clock (alert_key r) m)
            (judge-medium r event_type description e) (alerts-should_alert clock m (alert_key r)) h)
  ]

  pub check_all-AllMedium :
      (rs : List Reading) (m : PowerMonitor)
      → AllMedium m
      → AllMedium (check_all fl fixed config clock rs m)
  unfolding check_all
  check_all-AllMedium [] m h = h
  check_all-AllMedium (r ∷ rs) m h =
      check_all-AllMedium rs (check_onu fl fixed config clock r m) (check_onu-AllMedium r m h)

  -- The ONU has no time in `alerted`, or one that is 30 minutes old at the next read of the clock.
  abbrev pub IsDue : Text → PowerMonitor → Type 0
  IsDue key m =
      (last : ℤ) → lookup key m.alerted ≡ some last → alert_interval ≤ℤ (clock m.reads -ℤ last)

  pub should_alert-due :
      (key : Text) (m : PowerMonitor)
      → IsDue key m
      → (at : ℤ) × ((should_alert clock key m).0 ≡ some at)
  unfolding should_alert
  should_alert-due key m due = elim (Option-cases (lookup key m.alerted)) [
    | inl e ↦ (clock m.reads, rw (should_alert, e) refl)
    | inr (last, e) ↦
        let late : ltb_ℤ (clock m.reads -ℤ last) alert_interval ≡ false =
          (let h : alert_interval ≤ℤ (clock m.reads -ℤ last) = due last e in ground arith) in
        (clock (suc m.reads), rw (should_alert, e, late) refl)
  ]

  pub raise-due :
      (r : Reading) (event_type description : Text) (o : Option ℤ × PowerMonitor) (at : ℤ)
      → o.0 ≡ some at
      → (a : Alert) × (now : ℤ) × ((raise fl fixed config clock r event_type description o).alerts
          ≡ o.1.alerts ++ a ∷ [])
        × (a.event ≡ alert_event fl fixed config clock r.onu now event_type description)
  unfolding send_alert
  raise-due r event_type description (none, m') at e = ground arith
  raise-due r event_type description (some at', m') at e =
      (alert_of fl fixed config clock r at' event_type description m', clock m'.reads, refl, refl)
