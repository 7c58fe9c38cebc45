-- ===== src/Trap/Power/Cases.antt =====
-- The cases of a power's judgement, and what shouldAlert leaves alone.
use snmp_olt_zte.Common.{ℕ, ◌≡◌, refl, Text, arith, ℤ}
use snmp_olt_zte.Trap.Power.{PowerMonitor, Judgement, skipped, normal, abnormal, should_alert}

pub data JudgementIs (j : Judgement) : Type 0 where
  skips : j ≡ skipped → JudgementIs j
  clears : j ≡ normal → JudgementIs j
  raises : (event_type description : Text) → j ≡ abnormal event_type description → JudgementIs j

pub Judgement-cases : (j : Judgement) → JudgementIs j
Judgement-cases skipped = skips refl
Judgement-cases normal = clears refl
Judgement-cases (abnormal event_type description) = raises event_type description refl

pub alerts-should_alert :
    (clock : ℕ → ℤ) (m : PowerMonitor) (key : Text) → (should_alert clock key m).1.alerts ≡ m.alerts
unfolding should_alert
alerts-should_alert clock m key = ground arith
