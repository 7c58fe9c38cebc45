-- ===== src/Trap/Event.antt =====
-- Event types and severities: internal/trap/formatter.go, internal/trap/handler.go and the tables of
-- internal/trap/listener.go.
use snmp_olt_zte.Common.{
  zero, suc, ◌≡◌, refl, sym, ◌∙◌, ◌≢◌, ◌⊎◌, inl, inr, Bool, true, ◌||◌, ◌&&◌, not, ltb_ℤ, [], ◌∷◌,
  arith, if◌then◌else◌, Text, codes, text_eq, contains, to_lower, ℤ, pos, negsuc, ◌<ℤ◌, eq_ℤ,
  eq_ℤ_iff, text_key, int_key,
}
use snmp_olt_zte.Utils.Extract.{int, extract_and_get_status}

pub data Severity : Type 0 where
  critical high medium low unknown : Severity

unfoldable pub event_severity : Text → Severity
event_severity t =
    if text_eq t (codes "LOS")
      || (text_eq t (codes "LOSi")
          || (text_eq t (codes "LOFi")
              || (text_eq t (codes "Offline")
                  || (text_eq t (codes "AuthFailed") || text_eq t (codes "PowerOff")))))
    then critical
    else if text_eq t (codes "Logging") || text_eq t (codes "Synchronization")
    then high
    else if text_eq t (codes "HighRxPower") || text_eq t (codes "LowRxPower")
    then medium
    else if text_eq t (codes "DyingGasp")
    then low
    else unknown

unfoldable pub severity_label : Severity → Text
severity_label critical = codes "CRITICAL"
severity_label high = codes "HIGH"
severity_label medium = codes "MEDIUM"
severity_label low = codes "LOW"
severity_label unknown = codes "UNKNOWN"

-- `alertEventTypes[t]`
unfoldable pub is_alert : Text → Bool
is_alert t =
    text_eq t (codes "LOS")
    || (text_eq t (codes "DyingGasp")
        || (text_eq t (codes "PowerOff")
            || (text_eq t (codes "Offline")
                || (text_eq t (codes "AuthFailed")
                    || (text_eq t (codes "LOSi")
                        || (text_eq t (codes "LOFi")
                            || (text_eq t (codes "Logging")
                                || text_eq t (codes "Synchronization"))))))))

unfoldable pub normalize_offline_reason : Text → Text
normalize_offline_reason reason =
    let r = to_lower reason in
    if contains r (codes "losi")
    then codes "LOSi"
    else if contains r (codes "lofi")
    then codes "LOFi"
    else if contains r (codes "los")
    then codes "LOS"
    else if contains r (codes "dyinggasp") || contains r (codes "dying")
    then codes "DyingGasp"
    else if contains r (codes "poweroff") || contains r (codes "power")
    then codes "PowerOff"
    else if contains r (codes "authfail") || contains r (codes "auth")
    then codes "AuthFailed"
    else codes "Offline"

-- `if offlineReason != "" { return normalizeOfflineReason(offlineReason) }; return "Offline"`
unfoldable pub offline_type : Text → Text
unfolding normalize_offline_reason
offline_type [] = codes "Offline"
offline_type (c ∷ reason) = normalize_offline_reason (c ∷ reason)

unfoldable pub resolve_event_type : Text → Text → Text
resolve_event_type status offline_reason =
    let s = to_lower status in
    if contains s (codes "online")
    then codes "Online"
    else if contains s (codes "dying")
    then codes "DyingGasp"
    else if contains s (codes "los")
    then codes "LOS"
    else if contains s (codes "power")
    then codes "PowerOff"
    else if contains s (codes "auth")
    then codes "AuthFailed"
    else if contains s (codes "logging")
    then codes "Logging"
    else if contains s (codes "sync")
    then codes "Synchronization"
    else if contains s (codes "offline")
    then offline_type offline_reason
    else codes "Online"

-- The status and the event type of a trap's status code.
unfoldable pub map_status : ℤ → Text × Text
map_status status =
    if eq_ℤ status (pos 1)
    then (codes "logging", codes "Logging")
    else if eq_ℤ status (pos 2)
    then (codes "offline", codes "LOS")
    else if eq_ℤ status (pos 3)
    then (codes "syncing", codes "Synchronization")
    else if eq_ℤ status (pos 4)
    then (codes "online", codes "Online")
    else if eq_ℤ status (pos 5)
    then (codes "offline", codes "DyingGasp")
    else if eq_ℤ status (pos 6)
    then (codes "offline", codes "AuthFailed")
    else if eq_ℤ status (pos 7)
    then (codes "offline", codes "Offline")
    else (codes "unknown", codes "Unknown")

unfoldable pub map_offline_reason : ℤ → Text
map_offline_reason reason =
    if eq_ℤ reason (pos 2)
    then codes "LOS"
    else if eq_ℤ reason (pos 3)
    then codes "LOSi"
    else if eq_ℤ reason (pos 4)
    then codes "LOFi"
    else if eq_ℤ reason (pos 5)
    then codes "SFi"
    else if eq_ℤ reason (pos 6)
    then codes "LOAi"
    else if eq_ℤ reason (pos 7)
    then codes "LOAMi"
    else if eq_ℤ reason (pos 8)
    then codes "AuthFail"
    else if eq_ℤ reason (pos 9)
    then codes "PowerOff"
    else if eq_ℤ reason (pos 10)
    then codes "DeactivateSuccess"
    else if eq_ℤ reason (pos 11)
    then codes "DeactivateFail"
    else if eq_ℤ reason (pos 12)
    then codes "Reboot"
    else if eq_ℤ reason (pos 13)
    then codes "Shutdown"
    else codes "Unknown"

-- An event type that is notified, and queued under a known severity.
pub record IsNotified (t : Text) : Type 0 where
  pub alert : is_alert t ≡ true
  pub known : event_severity t ≢ unknown

pub normalize_offline_reason-IsNotified :
    (reason : Text) → IsNotified (normalize_offline_reason reason)
unfolding normalize_offline_reason is_alert event_severity text_eq
normalize_offline_reason-IsNotified reason = ground arith

offline_type-IsNotified : (reason : Text) → IsNotified (offline_type reason)
unfolding offline_type is_alert event_severity text_eq
offline_type-IsNotified [] = ground arith
offline_type-IsNotified (c ∷ reason) = normalize_offline_reason-IsNotified (c ∷ reason)

-- Whatever the device reports, the resolved type is "Online" or one that is notified and that a
-- severity queue exists for: no verified event ends up in the queue of unknown severity.
pub resolve_event_type-IsNotified :
    (status offline_reason : Text)
    → (resolve_event_type status offline_reason ≡ codes "Online")
      ⊎ IsNotified (resolve_event_type status offline_reason)
unfolding resolve_event_type is_alert event_severity text_eq
resolve_event_type-IsNotified status reason = ground (arith, offline_type-IsNotified reason)

unknown_online : (reason : Text) → resolve_event_type (codes "Unknown") reason ≡ codes "Online"
unfolding resolve_event_type contains to_lower
unknown_online reason = refl

-- A status code outside 1..7 has the text "Unknown", which is taken for "Online".
pub resolve-unknown :
    (v : ℤ) (reason : Text)
    → (v <ℤ pos 1) ⊎ (pos 7 <ℤ v)
    → resolve_event_type (extract_and_get_status (int v)) reason ≡ codes "Online"
unfolding extract_and_get_status
resolve-unknown v reason h =
    ground (arith, unknown_online reason, eq_ℤ_iff v (pos 1), eq_ℤ_iff v (pos 2))

-- The event type that the listener gives a status code, save that code 7 with an offline reason has
-- the type of that reason, and a code outside 1..7 the type Online.
abbrev pub verified_code : ℤ → Text → Text
verified_code v reason =
    if ltb_ℤ v (pos 1) || ltb_ℤ (pos 7) v
    then codes "Online"
    else if eq_ℤ v (pos 7) && not (text_eq reason [])
    then normalize_offline_reason reason
    else (map_status v).1

verified-outside :
    (v : ℤ) (reason : Text) → (v <ℤ pos 1) ⊎ (pos 7 <ℤ v) → verified_code v reason ≡ codes "Online"
verified-outside v reason h = ground arith

offline_code :
    (reason : Text) → resolve_event_type (codes "Offline") reason ≡ verified_code (pos 7) reason
unfolding resolve_event_type offline_type contains to_lower map_status text_eq
offline_code [] = refl
offline_code (c ∷ reason) = refl

-- For every status code and offline reason, the event type that is resolved from the SNMP status of that
-- code is the one that the listener gives it, save that code 7 with an offline reason has the type of
-- that reason, and that a code outside 1..7 counts as Online.
pub map_status-resolve_event_type :
    (v : ℤ) (reason : Text)
    → resolve_event_type (extract_and_get_status (int v)) reason ≡ verified_code v reason
unfolding map_status extract_and_get_status resolve_event_type offline_type contains to_lower
map_status-resolve_event_type (pos zero) reason = refl
map_status-resolve_event_type (pos (suc zero)) reason = refl
map_status-resolve_event_type (pos (suc (suc zero))) reason = refl
map_status-resolve_event_type (pos (suc (suc (suc zero)))) reason = refl
map_status-resolve_event_type (pos (suc (suc (suc (suc zero))))) reason = refl
map_status-resolve_event_type (pos (suc (suc (suc (suc (suc zero)))))) reason = refl
map_status-resolve_event_type (pos (suc (suc (suc (suc (suc (suc zero))))))) reason = refl
map_status-resolve_event_type (pos (suc (suc (suc (suc (suc (suc (suc zero)))))))) reason =
    offline_code reason
map_status-resolve_event_type (pos (suc (suc (suc (suc (suc (suc (suc (suc n))))))))) reason =
    resolve-unknown (pos (suc (suc (suc (suc (suc (suc (suc (suc n))))))))) reason
      (inr (omega arith))
    ∙ sym (
        verified-outside (pos (suc (suc (suc (suc (suc (suc (suc (suc n))))))))) reason
          (inr (omega arith)))
map_status-resolve_event_type (negsuc n) reason =
    resolve-unknown (negsuc n) reason (inl (omega arith))
    ∙ sym (verified-outside (negsuc n) reason (inl (omega arith)))
