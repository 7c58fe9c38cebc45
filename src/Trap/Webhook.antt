-- ===== src/Trap/Webhook.antt =====
-- internal/trap/webhook.go, internal/trap/webhook_active.go and internal/trap/formatter.go: which
-- client is used, how often it posts a payload, and which severities are batched. The payloads of the
-- platforms are not modelled.
pub mod Retries
pub mod Refresh
use mathlib.Core.List.{reverse}
use snmp_olt_zte.Common.{
  ℕ, zero, suc, ◌+◌, ◌-◌, ◌*◌, ◌^◌, ◌==◌, Bool, true, false, ◌&&◌, ◌||◌, not, Option, none, some,
  List, [], ◌∷◌, ◌++◌, if◌then◌else◌, leb, ltb, Text, codes, text_eq, contains, has_prefix, ℤ, pos,
  ◌+ℤ◌, ◌*ℤ◌, ltb_ℤ, leb_ℤ, pos_part, wrap64, Map,
}
use snmp_olt_zte.Trap.Event.{Severity, critical, high, medium, low}

pub data Formatter : Type 0 where
  generic discord slack : Formatter
  telegram : Text → Formatter

pub record WebhookSettings : Type 0 where
  pub url : Text
  pub type : Text
  pub chat_id : Text
  pub enabled : Bool
  pub retries : ℤ
  pub timeout : ℤ

pub record Client : Type 0 where
  pub url : Text
  pub max_retries : ℤ
  pub timeout : ℤ
  pub formatter : Formatter

unfoldable pub detect_platform : Text → Text
detect_platform url =
    if contains url (codes "discord.com/api/webhooks")
    then codes "discord"
    else if contains url (codes "hooks.slack.com")
    then codes "slack"
    else if contains url (codes "api.telegram.org/bot")
    then codes "telegram"
    else codes "generic"

-- strings.TrimRight(url, "/"), on the reversed text.
unfoldable pub trim_slashes : Text → Text
trim_slashes [] = []
trim_slashes (c ∷ s) = let rest = trim_slashes s in if c == b'/' then rest else c ∷ s

unfoldable pub build_telegram_url : Text → Text
unfolding trim_slashes
build_telegram_url url =
    let reversed = trim_slashes (reverse url) in
    if has_prefix reversed (reverse (codes "/sendMessage"))
    then reverse reversed
    else reverse reversed ++ codes "/sendMessage"

unfoldable pub new_formatter : Text → Text → Text → Formatter × Text
unfolding detect_platform build_telegram_url
new_formatter url webhook_type chat_id =
    let platform = if text_eq webhook_type [] then detect_platform url else webhook_type in
    if text_eq platform (codes "discord")
    then (discord, url)
    else if text_eq platform (codes "slack")
    then (slack, url)
    else if text_eq platform (codes "telegram")
    then (if text_eq chat_id [] then (generic, url) else (telegram chat_id, build_telegram_url url))
    else (generic, url)

abbrev pub positive_or : ℤ → ℤ → ℤ
positive_or d n = if leb_ℤ n (pos 0) then d else n

unfoldable pub build_webhook_client : WebhookSettings → Option Client
unfolding new_formatter
build_webhook_client s =
    if not s.enabled || text_eq s.url []
    then none
    else (let (formatter, final_url) = new_formatter s.url s.type s.chat_id in
        some (record {
          url = final_url;
          max_retries = positive_or (pos 3) s.retries;
          timeout = positive_or (pos 10) s.timeout;
          formatter = formatter;
        }))

-- `activeSet` and `activeWebhook`: none before the app has installed a client or that there is none.
abbrev pub ActiveWebhook : Type 0
ActiveWebhook = Option (Option Client)

unfoldable pub set_active_webhook : Option Client → ActiveWebhook → ActiveWebhook
set_active_webhook c active = some c

unfoldable pub resolve_webhook : ActiveWebhook → Option Client → Option Client
resolve_webhook none instance_client = instance_client
resolve_webhook (some c) instance_client = c

-- What sendPayload has done: whether a post was answered with 2xx, the number of posts, and the time
-- that it has slept.
pub record Delivery : Type 0 where
  pub sent : Bool
  pub posts : ℕ
  pub slept : ℕ

abbrev pub second : ℕ
second = 1_000_000_000

-- time.Duration(math.Pow(2, n)): a float from 2^63 on does not fit 64 bits, and what Go makes of it is
-- left to the machine (`huge`).
unfoldable pub power_duration : (ℕ → ℤ) → ℕ → ℤ
power_duration huge n = if ltb n 63 then pos (2 ^ n) else huge n

-- The sleep before an attempt: the product wraps around in 64 bits, and time.Sleep returns at once if it
-- is not positive.
unfoldable pub backoff : (ℕ → ℤ) → ℕ → ℕ
unfolding power_duration
backoff huge zero = 0
backoff huge (suc n) = pos_part (wrap64 (power_duration huge n *ℤ pos second))

abbrev pub is_success : Option ℕ → Bool
is_success none = false
is_success (some status_code) = leb 200 status_code && ltb status_code 300

-- The client's Post by the number of the attempt: the status code, or none for an error.
module _ (huge : ℕ → ℤ) (post : ℕ → Option ℕ) where
  -- for attempt := 0; attempt <= w.maxRetries; attempt++, by the rounds left.
  unfoldable pub send_attempts : ℕ → ℕ → Delivery
  unfolding backoff
  send_attempts zero attempt = record { sent = false; posts = 0; slept = 0 }
  send_attempts (suc rounds) attempt =
      let rest = send_attempts rounds (suc attempt) in
      if is_success (post attempt)
      then record { sent = true; posts = 1; slept = backoff huge attempt }
      else record {
        sent = rest.sent;
        posts = suc rest.posts;
        slept = backoff huge attempt + rest.slept;
      }

  unfoldable pub send_payload : ℤ → Delivery
  unfolding send_attempts
  send_payload max_retries =
      send_attempts (if ltb_ℤ max_retries (pos 0) then 0 else suc (pos_part max_retries)) 0

abbrev pub with_interval : Severity → ℤ → ℤ → Map Severity ℤ → Map Severity ℤ
with_interval sev n unit m = if ltb_ℤ (pos 0) n then m ++ (sev, wrap64 (n *ℤ unit)) ∷ [] else m

abbrev pub intervals_of : ℤ → ℤ → ℤ → ℤ → ℤ → Map Severity ℤ
intervals_of unit c h m l =
    with_interval low l unit
      (with_interval medium m unit (with_interval high h unit (with_interval critical c unit [])))

-- BuildRepeatIntervals, from minutes, and BuildIntervals, from seconds.
unfoldable pub build_repeat_intervals : ℤ → ℤ → ℤ → ℤ → Map Severity ℤ
build_repeat_intervals = intervals_of (pos (60 * second))

unfoldable pub build_intervals : ℤ → ℤ → ℤ → ℤ → Map Severity ℤ
build_intervals = intervals_of (pos second)
