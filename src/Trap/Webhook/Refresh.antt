-- ===== src/Trap/Webhook/Refresh.antt =====
-- app/webhook.go: the webhook that is in use while its configuration changes in the device registry.
use snmp_olt_zte.Common.{
  ◌≡◌, refl, Bool, true, false, Bool-cases, inl, inr, Option, none, some, List, [], ◌∷◌, ◌++◌,
  if◌then◌else◌, Text, codes, text_eq, itoa, ok, err,
}
use snmp_olt_zte.Config.Fetch.{Reply, WebhookRemote, fetch_webhook_config}
use snmp_olt_zte.Trap.Webhook.{
  WebhookSettings, Client, ActiveWebhook, build_webhook_client, set_active_webhook, resolve_webhook,
}

abbrev pub settings_of : WebhookRemote → WebhookSettings
settings_of r = record {
  url = r.url;
  type = r.type;
  chat_id = r.chat_id;
  enabled = r.enabled;
  retries = r.retries;
  timeout = r.timeout;
}

-- `reply` is what the registry answers, or none if REGISTRY_URL is not set.
unfoldable pub current_webhook_settings :
    WebhookSettings → Option (Reply WebhookRemote) → WebhookSettings
unfolding fetch_webhook_config
current_webhook_settings env none = env
current_webhook_settings env (some reply) = elim (fetch_webhook_config reply) [
  | err e ↦ env
  | ok r ↦ settings_of r
]

abbrev pub bool_text : Bool → Text
bool_text true = codes "true"
bool_text false = codes "false"

unfoldable pub settings_key : WebhookSettings → Text
settings_key s =
    bool_text s.enabled
    ++ b'|'
      ∷ (s.url
          ++ b'|'
            ∷ (s.type ++ b'|' ∷ (s.chat_id ++ b'|' ∷ (itoa s.retries ++ b'|' ∷ itoa s.timeout))))

-- The refresher's `last`, and the active webhook.
pub record Refresher : Type 0 where
  pub last : Text
  pub active : ActiveWebhook

-- The first read of initWebhook; the refresher reads again when it starts.
unfoldable pub init_webhook :
    WebhookSettings → Option (Reply WebhookRemote) → Option (Reply WebhookRemote) → Refresher
unfolding current_webhook_settings settings_key build_webhook_client set_active_webhook
init_webhook env first second = record {
  last = settings_key (current_webhook_settings env second);
  active = set_active_webhook (build_webhook_client (current_webhook_settings env first)) none;
}

-- One tick, by the settings that it reads.
unfoldable pub refresh : WebhookSettings → Refresher → Refresher
unfolding settings_key build_webhook_client set_active_webhook
refresh s w = if text_eq (settings_key s) w.last then w else record {
  last = settings_key s;
  active = set_active_webhook (build_webhook_client s) w.active;
}

-- The ticks, each with the registry's answer.
unfoldable pub refreshes :
    WebhookSettings → List (Option (Reply WebhookRemote)) → Refresher → Refresher
unfolding refresh current_webhook_settings
refreshes env [] w = w
refreshes env (reply ∷ replies) w =
    refreshes env replies (refresh (current_webhook_settings env reply) w)

-- The webhook that every consumer takes is the one of settings with the key that was read last.
pub record IsCurrent (w : Refresher) : Type 0 where
  pub settings : WebhookSettings
  pub same_key : settings_key settings ≡ w.last
  pub in_use : (c : Option Client) → resolve_webhook w.active c ≡ build_webhook_client settings

refresh-IsCurrent : (s : WebhookSettings) (w : Refresher) → IsCurrent w → IsCurrent (refresh s w)
unfolding refresh resolve_webhook set_active_webhook
refresh-IsCurrent s w h = elim (Bool-cases (text_eq (settings_key s) w.last)) [
  | inl same ↦ rw same h
  | inr other ↦ rw other (record { settings = s; same_key = refl; in_use = λ c. refl })
]

-- After every tick the webhook in use is one of the settings' key that was read last, if the
-- refresher has started with the settings that were read before.
pub refreshes-IsCurrent :
    (env : WebhookSettings) (replies : List (Option (Reply WebhookRemote))) (w : Refresher)
    → IsCurrent w
    → IsCurrent (refreshes env replies w)
unfolding refreshes
refreshes-IsCurrent env [] w h = h
refreshes-IsCurrent env (reply ∷ replies) w h =
    refreshes-IsCurrent env replies (refresh (current_webhook_settings env reply) w)
      (refresh-IsCurrent (current_webhook_settings env reply) w h)
