-- ===== src/Tests/Net.antt =====
-- The theorems on proxies, readiness checks and webhooks, at concrete inputs.
use snmp_olt_zte.Common.{
  negsuc, ◌<◌, ◌⊎◌, ℕ, zero, suc, ◌*◌, ◌+◌, ◌^◌, ◌≡◌, refl, true, false, Option, none, some, List,
  [], ◌∷◌, arith, if◌then◌else◌, Text, codes, text_eq, split, join, trim_space, ℤ, pos, ltb, inl,
  Result, ok, err,
}
use snmp_olt_zte.Access.Proxies.{
  NetIp, is_trusted, resolve_client_ip, IsProxy, resolve_client_ip_lem,
}
use snmp_olt_zte.Health.{Dependency, dependency}
use snmp_olt_zte.Config.Fetch.{FetchError, request_error, fetch_registry_olts_with_retry}
use snmp_olt_zte.Config.Fetch.Retries.{IsLast, fetch_registry_olts_with_retry-ends}
use snmp_olt_zte.Trap.Webhook.{second, is_success, send_payload}
use snmp_olt_zte.Trap.Webhook.Retries.{AllFail, send_payload_lem}

-- Addresses are texts that are not empty, and a prefix is one address.
abbrev texts_as_addresses : NetIp
texts_as_addresses = record {
  Addr = Text;
  Prefix = Text;
  parse_addr = λ s. if text_eq s [] then none else some s;
  parse_prefix = λ s. some s;
  masked = λ p. p;
  whole_addr = λ a. a;
  is_valid = λ a. true;
  unmap = λ a. a;
  addr_text = λ a. a;
  prefix_contains = text_eq;
  host_of = λ s. none;
}

abbrev proxies : List Text
proxies = codes "p" ∷ codes "q" ∷ []

q-IsProxy : IsProxy texts_as_addresses proxies (codes "q")
unfolding is_trusted text_eq trim_space
q-IsProxy = record { addr = codes "q"; parsed = refl; known = refl }

resolve_client_ip_example :
    resolve_client_ip texts_as_addresses proxies (codes "p") (codes "evil,c,q" ∷ []) (codes "evil")
    ≡ codes "c"
unfolding is_trusted text_eq split join trim_space
resolve_client_ip_example =
    resolve_client_ip_lem texts_as_addresses proxies (codes "p") (codes "evil")
      (codes "evil,c,q" ∷ []) (codes "evil" ∷ []) (codes "c") (codes "q" ∷ []) (codes "p") refl refl
      refl refl refl (q-IsProxy, tt)

abbrev redis_and_olt : List Dependency
redis_and_olt =
    record (dependency (codes "redis") (pos (30 * second)) true) { last_at = some (pos second) }
    ∷ dependency (codes "snmp") (pos (30 * second)) false
    ∷ []

abbrev seconds : ℕ → ℤ
seconds n = pos (n * second)

abbrev olt_down : ℕ → Text → Option Text
olt_down reads name = if text_eq name (codes "snmp") then some (codes "timeout") else none

-- The first two posts fail.
abbrev third_works : ℕ → Option ℕ
third_works n = if ltb n 2 then none else some 204

third_works-before : AllFail third_works 0 2
third_works-before zero lt = refl
third_works-before (suc zero) lt = refl
third_works-before (suc (suc i)) lt = absurd (omega (arith, lt))

-- What amd64 makes of a float that does not fit.
abbrev no_float : ℕ → ℤ
no_float n = negsuc 9_223_372_036_854_775_807

send_payload_example :
    ((send_payload no_float third_works (pos 3)).sent ≡ is_success (third_works 2))
    × ((send_payload no_float third_works (pos 3)).posts ≡ 3)
    × (((send_payload no_float third_works (pos 3)).slept + second ≡ 2 ^ 2 * second) ⊎ (34 < 2))
send_payload_example =
    send_payload_lem no_float third_works 3 2 (omega arith) third_works-before (inl refl)

-- The registry answers from the third attempt on, each of which takes a second.
abbrev registry_late : ℕ → Result FetchError Text
registry_late n =
    if ltb n 2 then err (request_error (codes "connection refused")) else ok (codes "[]")

abbrev one_second : ℕ → ℕ
one_second n = second

fetch_registry_olts_with_retry-ends_example :
    (answer : Result FetchError Text) × (fetch_registry_olts_with_retry registry_late one_second
        one_second
        (60 * second)
      ≡ some answer)
    × IsLast registry_late one_second one_second 0 answer
fetch_registry_olts_with_retry-ends_example =
    fetch_registry_olts_with_retry-ends registry_late one_second one_second (60 * second)
