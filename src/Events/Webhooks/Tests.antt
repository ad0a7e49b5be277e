-- ===== src/Events/Webhooks/Tests.antt =====
-- Runs of the webhooks.
use win_os_layer.Common.{
  ℕ, String, ◌≡◌, refl, sym, subst, inl, inr, true, false, none, some, List, [], ◌∷◌, ◌==◌,
  if◌then◌else◌,
}
use win_os_layer.Common.Dict.{lookup, insert}
use win_os_layer.Common.Text.{strip}
use win_os_layer.Common.Text.{lower}
use Prim.Native.String
use win_os_layer.Events.Webhooks.{
  IpAddress, ParsedUrl, Network, scheme_denied, ip_denied, is_blocked_address, distinct,
  resolve_host_ips, any_blocked, check_host, validate_webhook_url, WebhookDestination, Event,
  Settings,
}
use win_os_layer.Events.Webhooks.Dispatcher.{
  Post, status, network_error, Transport, State, succeeded, delay_at, contains_key, all_eligible,
  signing_message, sign_payload, register, pause, attempt_all, note_delivery, deliver_to, deliver,
}
use win_os_layer.Events.Webhooks.{validate_webhook_url}
use win_os_layer.Events.Webhooks.Attempts.{recording}
use win_os_layer.Events.Webhooks.Posts.{Sends, deliver-Sends}
use win_os_layer.Events.Webhooks.Kept.{ask_register, ask_fan_out, serve, serve_all}
use win_os_layer.Events.Webhooks.Once.{new, deliver-once, Succeeds}

abbrev url_of : String → String → ParsedUrl
url_of scheme host = record {
  scheme = scheme;
  hostname = host;
  has_credentials = false;
  port_fails = false;
  port = none;
  path = "/in";
  query = "";
}

-- A private address.
abbrev private_ip : IpAddress
private_ip = record {
  is_private = true;
  is_loopback = false;
  is_link_local = false;
  is_multicast = false;
  is_reserved = false;
  is_unspecified = false;
  canonical = "10.0.0.1";
}

abbrev public_ip : IpAddress
public_ip = record private_ip { is_private = false; canonical = "93.184.216.34" }

abbrev net : Network
net = record {
  rejects = λ raw. false;
  urlparse = λ raw.
      if raw == "https://10.0.0.1/in"
      then url_of "https" "10.0.0.1"
      else if raw == "http://hooks.test/in"
      then url_of "http" "hooks.test"
      else url_of "https" "hooks.test";
  without_dots = λ host. host;
  ip_address = λ ip.
      if ip == "10.0.0.1"
      then some private_ip
      else if ip == "93.184.216.34"
      then some public_ip
      else none;
  getaddrinfo = λ host. some ("93.184.216.34" ∷ "93.184.216.34" ∷ []);
  decimal = λ n. "80";
}

-- A world of the statuses that the receiver will answer.
abbrev transport : Transport (List ℕ)
transport = record {
  now = λ w. "1700000000";
  post = λ w p. elim w [ [] ↦ ([], network_error) | n ∷ ns ↦ (ns, status n) ];
  sleep = λ w t. w;
}

abbrev hmac : String → String → String
hmac secret message = String.◌++◌ secret message

abbrev settings : Settings
settings = record { max_attempts = 3; first_delay = 50; later_delays = 100 ∷ 200 ∷ [] }

abbrev dest : WebhookDestination
dest = record {
  id = " d1 ";
  url = "https://hooks.test/in";
  secret = "s";
  event_types = "system.crash" ∷ [];
  allow_loopback_http = false;
}

abbrev crash : Event
crash = record { id = "e1"; type = "system.crash"; body = "{}" }

private_denied : validate_webhook_url net false false "https://10.0.0.1/in" ≡ inr ip_denied
unfolding validate_webhook_url strip lower check_host is_blocked_address
private_denied = refl

plain_http_denied : validate_webhook_url net false true "http://hooks.test/in" ≡ inr scheme_denied
unfolding validate_webhook_url strip lower
plain_http_denied = refl

-- A dispatcher with one destination, whose receiver is busy once and then takes what it gets.
abbrev registered : State (List ℕ × List Post)
registered =
    serve_all (recording transport) hmac net settings
      (new (recording transport) hmac net settings (503 ∷ 200 ∷ 200 ∷ [], []))
      (ask_register dest false ∷ [])

retried :
    (deliver (recording transport) hmac net settings registered crash "d1").1
    ≡ inl (succeeded 2 200)
unfolding serve_all serve register validate_webhook_url strip lower check_host is_blocked_address
    resolve_host_ips distinct any_blocked all_eligible insert lookup deliver deliver_to contains_key
    attempt_all pause delay_at recording note_delivery sign_payload signing_message
retried = refl

deliver-Sends_example :
    Sends transport hmac net settings registered crash "d1"
      (deliver (recording transport) hmac net settings registered crash "d1")
deliver-Sends_example = deliver-Sends transport hmac net settings registered crash "d1"

was_delivered :
    Succeeds
      (recording transport)
      hmac
      net
      settings
      (deliver (recording transport) hmac net settings registered crash "d1").1
was_delivered = subst (Succeeds (recording transport) hmac net settings) (sym retried) (refl, refl)

deliver-once_example :
    let s = (deliver (recording transport) hmac net settings registered crash "d1").0 in
    (deliver
      (recording transport)
      hmac
      net
      settings
      (serve_all (recording transport) hmac net settings s (ask_fan_out crash ∷ []))
      crash
      "d1").0
    ≡ serve_all (recording transport) hmac net settings s (ask_fan_out crash ∷ [])
deliver-once_example =
    deliver-once (recording transport) hmac net settings (503 ∷ 200 ∷ 200 ∷ [], [])
      (ask_register dest false ∷ []) (ask_fan_out crash ∷ []) crash crash "d1" was_delivered refl
