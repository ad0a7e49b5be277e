-- ===== src/Events/Webhooks.antt =====
-- windows_os_api/core/events/webhooks.py. The world `W` is what the transport, the clock and sleeping
-- change. The body of an event and what `bytes` are taken of are texts; the texts of errors are not
-- modelled. The tuple of back-off times is not empty.
pub mod Dispatcher
pub mod Egress
pub mod Attempts
pub mod Posts
pub mod Kept
pub mod Once
mod Tests
use win_os_layer.Common.{
  ℕ, String, ◌⊎◌, inl, inr, Bool, true, false, not, ◌&&◌, ◌||◌, Option, none, some, List, [], ◌∷◌,
  ◌==◌, nat_eq, if◌then◌else◌, get_or, contains,
}
use win_os_layer.Common.Dict.{Dict}
use win_os_layer.Common.Text.{strip, lower}
use Prim.Native.String

-- The standard library and the name service: urlparse, ipaddress and getaddrinfo. `getaddrinfo` gives
-- the addresses of the two families of IP, or nothing for an `OSError`.
pub record IpAddress : Type 0 where
  pub is_private : Bool
  pub is_loopback : Bool
  pub is_link_local : Bool
  pub is_multicast : Bool
  pub is_reserved : Bool
  pub is_unspecified : Bool
  pub canonical : String

pub record ParsedUrl : Type 0 where
  pub scheme : String
  pub hostname : String
  pub has_credentials : Bool
  -- whether reading the port raises a `ValueError`, and the port otherwise
  pub port_fails : Bool
  pub port : Option ℕ
  pub path : String
  pub query : String

pub record Network : Type 0 where
  -- whether urlparse raises a `ValueError`, and what it returns otherwise
  pub rejects : String → Bool
  pub urlparse : String → ParsedUrl
  -- host.rstrip(".")
  pub without_dots : String → String
  -- ipaddress.ip_address, `none` for a `ValueError`
  pub ip_address : String → Option IpAddress
  pub getaddrinfo : String → Option (List String)
  pub decimal : ℕ → String

-- The codes of the errors of `validate_webhook_url`, and `url_unparsable` for a `ValueError` of urlparse
-- or of the port. Nothing catches that one: it leaves every function that meets it.
pub data UrlError : Type 0 where
  url_unparsable : UrlError
  url_missing url_credentials host_missing scheme_denied : UrlError
  host_denied ip_denied dns_failed dns_ip_denied : UrlError

abbrev pub webhook_event_types : List String
webhook_event_types =
    "workflow.step.proposed" ∷ "workflow.step.executed" ∷ "agent.goal.denied"
    ∷ "agent.goal.executed" ∷ "system.crash" ∷ []

abbrev pub blocked_literal_hosts : List String
blocked_literal_hosts = "metadata.google.internal" ∷ "metadata.goog" ∷ []

abbrev pub loopback_hosts : List String
loopback_hosts = "127.0.0.1" ∷ "localhost" ∷ "::1" ∷ []

unfoldable pub is_blocked_address : Option IpAddress → Bool
is_blocked_address none = true
is_blocked_address (some a) =
    a.is_private
    || a.is_loopback
    || a.is_link_local
    || a.is_multicast
    || a.is_reserved
    || a.is_unspecified
    || contains a.canonical ("169.254.169.254" ∷ "fd00:ec2::254" ∷ [])

-- The loop of `_resolve_host_ips` that drops what was seen.
unfoldable pub distinct : List String → List String → List String
distinct seen [] = []
distinct seen (ip ∷ ips) =
    let skipped = distinct seen ips in
    let kept = distinct (ip ∷ seen) ips in if contains ip seen then skipped else ip ∷ kept

abbrev pub is_nil : List String → Bool
is_nil [] = true
is_nil (x ∷ xs) = false

module _ (net : Network) where
  abbrev pub host_is_ip_literal : String → Bool
  host_is_ip_literal host = elim (net.ip_address host) [ none ↦ false | some a ↦ true ]

  abbrev pub is_blocked_ip : String → Bool
  is_blocked_ip ip = is_blocked_address (net.ip_address ip)

  unfoldable pub resolve_host_ips : String → List String
  resolve_host_ips hostname = distinct [] (get_or [] (net.getaddrinfo hostname))

  unfoldable pub any_blocked : List String → Bool
  any_blocked [] = false
  any_blocked (ip ∷ ips) = is_blocked_ip ip || any_blocked ips

  abbrev pub host_of : String → String
  host_of raw = net.without_dots (lower (net.urlparse raw).hostname)

  -- The ":port" of the normalised URL.
  abbrev pub port_text : Option ℕ → Bool → String
  port_text none hides_443 = ""
  port_text (some n) hides_443 =
      if nat_eq n 0 || hides_443 && nat_eq n 443 then "" else String.◌++◌ ":" (net.decimal n)

  abbrev pub normalised : String → String → ParsedUrl → Bool → String
  normalised prefix host url hides_443 =
      String.◌++◌ prefix (String.◌++◌ host (String.◌++◌ (port_text url.port hides_443) url.path))

  -- The tests of the host, where the scheme is https.
  unfoldable pub check_host : Bool → String → Option UrlError
  check_host resolve_dns host =
      let ips = resolve_host_ips host in
      if contains host blocked_literal_hosts
      then some host_denied
      else if host_is_ip_literal host
      then (if is_blocked_ip host then some ip_denied else none)
      else if not resolve_dns
      then none
      else if is_nil ips
      then some dns_failed
      else if any_blocked ips
      then some dns_ip_denied
      else none

  unfoldable pub validate_webhook_url : Bool → Bool → String → String ⊎ UrlError
  validate_webhook_url resolve_dns allow_loopback_http given =
      let raw = strip given in
      let url = net.urlparse raw in
      let scheme = lower url.scheme in
      let host = host_of raw in
      let https = normalised "https://" host url true in
      if raw == ""
      then inr url_missing
      else if net.rejects raw
      then inr url_unparsable
      else if url.has_credentials
      then inr url_credentials
      else if host == ""
      then inr host_missing
      else if allow_loopback_http && scheme == "http" && contains host loopback_hosts
      then (if url.port_fails
          then inr url_unparsable
          else inl (normalised "http://" host url false))
      else if not (scheme == "https")
      then inr scheme_denied
      else elim (check_host resolve_dns host) [
        | some e ↦ inr e
        | none ↦
            if url.port_fails
            then inr url_unparsable
            else inl
                (if url.query == "" then https else String.◌++◌ https (String.◌++◌ "?" url.query))
      ]

pub record WebhookDestination : Type 0 where
  pub id : String
  pub url : String
  pub secret : String
  pub event_types : List String
  pub allow_loopback_http : Bool

pub record Event : Type 0 where
  pub id : String
  pub type : String
  pub body : String

-- The settings of a dispatcher that do not change.
pub record Settings : Type 0 where
  pub max_attempts : ℕ
  pub first_delay : ℕ
  pub later_delays : List ℕ

pub record WebhookDispatcher : Type 0 where
  pub destinations : Dict WebhookDestination
  pub delivered : List (String × String)

pub data WebhookError : Type 0 where
  dest_invalid secret_missing type_denied dest_not_found : WebhookError
  url_rejected : UrlError → WebhookError

pub data FailureCode : Type 0 where
  http_retryable http_client transport_error : FailureCode
  transport_code : String → FailureCode
  url_code : UrlError → FailureCode

pub record DeliveryResult : Type 0 where
  pub ok : Bool
  pub attempts : ℕ
  pub skipped_idempotent : Bool
  pub skipped_type : Bool
  pub status_code : Option ℕ
  pub code : Option FailureCode
