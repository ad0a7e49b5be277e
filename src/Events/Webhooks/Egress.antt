-- ===== src/Events/Webhooks/Egress.antt =====
-- windows_os_api/core/events/webhooks.py: what `validate_webhook_url` lets through.
use win_os_layer.Common.{
  String, ◌≡◌, refl, sym, ap, guard-inl, from_inl, if◌then◌else◌, ◌≢◌, ◌⊎◌, inl, inr, Bool, true,
  false, not, ◌&&◌, Option, none, some, List, [], ◌∷◌, arith, ◌==◌, eq_iff, if_split, Bool-cases,
  All, contains,
}
use win_os_layer.Common.Text.{strip, lower}
use Prim.Native.String
use win_os_layer.Events.Webhooks.{
  IpAddress, ParsedUrl, Network, normalised, UrlError, url_unparsable, url_missing, url_credentials,
  host_missing, scheme_denied, blocked_literal_hosts, loopback_hosts, is_blocked_address, is_nil,
  host_is_ip_literal, is_blocked_ip, resolve_host_ips, any_blocked, host_of, check_host,
  validate_webhook_url,
}

-- An address that is known and of none of the blocked kinds.
pub record IsPublicIp (net : Network) (ip : String) : Type 0 where
  pub address : IpAddress
  pub parsed : net.ip_address ip ≡ some address
  pub not_private : address.is_private ≡ false
  pub not_loopback : address.is_loopback ≡ false
  pub not_link_local : address.is_link_local ≡ false
  pub not_multicast : address.is_multicast ≡ false
  pub not_reserved : address.is_reserved ≡ false
  pub not_unspecified : address.is_unspecified ≡ false
  pub not_metadata : contains address.canonical ("169.254.169.254" ∷ "fd00:ec2::254" ∷ []) ≡ false

-- The name has addresses, and all of them are public.
abbrev pub HasPublicIps : Network → String → Type 0
HasPublicIps net host =
    (is_nil (resolve_host_ips net host) ≡ false) × All (IsPublicIp net) (resolve_host_ips net host)

abbrev pub with_query : String → String → String
with_query url query = if query == "" then url else String.◌++◌ url (String.◌++◌ "?" query)

-- What may be sent to: the loopback where it is asked for, or over https a host that is not blocked
-- and is a public address, or a name, which has addresses, all of them public, if it was looked up.
abbrev pub IsEgressHost : Network → Bool → Bool → ParsedUrl → String → String → String → Type 0
IsEgressHost net resolve_dns allow_loopback_http url scheme host out =
    ((allow_loopback_http ≡ true)
      × (scheme ≡ "http")
      × (contains host loopback_hosts ≡ true)
      × (out ≡ normalised net "http://" host url false))
    ⊎ ((scheme ≡ "https")
        × (out ≡ with_query (normalised net "https://" host url true) url.query)
        × (contains host blocked_literal_hosts ≡ false)
        × (IsPublicIp net host
            ⊎ ((host_is_ip_literal net host ≡ false)
                × ((resolve_dns ≡ true) → HasPublicIps net host))))

abbrev pub IsEgress : Network → Bool → Bool → String → String → Type 0
IsEgress net resolve_dns allow_loopback_http given out =
    (net.rejects (strip given) ≡ false)
    × ((net.urlparse (strip given)).has_credentials ≡ false)
    × (host_of net (strip given) ≢ "")
    × IsEgressHost net resolve_dns allow_loopback_http (net.urlparse (strip given))
        (lower (net.urlparse (strip given)).scheme) (host_of net (strip given)) out

-- What is accepted was not refused.
not_refused :
    (refusal : Option UrlError) (answer : String ⊎ UrlError) (url : String)
    → elim refusal as (λ r. String ⊎ UrlError) [ none ↦ answer | some e ↦ inr e ] ≡ inl url
    → (refusal ≡ none) × (answer ≡ inl url)
not_refused none answer url h = (refl, h)
not_refused (some e) answer url h = ground arith

module _ (net : Network) where
  is_blocked_ip-IsPublicIp :
      (ip : String) (found : Option IpAddress)
      → net.ip_address ip ≡ found
      → is_blocked_address found ≡ false
      → IsPublicIp net ip
  unfolding is_blocked_address
  is_blocked_ip-IsPublicIp ip none e h = ground arith
  is_blocked_ip-IsPublicIp ip (some a) e h = record {
    address = a;
    parsed = e;
    not_private = ground arith;
    not_loopback = ground arith;
    not_link_local = ground arith;
    not_multicast = ground arith;
    not_reserved = ground arith;
    not_unspecified = ground arith;
    not_metadata = ground arith;
  }

  any_blocked-All : (ips : List String) → any_blocked net ips ≡ false → All (IsPublicIp net) ips
  unfolding any_blocked
  any_blocked-All [] h = tt
  any_blocked-All (ip ∷ ips) h = (
    is_blocked_ip-IsPublicIp ip (net.ip_address ip) refl (ground arith),
    any_blocked-All ips (ground (arith, Bool-cases (is_blocked_ip net ip))),
  )

  check_host-none :
      (resolve_dns : Bool) (host : String)
      → check_host net resolve_dns host ≡ none
      → (contains host blocked_literal_hosts ≡ false)
        × (IsPublicIp net host
            ⊎ ((host_is_ip_literal net host ≡ false)
                × ((resolve_dns ≡ true) → HasPublicIps net host)))
  unfolding check_host
  check_host-none resolve_dns host h =
      let Open =
        (contains host blocked_literal_hosts ≡ false)
        × (IsPublicIp net host
            ⊎ ((host_is_ip_literal net host ≡ false)
                × ((resolve_dns ≡ true) → HasPublicIps net host))) in
      if_split (λ r. r ≡ none → Open) (contains host blocked_literal_hosts) _ _
        (λ t e. ground arith)
        (λ f.
          if_split (λ r. r ≡ none → Open) (host_is_ip_literal net host) _ _
            (λ i.
              if_split (λ r. r ≡ none → Open) (is_blocked_ip net host) _ _ (λ t e. ground arith)
                (λ b e. (f, inl (is_blocked_ip-IsPublicIp host (net.ip_address host) refl b))))
            (λ i.
              if_split (λ r. r ≡ none → Open) (not resolve_dns) _ _
                (λ n e. (f, inr (i, λ y. ground arith)))
                (λ y.
                  if_split (λ r. r ≡ none → Open) (is_nil (resolve_host_ips net host)) _ _
                    (λ t e. ground arith)
                    (λ k.
                      if_split (λ r. r ≡ none → Open) (any_blocked net (resolve_host_ips net host))
                        _ _ (λ t e. ground arith)
                        (λ b e.
                          (f, inr (i, λ z. (k, any_blocked-All (resolve_host_ips net host) b))))))))
        h

  pub validate_webhook_url-IsEgress :
      (resolve_dns allow_loopback_http : Bool) (given url : String)
      → validate_webhook_url net resolve_dns allow_loopback_http given ≡ inl url
      → IsEgress net resolve_dns allow_loopback_http given url
  unfolding validate_webhook_url
  validate_webhook_url-IsEgress resolve_dns allow_loopback_http given url h =
      let raw = strip given in
      let scheme = lower (net.urlparse raw).scheme in
      let host = host_of net raw in
      let parsed = net.urlparse raw in
      let (given_text, h1) = guard-inl (raw == "") url_missing _ url h in
      let (parsable, h1') = guard-inl (net.rejects raw) url_unparsable _ url h1 in
      let (no_credentials, h2) =
        guard-inl (net.urlparse raw).has_credentials url_credentials _ url h1' in
      let (named, h3) = guard-inl (host == "") host_missing _ url h2 in
      (
        parsable,
        no_credentials,
        ground (arith, eq_iff host ""),
        if_split
            (λ r.
              r ≡ inl url → IsEgressHost net resolve_dns allow_loopback_http parsed scheme host url)
            (allow_loopback_http && scheme == "http" && contains host loopback_hosts) _ _
            (λ t e.
              let (port_read, same) = guard-inl parsed.port_fails url_unparsable _ url e in
              inl (
                ground arith,
                ground (arith, eq_iff scheme "http"),
                ground arith,
                sym (ap (from_inl url) same),
              ))
            (λ f e.
              let (https, h4) = guard-inl (not (scheme == "https")) scheme_denied _ url e in
              let (allowed, answer) = not_refused (check_host net resolve_dns host) _ url h4 in
              let (open_host, reachable) = check_host-none resolve_dns host allowed in
              let (port_read, same) = guard-inl parsed.port_fails url_unparsable _ url answer in
              inr (
                ground (arith, eq_iff scheme "https"),
                sym (ap (from_inl url) same),
                open_host,
                reachable,
              ))
            h3,
      )
