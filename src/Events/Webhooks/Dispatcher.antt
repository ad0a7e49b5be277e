-- ===== src/Events/Webhooks/Dispatcher.antt =====
-- windows_os_api/core/events/webhooks.py: signatures and `WebhookDispatcher`.
use win_os_layer.Common.{
  ℕ, zero, suc, ◌+◌, ◌-◌, String, ◌⊎◌, inl, inr, Bool, true, false, not, ◌&&◌, ◌||◌, Option, none,
  some, List, [], ◌∷◌, ◌==◌, ltb, leb, nat_eq, if◌then◌else◌, contains,
}
use win_os_layer.Common.Dict.{Dict, lookup, insert, erase}
use win_os_layer.Common.Text.{strip}
use Prim.Native.String
use win_os_layer.Events.Webhooks.{
  Network, webhook_event_types, is_nil, validate_webhook_url, WebhookDestination, Event, Settings,
  WebhookDispatcher, WebhookError, dest_invalid, secret_missing, type_denied, dest_not_found,
  url_rejected, url_unparsable, url_missing, url_credentials, host_missing, scheme_denied,
  host_denied, ip_denied, dns_failed, dns_ip_denied, FailureCode, http_retryable, http_client,
  transport_error, transport_code, url_code, DeliveryResult,
}

-- One HTTP POST with the headers of a signature.
pub record Post : Type 0 where
  pub url : String
  pub event_id : String
  pub timestamp : String
  pub signature : String
  pub body : String

pub data Answer : Type 0 where
  status : ℕ → Answer
  delivery_error : String → Answer
  network_error : Answer

pub record Transport (W : Type 0) : Type 0 where
  pub now : W → String
  pub post : W → Post → W × Answer
  pub sleep : W → ℕ → W

pub record State (W : Type 0) : Type 0 where
  pub dispatcher : WebhookDispatcher
  pub world : W

-- The status and the code of the last attempt.
pub record Last : Type 0 where
  pub last_status : Option ℕ
  pub last_code : Option FailureCode

pub data Verdict : Type 0 where
  done : ℕ → Verdict
  give_up again : Last → Verdict

-- What the loop does with the answer to an attempt.
abbrev pub judge : Last → Answer → Verdict
judge old (status n) =
    if leb 200 n && ltb n 300
    then done n
    else if nat_eq n 408 || nat_eq n 429 || leb 500 n
    then again (record { last_status = some n; last_code = some http_retryable })
    else give_up (record { last_status = some n; last_code = some http_client })
judge old (delivery_error c) = give_up (record old { last_code = some (transport_code c) })
judge old network_error = again (record old { last_code = some transport_error })

abbrev pub succeeded : ℕ → ℕ → DeliveryResult
succeeded attempts n = record {
  ok = true;
  attempts = attempts;
  skipped_idempotent = false;
  skipped_type = false;
  status_code = some n;
  code = none;
}

abbrev pub failed : ℕ → Last → DeliveryResult
failed attempts last = record {
  ok = false;
  attempts = attempts;
  skipped_idempotent = false;
  skipped_type = false;
  status_code = last.last_status;
  code = last.last_code;
}

abbrev pub skipped : Bool → DeliveryResult
skipped by_type = record {
  ok = true;
  attempts = 0;
  skipped_idempotent = not by_type;
  skipped_type = by_type;
  status_code = none;
  code = none;
}

-- backoff_seconds[min(index, len(backoff_seconds) - 1)]
unfoldable pub delay_at : ℕ → ℕ → List ℕ → ℕ
delay_at index d [] = d
delay_at zero d (later ∷ delays) = d
delay_at (suc index) d (later ∷ delays) = delay_at index later delays

unfoldable pub contains_key : String × String → List (String × String) → Bool
contains_key k [] = false
contains_key k (j ∷ js) = j.0 == k.0 && j.1 == k.1 || contains_key k js

unfoldable pub all_eligible : List String → Bool
all_eligible [] = true
all_eligible (t ∷ ts) = contains t webhook_event_types && all_eligible ts

-- The ids of the destinations that take a type of event.
unfoldable pub takers : String → Dict WebhookDestination → List String
takers type [] = []
takers type ((k, d) ∷ ds) =
    let rest = takers type ds in if contains type d.event_types then d.id ∷ rest else rest

module _ (hmac : String → String → String) where
  unfoldable pub signing_message : String → String → String → String
  signing_message body event_id timestamp =
      String.◌++◌ timestamp (String.◌++◌ "." (String.◌++◌ event_id (String.◌++◌ "." body)))

  unfoldable pub sign_payload : String → String → String → String → String
  sign_payload body event_id timestamp secret =
      String.◌++◌ "sha256=" (hmac secret (signing_message body event_id timestamp))

  unfoldable pub verify_signature : String → String → String → String → String → Bool
  verify_signature body event_id timestamp signature secret =
      not (signature == "")
      && not (event_id == "")
      && not (timestamp == "")
      && sign_payload body event_id timestamp secret == signature

module _ (net : Network) where
  unfoldable pub register :
      WebhookDispatcher
      → WebhookDestination
      → Bool
      → WebhookDispatcher × (WebhookDestination ⊎ WebhookError)
  register d dest skip_dns =
      let types = if is_nil dest.event_types then webhook_event_types else dest.event_types in
      if strip dest.id == ""
      then (d, inr dest_invalid)
      else if dest.secret == ""
      then (d, inr secret_missing)
      else if not (all_eligible types)
      then (d, inr type_denied)
      else elim (validate_webhook_url net (not skip_dns) dest.allow_loopback_http dest.url) [
        | inr e ↦ (d, inr (url_rejected e))
        | inl url ↦
            let stored : WebhookDestination = record dest {
              id = strip dest.id;
              url = url;
              event_types = types;
            } in
            (record d { destinations = insert stored.id stored d.destinations }, inl stored)
      ]

unfoldable pub unregister : WebhookDispatcher → String → WebhookDispatcher
unregister d id = record d { destinations = erase id d.destinations }

abbrev pub is_unparsable : Option FailureCode → Bool
is_unparsable (some (url_code url_unparsable)) = true
is_unparsable (some (url_code url_missing)) = false
is_unparsable (some (url_code url_credentials)) = false
is_unparsable (some (url_code host_missing)) = false
is_unparsable (some (url_code scheme_denied)) = false
is_unparsable (some (url_code host_denied)) = false
is_unparsable (some (url_code ip_denied)) = false
is_unparsable (some (url_code dns_failed)) = false
is_unparsable (some (url_code dns_ip_denied)) = false
is_unparsable (some http_retryable) = false
is_unparsable (some http_client) = false
is_unparsable (some transport_error) = false
is_unparsable (some (transport_code c)) = false
is_unparsable none = false

-- The `ValueError` of a URL, which ends a delivery and also a fan-out: an answer with this code stands
-- for it.
abbrev pub is_value_error : DeliveryResult ⊎ WebhookError → Bool
is_value_error (inl r) = is_unparsable r.code
is_value_error (inr e) = false

module _ {W : Type 0} (transport : Transport W) (hmac : String → String → String) (net : Network)
    (settings : Settings) where
  abbrev pub signed : WebhookDestination → Event → String → Post
  signed dest event ts = record {
    url = dest.url;
    event_id = event.id;
    timestamp = ts;
    signature = sign_payload hmac event.body event.id ts dest.secret;
    body = event.body;
  }

  -- The pause after an attempt, unless it was the last one.
  unfoldable pub pause : ℕ → ℕ → W → W
  pause zero attempt w = w
  pause (suc left) attempt w =
      let delay = delay_at (attempt - 1) settings.first_delay settings.later_delays in
      if nat_eq delay 0 then w else transport.sleep w delay

  -- The loop of `deliver` over the attempts that are left, after `n` of them.
  unfoldable pub attempt_all : WebhookDestination → Event → ℕ → ℕ → Last → W → W × DeliveryResult
  attempt_all dest event zero n last w = (w, failed n last)
  attempt_all dest event (suc left) n last w =
      let (w', answer) = transport.post w (signed dest event (transport.now w)) in
      elim (judge last answer) [
        | done code ↦ (w', succeeded (n + 1) code)
        | give_up last' ↦ (w', failed (n + 1) last')
        | again last' ↦ attempt_all dest event left (n + 1) last' (pause left (n + 1) w')
      ]

  -- What a delivery that was tried leaves.
  unfoldable pub note_delivery :
      State W → String × String → W × DeliveryResult → State W × DeliveryResult
  note_delivery s key (w, r) = (
    record {
      dispatcher =
          if r.ok
          then record s.dispatcher { delivered = key ∷ s.dispatcher.delivered }
          else s.dispatcher;
      world = w;
    },
    r,
  )

  -- `deliver`, to a destination that is registered.
  unfoldable pub deliver_to : State W → Event → WebhookDestination → State W × DeliveryResult
  deliver_to s event dest =
      let sent =
        attempt_all dest event settings.max_attempts 0
          (record { last_status = none; last_code = none }) s.world in
      if not (contains event.type webhook_event_types) || not (contains event.type dest.event_types)
      then (s, skipped true)
      else if contains_key (dest.id, event.id) s.dispatcher.delivered
      then (s, skipped false)
      else elim (validate_webhook_url net false dest.allow_loopback_http dest.url) [
        | inr e ↦ (s, failed 0 (record { last_status = none; last_code = some (url_code e) }))
        | inl url ↦ note_delivery s (dest.id, event.id) sent
      ]

  abbrev pub deliver_found :
      State W → Event → Option WebhookDestination → State W × (DeliveryResult ⊎ WebhookError)
  deliver_found s event none = (s, inr dest_not_found)
  deliver_found s event (some dest) = let (s', r) = deliver_to s event dest in (s', inl r)

  unfoldable pub deliver : State W → Event → String → State W × (DeliveryResult ⊎ WebhookError)
  deliver s event destination_id =
      deliver_found s event (lookup destination_id s.dispatcher.destinations)

  -- The loop of `fan_out`.
  unfoldable pub deliver_each :
      State W → Event → List String → State W × List (DeliveryResult ⊎ WebhookError)
  deliver_each s event [] = (s, [])
  deliver_each s event (id ∷ ids) =
      let (s', r) = deliver s event id in
      let (s'', rs) = deliver_each s' event ids in
      if is_value_error r then (s', r ∷ []) else (s'', r ∷ rs)

  unfoldable pub fan_out : State W → Event → State W × List (DeliveryResult ⊎ WebhookError)
  fan_out s event =
      if not (contains event.type webhook_event_types)
      then (s, [])
      else deliver_each s event (takers event.type s.dispatcher.destinations)
