-- ===== src/Events/Webhooks/Posts.antt =====
-- windows_os_api/core/events/webhooks.py: what `deliver` sends.
use win_os_layer.Common.{
  ◌≤◌, String, ◌≡◌, refl, ◌⊎◌, inl, inr, true, false, not, ◌||◌, Option, none, some, List, [], ◌++◌,
  arith, if_split, length, All, contains,
}
use win_os_layer.Common.Dict.{lookup}
use win_os_layer.Events.Webhooks.{
  Network, UrlError, webhook_event_types, validate_webhook_url, WebhookDestination, Event, Settings,
  WebhookError, url_code, DeliveryResult,
}
use win_os_layer.Events.Webhooks.Dispatcher.{
  Post, Transport, State, failed, skipped, contains_key, attempt_all, note_delivery, deliver_to,
  deliver_found, deliver,
}
use win_os_layer.Events.Webhooks.Egress.{IsEgress, validate_webhook_url-IsEgress}
use win_os_layer.Events.Webhooks.Attempts.{recording, IsSigned, attempt_all-Sent}

module _ {W : Type 0} (transport : Transport W) (hmac : String → String → String) (net : Network)
    (settings : Settings) where
  -- The URL of the destination passes the check.
  abbrev pub IsChecked : WebhookDestination → Type 0
  IsChecked dest = (url : String) × IsEgress net false dest.allow_loopback_http dest.url url

  -- A delivery to a destination: an event of an eligible type that it takes is sent to its URL, which
  -- is checked again, in as many signed posts as attempts, and nothing else is sent.
  abbrev pub SendsTo :
      State (W × List Post)
      → Event
      → WebhookDestination
      → State (W × List Post) × DeliveryResult
      → Type 0
  SendsTo s event dest (s', r) =
      (posts : List Post) × (s'.world.1 ≡ posts ++ s.world.1)
      × (r.attempts ≡ length posts)
      × (length posts ≤ settings.max_attempts)
      × All (IsSigned hmac dest event) posts
      × ((posts ≡ [])
          ⊎ (IsChecked dest
              × (contains event.type webhook_event_types ≡ true)
              × (contains event.type dest.event_types ≡ true)))

  silent :
      (s : State (W × List Post)) (event : Event) (dest : WebhookDestination) (r : DeliveryResult)
      → r.attempts ≡ 0
      → SendsTo s event dest (s, r)
  silent s event dest r e = ([], refl, e, omega arith, tt, inl refl)

  checked-SendsTo :
      (s : State (W × List Post)) (event : Event) (dest : WebhookDestination)
      → contains event.type webhook_event_types ≡ true
      → contains event.type dest.event_types ≡ true
      → (url : String ⊎ UrlError)
      → validate_webhook_url net false dest.allow_loopback_http dest.url ≡ url
      → SendsTo s event dest (elim url as (λ u. State (W × List Post) × DeliveryResult) [
        | inr e ↦ (s, failed 0 (record { last_status = none; last_code = some (url_code e) }))
        | inl u ↦
            note_delivery
              (recording transport)
              hmac
              net
              settings
              s
              (dest.id, event.id)
              (attempt_all
                (recording transport)
                hmac
                net
                settings
                dest
                event
                settings.max_attempts
                0
                (record { last_status = none; last_code = none })
                s.world)
      ])
  unfolding note_delivery
  checked-SendsTo s event dest eligible taken (inr e) h =
      silent s event dest (failed 0 (record { last_status = none; last_code = some (url_code e) }))
        refl
  checked-SendsTo s event dest eligible taken (inl u) h =
      let (posts, log, count, few, all) =
        attempt_all-Sent transport hmac net settings dest event settings.max_attempts 0
          (record { last_status = none; last_code = none }) s.world in
      let safe = validate_webhook_url-IsEgress net false dest.allow_loopback_http dest.url u h in
      (posts, log, omega (arith, count), few, all, inr ((u, safe), eligible, taken))

  deliver_to-SendsTo :
      (s : State (W × List Post)) (event : Event) (dest : WebhookDestination)
      → SendsTo s event dest (deliver_to (recording transport) hmac net settings s event dest)
  unfolding deliver_to note_delivery
  deliver_to-SendsTo s event dest =
      if_split (SendsTo s event dest)
        (not (contains event.type webhook_event_types)
          || not (contains event.type dest.event_types))
        _ _ (λ h. silent s event dest (skipped true) refl)
        (λ h.
          if_split (SendsTo s event dest) (contains_key (dest.id, event.id) s.dispatcher.delivered)
            _ _ (λ k. silent s event dest (skipped false) refl)
            (λ k.
              checked-SendsTo s event dest (ground arith) (ground arith)
                (validate_webhook_url net false dest.allow_loopback_http dest.url) refl))

  -- What `deliver` did.
  abbrev pub Sends :
      State (W × List Post)
      → Event
      → String
      → State (W × List Post) × (DeliveryResult ⊎ WebhookError)
      → Type 0
  Sends s event id (s', inr e) = (s' ≡ s) × (lookup id s.dispatcher.destinations ≡ none)
  Sends s event id (s', inl r) =
      (dest : WebhookDestination) × (lookup id s.dispatcher.destinations ≡ some dest)
      × SendsTo s event dest (s', r)

  deliver_found-Sends :
      (s : State (W × List Post)) (event : Event) (id : String) (found : Option WebhookDestination)
      → lookup id s.dispatcher.destinations ≡ found
      → Sends s event id (deliver_found (recording transport) hmac net settings s event found)
  deliver_found-Sends s event id none e = (refl, e)
  deliver_found-Sends s event id (some dest) e = (dest, e, deliver_to-SendsTo s event dest)

  -- A delivery to an id that is registered sends as many posts as it counts attempts, at most
  -- the maximum, each to the URL of that destination, which passed the check of URLs, with the id
  -- and the body of the event and, where neither that id nor the time stamp is empty, with a signature
  -- that its secret verifies; it sends only events of an eligible type that the
  -- destination takes; to any other id it sends nothing.
  pub deliver-Sends :
      (s : State (W × List Post)) (event : Event) (id : String)
      → Sends s event id (deliver (recording transport) hmac net settings s event id)
  unfolding deliver
  deliver-Sends s event id =
      deliver_found-Sends s event id (lookup id s.dispatcher.destinations) refl
