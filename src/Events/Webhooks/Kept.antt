-- ===== src/Events/Webhooks/Kept.antt =====
-- windows_os_api/core/events/webhooks.py: what the requests to a dispatcher keep.
use win_os_layer.Common.{
  String, ◌≡◌, ◌⊎◌, inl, inr, Bool, true, false, not, ◌||◌, Option, none, some, List, [], ◌∷◌,
  arith, ◌==◌, eq_iff, eq_refl, if◌then◌else◌, if_rule, if_split, contains,
}
use win_os_layer.Common.Dict.{Dict, lookup, insert, lookup-insert, lookup-erase}
use win_os_layer.Common.Text.{strip}
use win_os_layer.Events.Webhooks.{
  Network, UrlError, webhook_event_types, is_nil, validate_webhook_url, WebhookDestination, Event,
  Settings, WebhookDispatcher, WebhookError, url_rejected, url_code, DeliveryResult,
}
use win_os_layer.Events.Webhooks.Dispatcher.{
  Transport, State, Last, failed, is_value_error, contains_key, all_eligible, takers, register,
  unregister, attempt_all, note_delivery, deliver_to, deliver_found, deliver, deliver_each, fan_out,
}

pub data Request : Type 0 where
  ask_register : WebhookDestination → Bool → Request
  ask_unregister : String → Request
  ask_deliver : Event → String → Request
  ask_fan_out : Event → Request

-- Each destination is stored under its own id.
abbrev pub IsKeyed : Dict WebhookDestination → Type 0
IsKeyed ds = (id : String) (dest : WebhookDestination) → lookup id ds ≡ some dest → dest.id ≡ id

module _ {W : Type 0} (transport : Transport W) (hmac : String → String → String) (net : Network)
    (settings : Settings) where
  unfoldable pub serve : State W → Request → State W
  serve s (ask_register dest skip_dns) = record s {
    dispatcher = (register net s.dispatcher dest skip_dns).0;
  }
  serve s (ask_unregister id) = record s { dispatcher = unregister s.dispatcher id }
  serve s (ask_deliver event id) = (deliver transport hmac net settings s event id).0
  serve s (ask_fan_out event) = (fan_out transport hmac net settings s event).0

  unfoldable pub serve_all : State W → List Request → State W
  serve_all s [] = s
  serve_all s (r ∷ rs) = serve_all (serve s r) rs

  -- From one state to a later one: what was delivered stays so, and the destinations stay keyed.
  abbrev pub Follows : State W → State W → Type 0
  Follows s s' =
      ((k : String × String)
        → contains_key k s.dispatcher.delivered ≡ true
        → contains_key k s'.dispatcher.delivered ≡ true)
      × (IsKeyed s.dispatcher.destinations → IsKeyed s'.dispatcher.destinations)

  Follows-refl : (s : State W) → Follows s s
  Follows-refl s = (λ k h. h, λ h. h)

  Follows-trans : (s t u : State W) → Follows s t → Follows t u → Follows s u
  Follows-trans s t u f g = (λ k h. g.0 k (f.0 k h), λ h. g.1 (f.1 h))

  -- A delivery leads to a later state, in which a success that was no skip by type is noted.
  abbrev pub Notes : State W → Event → WebhookDestination → State W × DeliveryResult → Type 0
  Notes s event dest (s', r) =
      Follows s s'
      × (r.ok ≡ true
          → r.skipped_type ≡ false
          → contains_key (dest.id, event.id) s'.dispatcher.delivered ≡ true)

  note_delivery-Notes :
      (s : State W) (event : Event) (dest : WebhookDestination) (sent : W × DeliveryResult)
      → Notes s event dest (note_delivery transport hmac net settings s (dest.id, event.id) sent)
  unfolding note_delivery contains_key
  note_delivery-Notes s event dest (w, r) =
      if_split
        (λ (d : WebhookDispatcher). Notes s event dest (record { dispatcher = d; world = w }, r))
        r.ok _ _
        (λ o.
          ((λ k h. ground arith, λ h. h), λ p q. ground (arith, eq_refl dest.id, eq_refl event.id)))
        (λ o. ((λ k h. h, λ h. h), λ p q. ground arith))

  checked-Notes :
      (s : State W) (event : Event) (dest : WebhookDestination) (last : Last)
      (sent : W × DeliveryResult) (url : String ⊎ UrlError)
      → Notes s event dest (elim url as (λ u. State W × DeliveryResult) [
        | inr e ↦ (s, failed 0 (record { last_status = none; last_code = some (url_code e) }))
        | inl u ↦ note_delivery transport hmac net settings s (dest.id, event.id) sent
      ])
  checked-Notes s event dest last sent (inr e) = (Follows-refl s, λ p q. ground arith)
  checked-Notes s event dest last sent (inl u) = note_delivery-Notes s event dest sent

  pub deliver_to-Notes :
      (s : State W) (event : Event) (dest : WebhookDestination)
      → Notes s event dest (deliver_to transport hmac net settings s event dest)
  unfolding deliver_to
  deliver_to-Notes s event dest =
      let fresh : Last = record { last_status = none; last_code = none } in
      if_split (Notes s event dest)
        (not (contains event.type webhook_event_types)
          || not (contains event.type dest.event_types))
        _ _ (λ h. (Follows-refl s, λ p q. ground arith))
        (λ h.
          if_split (Notes s event dest) (contains_key (dest.id, event.id) s.dispatcher.delivered) _
            _ (λ k. (Follows-refl s, λ p q. k))
            (λ k.
              checked-Notes s event dest fresh
                (attempt_all transport hmac net settings dest event settings.max_attempts 0 fresh
                  s.world)
                (validate_webhook_url net false dest.allow_loopback_http dest.url)))

  pub deliver_found-Follows :
      (s : State W) (event : Event) (found : Option WebhookDestination)
      → Follows s (deliver_found transport hmac net settings s event found).0
  deliver_found-Follows s event none = Follows-refl s
  deliver_found-Follows s event (some dest) = (deliver_to-Notes s event dest).0

  deliver_each-Follows :
      (s : State W) (event : Event) (ids : List String)
      → Follows s (deliver_each transport hmac net settings s event ids).0
  unfolding deliver_each deliver
  deliver_each-Follows s event [] = Follows-refl s
  deliver_each-Follows s event (id ∷ ids) =
      let s' = (deliver transport hmac net settings s event id).0 in
      let here = deliver_found-Follows s event (lookup id s.dispatcher.destinations) in
      if_rule (λ (out : State W × List (DeliveryResult ⊎ WebhookError)). Follows s out.0)
        (is_value_error (deliver transport hmac net settings s event id).1) _ _ here
        (Follows-trans s s' (deliver_each transport hmac net settings s' event ids).0 here
          (deliver_each-Follows s' event ids))

  accepted-Follows :
      (s : State W) (dest : WebhookDestination) (types : List String) (url : String ⊎ UrlError)
      → Follows s (record s {
        dispatcher =
            (elim url as (λ u. WebhookDispatcher × (WebhookDestination ⊎ WebhookError)) [
              | inr e ↦ (s.dispatcher, inr (url_rejected e))
              | inl u ↦
                  let stored : WebhookDestination = record dest {
                    id = strip dest.id;
                    url = u;
                    event_types = types;
                  } in
                  (
                    record s.dispatcher {
                      destinations = insert stored.id stored s.dispatcher.destinations;
                    },
                    inl stored,
                  )
            ]).0;
      })
  accepted-Follows s dest types (inr e) = Follows-refl s
  accepted-Follows s dest types (inl u) = (
    λ k h. h,
    λ keyed j d h.
        let stored : WebhookDestination = record dest {
          id = strip dest.id;
          url = u;
          event_types = types;
        } in
        ground (
          arith,
          keyed j d,
          lookup-insert stored.id j stored s.dispatcher.destinations,
          eq_iff stored.id j,
        ),
  )

  register-Follows :
      (s : State W) (dest : WebhookDestination) (skip_dns : Bool)
      → Follows s (record s { dispatcher = (register net s.dispatcher dest skip_dns).0 })
  unfolding register
  register-Follows s dest skip_dns =
      let types = if is_nil dest.event_types then webhook_event_types else dest.event_types in
      let Keeps : WebhookDispatcher × (WebhookDestination ⊎ WebhookError) → Type 0 =
        λ out. Follows s (record s { dispatcher = out.0 }) in
      if_rule Keeps (strip dest.id == "") _ _ (Follows-refl s) (
        if_rule Keeps (dest.secret == "") _ _ (Follows-refl s) (
          if_rule Keeps (not (all_eligible types)) _ _ (Follows-refl s) (
            accepted-Follows s dest types
              (validate_webhook_url net (not skip_dns) dest.allow_loopback_http dest.url))))

  unregister-Follows :
      (s : State W) (id : String) → Follows s (record s { dispatcher = unregister s.dispatcher id })
  unfolding unregister
  unregister-Follows s id = (
    λ k h. h,
    λ keyed j dest h. keyed j dest (ground (arith, lookup-erase id j s.dispatcher.destinations)),
  )

  serve-Follows : (s : State W) (r : Request) → Follows s (serve s r)
  unfolding serve deliver fan_out
  serve-Follows s (ask_register dest skip_dns) = register-Follows s dest skip_dns
  serve-Follows s (ask_unregister id) = unregister-Follows s id
  serve-Follows s (ask_deliver event id) =
      deliver_found-Follows s event (lookup id s.dispatcher.destinations)
  serve-Follows s (ask_fan_out event) =
      if_rule (λ (out : State W × List (DeliveryResult ⊎ WebhookError)). Follows s out.0)
        (not (contains event.type webhook_event_types)) _ _ (Follows-refl s)
        (deliver_each-Follows s event (takers event.type s.dispatcher.destinations))

  pub serve_all-Follows : (s : State W) (rs : List Request) → Follows s (serve_all s rs)
  unfolding serve_all
  serve_all-Follows s [] = Follows-refl s
  serve_all-Follows s (r ∷ rs) =
      Follows-trans s (serve s r) (serve_all (serve s r) rs) (serve-Follows s r)
        (serve_all-Follows (serve s r) rs)
