-- ===== src/Events/Webhooks/Once.antt =====
-- windows_os_api/core/events/webhooks.py: what was delivered is not delivered again.
use win_os_layer.Common.{
  String, ◌≡◌, refl, sym, subst, ◌⊎◌, inl, inr, true, false, not, ◌||◌, Option, none, some, List,
  [], arith, if_split, contains,
}
use win_os_layer.Common.Dict.{lookup}
use win_os_layer.Events.Webhooks.{
  Network, webhook_event_types, WebhookDestination, Event, Settings, WebhookError, DeliveryResult,
}
use win_os_layer.Events.Webhooks.Dispatcher.{
  Transport, State, contains_key, deliver_to, deliver_found, deliver,
}
use win_os_layer.Events.Webhooks.Kept.{
  Request, IsKeyed, serve_all, deliver_to-Notes, deliver_found-Follows, serve_all-Follows,
}

no_destinations : IsKeyed []
unfolding lookup
no_destinations id dest h = ground arith

module _ {W : Type 0} (transport : Transport W) (hmac : String → String → String) (net : Network)
    (settings : Settings) where
  abbrev pub new : W → State W
  new w = record { dispatcher = record { destinations = []; delivered = [] }; world = w }

  -- The answer is a success, or a repetition of one.
  abbrev pub Succeeds : DeliveryResult ⊎ WebhookError → Type 0
  Succeeds (inl r) = (r.ok ≡ true) × (r.skipped_type ≡ false)
  Succeeds (inr e) = ⊥

  noted :
      (s : State W) (event : Event) (id : String) (found : Option WebhookDestination)
      → lookup id s.dispatcher.destinations ≡ found
      → IsKeyed s.dispatcher.destinations
      → Succeeds (deliver_found transport hmac net settings s event found).1
      → contains_key
          (id, event.id)
          (deliver_found transport hmac net settings s event found).0.dispatcher.delivered
        ≡ true
  noted s event id none e keyed h = ground arith
  noted s event id (some dest) e keyed (o, t) =
      subst
        (λ i.
          contains_key (i, event.id)
            (deliver_to transport hmac net settings s event dest).0.dispatcher.delivered
          ≡ true)
        (keyed id dest e) ((deliver_to-Notes transport hmac net settings s event dest).1 o t)

  stays :
      (s : State W) (event : Event) (id : String) (found : Option WebhookDestination)
      → lookup id s.dispatcher.destinations ≡ found
      → IsKeyed s.dispatcher.destinations
      → contains_key (id, event.id) s.dispatcher.delivered ≡ true
      → (deliver_found transport hmac net settings s event found).0 ≡ s
  unfolding deliver_to
  stays s event id none e keyed h = refl
  stays s event id (some dest) e keyed h =
      let k =
        subst (λ i. contains_key (i, event.id) s.dispatcher.delivered ≡ true)
          (sym (keyed id dest e)) h in
      if_split (λ (out : State W × DeliveryResult). out.0 ≡ s)
        (not (contains event.type webhook_event_types)
          || not (contains event.type dest.event_types))
        _ _ (λ t. refl)
        (λ t.
          if_split (λ (out : State W × DeliveryResult). out.0 ≡ s)
            (contains_key (dest.id, event.id) s.dispatcher.delivered) _ _ (λ d. refl)
            (λ d. ground arith))

  -- After any requests to a new dispatcher, once an event was delivered, no delivery of an event with
  -- the same id to the same destination does anything, after whatever further requests.
  pub deliver-once :
      (w : W) (earlier later : List Request) (event repeated : Event) (id : String)
      → Succeeds
          (deliver transport hmac net settings
            (serve_all transport hmac net settings (new w) earlier)
            event
            id).1
      → repeated.id ≡ event.id
      → let s =
          (deliver transport hmac net settings
            (serve_all transport hmac net settings (new w) earlier)
            event
            id).0 in
        let s' = serve_all transport hmac net settings s later in
        (deliver transport hmac net settings s' repeated id).0 ≡ s'
  unfolding deliver
  deliver-once w earlier later event repeated id h same =
      let s = serve_all transport hmac net settings (new w) earlier in
      let first = serve_all-Follows transport hmac net settings (new w) earlier in
      let keyed = first.1 no_destinations in
      let found = lookup id s.dispatcher.destinations in
      let after = (deliver_found transport hmac net settings s event found).0 in
      let step = deliver_found-Follows transport hmac net settings s event found in
      let rest = serve_all-Follows transport hmac net settings after later in
      let s' = serve_all transport hmac net settings after later in
      stays s' repeated id (lookup id s'.dispatcher.destinations) refl (rest.1 (step.1 keyed)) (
        subst (λ i. contains_key (id, i) s'.dispatcher.delivered ≡ true) (sym same)
          (rest.0 (id, event.id) (noted s event id found refl keyed h)))
