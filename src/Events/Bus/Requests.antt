-- ===== src/Events/Bus/Requests.antt =====
-- The bus under every sequence of requests.
use win_os_layer.Common.{
  ℕ, ◌+◌, String, ◌≡◌, refl, ap, Sum-cases, ◌⊎◌, inl, inr, none, some, List, [], ◌∷◌, Option-cases,
}
use win_os_layer.Events.Bus.{
  Event, event, stop_sentinel, Queue, EventBus, get_elem?, new, leave, receive, take_item,
  provenance_of, stop, fan_out, accept, publish, accept_result, publish_result,
}
use win_os_layer.Events.Bus.Queues.{items-cases}
use win_os_layer.Events.Bus.Invariant.{
  IsValid, after_subscribe, new-IsValid, fan_out-IsValid, stop-IsValid, leave-IsValid,
  after_subscribe-IsValid, take_item-IsValid, counters-IsValid,
}

module _ {P : Type 0} where
  -- A subscriber waits, takes an event, or takes the sentinel and leaves.
  pub receive-cases :
      (b : EventBus P) (i : ℕ) (q : Queue P)
      → get_elem? b.subs i ≡ some q
      → ((receive b i).0 ≡ b)
        ⊎ (((receive b i).0 ≡ take_item b i q) ⊎ ((receive b i).0 ≡ leave (take_item b i q) i))
  unfolding receive take_item
  receive-cases b i q e = elim (items-cases q.items) [
    | inl h ↦ inl (rw (e, h, receive) refl)
    | inr (event d, h) ↦ inr (inl (rw (e, h, receive) refl))
    | inr (stop_sentinel, h) ↦ inr (inr (rw (e, h, receive) refl))
  ]

module _ {P : Type 0} (payload_bytes : P → ℕ) where
  module _ (sanitize : String → P → String → P ⊎ String) (b : EventBus P) (e : Event P) where
    pub publish_refused :
        (reason : String)
        → sanitize e.type e.payload (provenance_of e.provenance) ≡ inr reason
        → (publish payload_bytes sanitize b e).0
          ≡ record b { rejected = b.rejected + 1; last_reject_reason = some reason }
    unfolding publish accept
    publish_refused reason h = ap (λ s. (publish_result payload_bytes (accept_result b e s)).0) h

    pub publish_accepted :
        (clean : P)
        → sanitize e.type e.payload (provenance_of e.provenance) ≡ inl clean
        → (publish payload_bytes sanitize b e).0
          ≡ fan_out payload_bytes
              (record b { last_reject_reason = none })
              (record e { payload = clean; provenance = provenance_of e.provenance })
    unfolding publish accept
    publish_accepted clean h = ap (λ s. (publish_result payload_bytes (accept_result b e s)).0) h

    publish-IsValid :
        IsValid payload_bytes b → IsValid payload_bytes (publish payload_bytes sanitize b e).0
    publish-IsValid v = elim (Sum-cases (sanitize e.type e.payload (provenance_of e.provenance))) [
      | inl (clean, h) ↦ rw (publish_accepted clean h) (
          fan_out-IsValid payload_bytes (record b { last_reject_reason = none })
            (counters-IsValid payload_bytes b v b.rejected none)
            (record e { payload = clean; provenance = provenance_of e.provenance }))
      | inr (reason, h) ↦
          rw (publish_refused reason h)
            (counters-IsValid payload_bytes b v (b.rejected + 1) (some reason))
    ]

  receive-IsValid :
      (b : EventBus P) → IsValid payload_bytes b → (i : ℕ) → IsValid payload_bytes (receive b i).0
  receive-IsValid b v i = elim (Option-cases (get_elem? b.subs i)) [
    | inl e ↦ unfold receive in rw (e, receive) v
    | inr (q, e) ↦ elim (receive-cases b i q e) [
      | inl h ↦ rw h v
      | inr h ↦ elim h [
        | inl h ↦ rw h (take_item-IsValid payload_bytes b v i q e)
        | inr h ↦ rw h (
            leave-IsValid payload_bytes (take_item b i q)
              (take_item-IsValid payload_bytes b v i q e) i)
      ]
    ]
  ]

-- What the callers of a bus ask of it, in the order in which the bus serves them.
pub data Request (P : Type 0) : Type 0 where
  publish_event : Event P → Request P
  enter stop_bus : Request P
  take_next leave_bus : ℕ → Request P

module _ {P : Type 0} (payload_bytes : P → ℕ) (sanitize : String → P → String → P ⊎ String) where
  unfoldable pub serve : EventBus P → Request P → EventBus P
  serve b (publish_event e) = (publish payload_bytes sanitize b e).0
  serve b enter = after_subscribe b
  serve b stop_bus = stop b
  serve b (take_next i) = (receive b i).0
  serve b (leave_bus i) = leave b i

  unfoldable pub serve_all : EventBus P → List (Request P) → EventBus P
  serve_all b [] = b
  serve_all b (r ∷ rs) = serve_all (serve b r) rs

  serve-IsValid :
      (b : EventBus P) (r : Request P) → IsValid payload_bytes b → IsValid payload_bytes (serve b r)
  unfolding serve
  serve-IsValid b (publish_event e) v = publish-IsValid payload_bytes sanitize b e v
  serve-IsValid b enter v = after_subscribe-IsValid payload_bytes b v
  serve-IsValid b stop_bus v = stop-IsValid payload_bytes b v
  serve-IsValid b (take_next i) v = receive-IsValid payload_bytes b v i
  serve-IsValid b (leave_bus i) v = leave-IsValid payload_bytes b v i

  serve_all-IsValid_from :
      (b : EventBus P) (rs : List (Request P))
      → IsValid payload_bytes b
      → IsValid payload_bytes (serve_all b rs)
  unfolding serve_all
  serve_all-IsValid_from b [] v = v
  serve_all-IsValid_from b (r ∷ rs) v = serve_all-IsValid_from (serve b r) rs (serve-IsValid b r v)

  -- Whatever requests a new bus serves, it stays valid: each queue is charged for exactly the events
  -- that lie in it and keeps its bound, the bytes of the bus are the sum of these charges and at
  -- most the maximum, the number of subscribers is at most the maximum, and so is the length of the
  -- history, if its maximum is not 0.
  pub serve_all-IsValid :
      (maxsize max_history max_subscribers max_bytes : ℕ) (rs : List (Request P))
      → IsValid payload_bytes (serve_all (new maxsize max_history max_subscribers max_bytes) rs)
  serve_all-IsValid s h m y rs =
      serve_all-IsValid_from (new s h m y) rs (new-IsValid payload_bytes s h m y)
