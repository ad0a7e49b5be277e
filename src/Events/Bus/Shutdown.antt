-- ===== src/Events/Bus/Shutdown.antt =====
-- The end of the streams of a bus that was stopped.
use win_os_layer.Common.{
  ℕ, zero, suc, ◌+◌, ◌-◌, ◌≤◌, ◌≡◌, refl, sym, ap, ◌∙◌, inl, inr, Bool, true, false, some, List, [],
  ◌∷◌, arith, get_or, length, length-append,
}
use win_os_layer.Events.Bus.{
  Event, Item, event, stop_sentinel, Queue, EventBus, bus_closed, finished, received, tail,
  get_elem?, subscribe, receive, receive_from, receive_at, take_item, put_stop, inject_stop, stop,
  fan_out,
}
use win_os_layer.Events.Bus.Queues.{get_elem?-set, length-tail, items-cases, has_stop, has_stop-put}

module _ {P : Type 0} where
  -- Whether a subscriber sees the end of its stream within a number of rounds of its loop.
  unfoldable pub ends_within : ℕ → EventBus P → ℕ → Bool
  ends_within zero b i = false
  ends_within (suc n) b i =
      let (b', got) = receive b i in
      let rest = ends_within n b' i in elim got [ finished ↦ true | _ ↦ rest ]

  put_stop-has_stop : (maxsize : ℕ) (q : Queue P) → has_stop (put_stop maxsize q).0.items ≡ true
  unfolding put_stop
  put_stop-has_stop maxsize q = ground (arith, has_stop-put q.items, has_stop-put (tail q.items))

  put_stop-length :
      (maxsize : ℕ) (q : Queue P) → length (put_stop maxsize q).0.items ≤ length q.items + 1
  unfolding put_stop
  put_stop-length maxsize q = ground (
    arith,
    length-append q.items (stop_sentinel ∷ []),
    length-append (tail q.items) (stop_sentinel ∷ []),
    length-tail q.items,
  )

  get_elem?-inject_stop :
      (maxsize : ℕ) (qs : List (Queue P)) (queued i : ℕ) (q : Queue P)
      → get_elem? qs i ≡ some q
      → get_elem? (inject_stop maxsize qs queued).0 i ≡ some (put_stop maxsize q).0
  unfolding inject_stop
  get_elem?-inject_stop maxsize [] queued i q e = absurd cc
  get_elem?-inject_stop maxsize (p ∷ qs) queued zero q e =
      ap (λ o. some (put_stop maxsize (get_or p o)).0) e
  get_elem?-inject_stop maxsize (p ∷ qs) queued (suc i) q e =
      get_elem?-inject_stop maxsize qs (queued - (put_stop maxsize p).1) i q e

  module _ (b : EventBus P) (i : ℕ) (q : Queue P) (e : get_elem? b.subs i ≡ some q) where
    ends_at_stop :
        (n : ℕ) (is : List (Item P)) → q.items ≡ stop_sentinel ∷ is → ends_within (suc n) b i ≡ true
    unfolding ends_within receive
    ends_at_stop n is h = rw (e, h, ends_within, receive) refl

    receive-event :
        (d : Event P) (is : List (Item P))
        → q.items ≡ event d ∷ is
        → receive b i ≡ (take_item b i q, received d)
    unfolding receive
    receive-event d is h = ap (receive_at b i) e ∙ ap (receive_from b i q) h

    ends_behind_event :
        (n : ℕ) (d : Event P) (is : List (Item P))
        → q.items ≡ event d ∷ is
        → ends_within (suc n) b i ≡ ends_within n (take_item b i q) i
    unfolding ends_within
    ends_behind_event n d is h =
        ap (λ r. elim r.1 [ finished ↦ true | _ ↦ ends_within n r.0 i ]) (receive-event d is h)

  ends_of_has_stop :
      (n : ℕ) (b : EventBus P) (i : ℕ) (q : Queue P)
      → get_elem? b.subs i ≡ some q
      → has_stop q.items ≡ true
      → length q.items ≤ n
      → ends_within n b i ≡ true
  ends_of_has_stop zero b i q e h k = elim (items-cases q.items) [
    | inl o ↦ absurd (ground (arith, ap has_stop o))
    | inr (x, o) ↦ absurd (omega (arith, ap length o))
  ]
  ends_of_has_stop (suc n) b i q e h k = elim (items-cases q.items) [
    | inl o ↦ absurd (ground (arith, ap has_stop o))
    | inr (event d, o) ↦
        ends_behind_event b i q e n d (tail q.items) o
        ∙ ends_of_has_stop n (take_item b i q) i
            (record { items = tail q.items; pending = tail q.pending })
            (unfold take_item in
              get_elem?-set b.subs i q (record { items = tail q.items; pending = tail q.pending })
                e)
            (sym (ap has_stop o) ∙ h) (omega (arith, ap length o, k))
    | inr (stop_sentinel, o) ↦ ends_at_stop b i q e n (tail q.items) o
  ]

  -- Once the bus is stopped, each subscriber that goes on reading sees the end of its stream, in at
  -- most one round more than there were items in its queue, full queues included.
  pub stop-ends :
      (b : EventBus P) (i : ℕ) (q : Queue P)
      → get_elem? b.subs i ≡ some q
      → ends_within (length q.items + 1) (stop b) i ≡ true
  stop-ends b i q e =
      ends_of_has_stop (length q.items + 1) (stop b) i (put_stop b.queue_maxsize q).0
        (unfold stop in get_elem?-inject_stop b.queue_maxsize b.subs b.queued_bytes i q e)
        (put_stop-has_stop b.queue_maxsize q) (put_stop-length b.queue_maxsize q)

  -- A stopped bus takes no subscriber and no event any more: it keeps its queues, its history and
  -- its bytes.
  pub stop_refuses :
      (payload_bytes : P → ℕ) (b : EventBus P) (e : Event P)
      → (subscribe (stop b) ≡ inr bus_closed) × (fan_out payload_bytes (stop b) e ≡ stop b)
  unfolding stop subscribe fan_out
  stop_refuses payload_bytes b e = (refl, refl)
