-- ===== src/Events/Bus/Contents.antt =====
-- What the queues and the history of the bus hold, and what its subscribers receive.
use win_os_layer.Common.{
  ℕ, zero, suc, ◌+◌, ◌-◌, String, ◌≡◌, sym, ap, ◌∙◌, subst, Sum-cases, ◌⊎◌, inl, inr, ◌||◌, Option,
  none, some, List, [], ◌∷◌, ◌++◌, arith, ltb, leb, if_rule, Bool-cases, Option-cases, length, drop,
  last_n, All, All-append,
}
use win_os_layer.Events.Bus.{
  Event, Item, event, stop_sentinel, Queue, EventBus, Received, received, tail, get_elem?, is_full,
  new, leave, receive, receive_from, receive_at, take_item, provenance_of, put_stop, inject_stop,
  stop, deliver, fan_out, publish,
}
use win_os_layer.Events.Bus.Queues.{All-get_elem?, All-set, All-remove_at}
use win_os_layer.Events.Bus.Invariant.{
  after_subscribe, after_subscribe_refused, after_subscribe_granted,
}
use win_os_layer.Events.Bus.Requests.{
  Request, publish_event, enter, stop_bus, take_next, leave_bus, serve, serve_all, publish_accepted,
  publish_refused, receive-cases,
}

module _ {A : Type 0} (Q : A → Type 0) where
  All-drop : (n : ℕ) (xs : List A) → All Q xs → All Q (drop n xs)
  All-drop zero xs h = h
  All-drop (suc n) [] h = tt
  All-drop (suc n) (x ∷ xs) h = All-drop n xs h.1

  All-last_n : (n : ℕ) (xs : List A) → All Q xs → All Q (last_n n xs)
  All-last_n n xs h = ground (arith, All-drop (length xs - n) xs h)

  All-tail : (xs : List A) → All Q xs → All Q (tail xs)
  All-tail [] h = tt
  All-tail (x ∷ xs) h = h.1

silent :
    {P : Type 0} (b : EventBus P) (i : ℕ) (o : Option (Queue P)) (e : Event P)
    → o ≡ none
    → (receive_at b i o).1 ≡ received e
    → ⊥
silent b i none e h k = cc
silent b i (some q) e h k = cc

module _ {P : Type 0} (Q : Event P → Type 0) where
  abbrev pub ItemHolds : Item P → Type 0
  ItemHolds (event e) = Q e
  ItemHolds stop_sentinel = Unit

  abbrev pub QueueHolds : Queue P → Type 0
  QueueHolds q = All ItemHolds q.items

  -- Every event in the history and in the queues is one of those wanted.
  pub record Holds (b : EventBus P) : Type 0 where
    pub kept : All Q b.history
    pub queued : All QueueHolds b.subs

  new-Holds : (s h m y : ℕ) → Holds (new s h m y)
  unfolding new
  new-Holds s h m y = record { kept = tt; queued = tt }

  module _ (payload_bytes : P → ℕ) (maxsize max_bytes : ℕ) (e : Event P) (good : Q e) where
    deliver-Holds :
        (qs : List (Queue P)) (queued dropped : ℕ)
        → All QueueHolds qs
        → All QueueHolds (deliver payload_bytes maxsize max_bytes e qs queued dropped).subs
    unfolding deliver
    deliver-Holds [] queued dropped h = tt
    deliver-Holds (q ∷ qs) queued dropped h =
        elim (Bool-cases (ltb max_bytes (queued + payload_bytes e.payload) || is_full maxsize q)) [
          | inl t ↦ rw t (h.0, deliver-Holds qs queued (dropped + 1) h.1)
          | inr t ↦ rw t (
            All-append ItemHolds q.items (event e ∷ []) h.0 (good, tt),
            deliver-Holds qs (queued + payload_bytes e.payload) dropped h.1,
          )
        ]

  put_stop-Holds : (maxsize : ℕ) (q : Queue P) → QueueHolds q → QueueHolds (put_stop maxsize q).0
  put_stop-Holds maxsize q h = elim (Bool-cases (is_full maxsize q)) [
    | inl e ↦
        unfold put_stop in
        rw e (
          All-append ItemHolds (tail q.items) (stop_sentinel ∷ []) (All-tail ItemHolds q.items h)
            (tt, tt))
    | inr e ↦ unfold put_stop in rw e (All-append ItemHolds q.items (stop_sentinel ∷ []) h (tt, tt))
  ]

  inject_stop-Holds :
      (maxsize : ℕ) (qs : List (Queue P)) (queued : ℕ)
      → All QueueHolds qs
      → All QueueHolds (inject_stop maxsize qs queued).0
  unfolding inject_stop
  inject_stop-Holds maxsize [] queued h = tt
  inject_stop-Holds maxsize (q ∷ qs) queued h = (
    put_stop-Holds maxsize q h.0,
    inject_stop-Holds maxsize qs (queued - (put_stop maxsize q).1) h.1,
  )

  module _ (b : EventBus P) (v : Holds b) where
    fan_out-Holds : (payload_bytes : P → ℕ) (e : Event P) → Q e → Holds (fan_out payload_bytes b e)
    fan_out-Holds payload_bytes e good =
        let longer = All-append Q b.history (e ∷ []) v.kept (good, tt) in
        let last = All-last_n Q b.max_history (b.history ++ e ∷ []) longer in
        let subs =
          deliver-Holds payload_bytes b.queue_maxsize b.max_queued_bytes e good b.subs
            b.queued_bytes b.dropped v.queued in
        unfold fan_out in
        if_rule Holds b.stopped b _ v (record {
          kept = if_rule (All Q) (ltb b.max_history (length (b.history ++ e ∷ []))) _ _ last longer;
          queued = subs;
        })

    stop-Holds : Holds (stop b)
    unfolding stop
    stop-Holds = record {
      kept = v.kept;
      queued = inject_stop-Holds b.queue_maxsize b.subs b.queued_bytes v.queued;
    }

    leave-Holds : (i : ℕ) → Holds (leave b i)
    leave-Holds i = elim (Option-cases (get_elem? b.subs i)) [
      | inl e ↦ unfold leave in rw (e, leave) v
      | inr (q, e) ↦
          unfold leave in
          rw (e, leave)
            (record { kept = v.kept; queued = All-remove_at QueueHolds b.subs i v.queued })
    ]

    take_item-Holds : (i : ℕ) (q : Queue P) → get_elem? b.subs i ≡ some q → Holds (take_item b i q)
    unfolding take_item
    take_item-Holds i q e = record {
      kept = v.kept;
      queued =
          All-set QueueHolds b.subs i (record { items = tail q.items; pending = tail q.pending })
            v.queued (All-tail ItemHolds q.items (All-get_elem? QueueHolds b.subs i q v.queued e));
    }

    after_subscribe-Holds : Holds (after_subscribe b)
    after_subscribe-Holds = elim (Bool-cases (b.stopped || leb b.max_subscribers (length b.subs))) [
      | inl t ↦ rw (after_subscribe_refused b t) v
      | inr t ↦ rw (after_subscribe_granted b t) (record {
        kept = v.kept;
        queued =
            All-append QueueHolds b.subs (record { items = []; pending = [] } ∷ []) v.queued
              (tt, tt);
      })
    ]

    counters-Holds :
        (n : ℕ) (r : Option String) → Holds (record b { rejected = n; last_reject_reason = r })
    counters-Holds n r = record { kept = v.kept; queued = v.queued }

  receive-Holds : (b : EventBus P) → Holds b → (i : ℕ) → Holds (receive b i).0
  receive-Holds b v i = elim (Option-cases (get_elem? b.subs i)) [
    | inl e ↦ unfold receive in rw (e, receive) v
    | inr (q, e) ↦ elim (receive-cases b i q e) [
      | inl h ↦ rw h v
      | inr (inl h) ↦ rw h (take_item-Holds b v i q e)
      | inr (inr h) ↦ rw h (leave-Holds (take_item b i q) (take_item-Holds b v i q e) i)
    ]
  ]

  from_items :
      (b : EventBus P) (i : ℕ) (q : Queue P) (is : List (Item P)) (e : Event P)
      → All ItemHolds is
      → (receive_from b i q is).1 ≡ received e
      → Q e
  from_items b i q [] e h k = absurd cc
  from_items b i q (event d ∷ is) e h k =
      subst Q (ap (λ (r : Received P). elim r [ received f ↦ f | _ ↦ d ]) k) h.0
  from_items b i q (stop_sentinel ∷ is) e h k = absurd cc

  -- A subscriber receives only events of the kind that the queues hold.
  pub received-Holds :
      (b : EventBus P) (i : ℕ) (e : Event P) → Holds b → (receive b i).1 ≡ received e → Q e
  unfolding receive
  received-Holds b i e v k = elim (Option-cases (get_elem? b.subs i)) [
    | inl n ↦ absurd (silent b i (get_elem? b.subs i) e n k)
    | inr (q, f) ↦
        from_items b i q q.items e (All-get_elem? QueueHolds b.subs i q v.queued f)
          (sym (ap (λ o. (receive_at b i o).1) f) ∙ k)
  ]

  module _ (payload_bytes : P → ℕ) (sanitize : String → P → String → P ⊎ String)
      (sound : (e : Event P) (clean : P)
        → sanitize e.type e.payload (provenance_of e.provenance) ≡ inl clean
        → Q (record e { payload = clean; provenance = provenance_of e.provenance })) where
    publish-Holds :
        (b : EventBus P) (e : Event P) → Holds b → Holds (publish payload_bytes sanitize b e).0
    publish-Holds b e v =
        elim (Sum-cases (sanitize e.type e.payload (provenance_of e.provenance))) [
          | inl (clean, h) ↦ rw (publish_accepted payload_bytes sanitize b e clean h) (
              fan_out-Holds (record b { last_reject_reason = none })
                (counters-Holds b v b.rejected none) payload_bytes
                (record e { payload = clean; provenance = provenance_of e.provenance })
                (sound e clean h))
          | inr (reason, h) ↦
              rw (publish_refused payload_bytes sanitize b e reason h)
                (counters-Holds b v (b.rejected + 1) (some reason))
        ]

    serve-Holds :
        (b : EventBus P) (r : Request P) → Holds b → Holds (serve payload_bytes sanitize b r)
    unfolding serve
    serve-Holds b (publish_event e) v = publish-Holds b e v
    serve-Holds b enter v = after_subscribe-Holds b v
    serve-Holds b stop_bus v = stop-Holds b v
    serve-Holds b (take_next i) v = receive-Holds b v i
    serve-Holds b (leave_bus i) v = leave-Holds b v i

    serve_all-Holds_from :
        (b : EventBus P) (rs : List (Request P))
        → Holds b
        → Holds (serve_all payload_bytes sanitize b rs)
    unfolding serve_all
    serve_all-Holds_from b [] v = v
    serve_all-Holds_from b (r ∷ rs) v =
        serve_all-Holds_from (serve payload_bytes sanitize b r) rs (serve-Holds b r v)

    -- If the sanitizer lets only good events pass, the bus holds only good events, whatever it is
    -- asked.
    pub serve_all-Holds :
        (s h m y : ℕ) (rs : List (Request P))
        → Holds (serve_all payload_bytes sanitize (new s h m y) rs)
    serve_all-Holds s h m y rs = serve_all-Holds_from (new s h m y) rs (new-Holds s h m y)
