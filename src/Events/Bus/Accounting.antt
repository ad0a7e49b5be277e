-- ===== src/Events/Bus/Accounting.antt =====
-- The bytes of the bus, and the events that it delivers or drops.
use win_os_layer.Common.{
  true, ℕ, zero, suc, ◌+◌, ◌-◌, ◌<◌, ◌≤◌, ◌≡◌, refl, ap, some, List, [], ◌∷◌, ◌++◌, arith,
  if◌then◌else◌, get_or, length, inl, inr, ◌⊎◌, ◌||◌, ltb, Bool-cases, if_split,
}
use win_os_layer.Events.Bus.{
  Event, event, Queue, EventBus, Delivery, is_full, sum, get_elem?, set, remove_at, put_stop,
  inject_stop, deliver, fan_out,
}
use win_os_layer.Events.Bus.Queues.{sum-append, sum-tail}

module _ {P : Type 0} where
  -- What the queues charge in all.
  abbrev pub total : List (Queue P) → ℕ
  total [] = 0
  total (q ∷ qs) = sum q.pending + total qs

  -- Each queue has the event behind its items; or it is as it was and counted as a drop, and then it was
  -- full or the bytes of the bus would have gone over their maximum. From one count of bytes and of drops
  -- to the last count of drops.
  module _ (size maxsize max_bytes : ℕ) (e : Event P) where
    abbrev pub Shared : (queued before after : ℕ) → List (Queue P) → List (Queue P) → Type 0
    Shared queued before after [] [] = after ≡ before
    Shared queued before after [] (r ∷ rs) = ⊥
    Shared queued before after (q ∷ qs) [] = ⊥
    Shared queued before after (q ∷ qs) (r ∷ rs) =
        ((r.items ≡ q.items ++ event e ∷ []) × Shared (queued + size) before after qs rs)
        ⊎ ((r ≡ q)
            × ((max_bytes < queued + size) ⊎ ((0 < maxsize) × (maxsize ≤ length q.items)))
            × Shared queued (before + 1) after qs rs)

  pub total-append : (qs rs : List (Queue P)) → total (qs ++ rs) ≡ total qs + total rs
  total-append [] rs = omega arith
  total-append (q ∷ qs) rs = omega (arith, total-append qs rs)

  pub total-set :
      (qs : List (Queue P)) (i : ℕ) (q r : Queue P)
      → get_elem? qs i ≡ some q
      → total (set qs i r) + sum q.pending ≡ total qs + sum r.pending
  total-set [] i q r e = absurd cc
  total-set (p ∷ qs) zero q r e = omega (arith, ap (λ o. sum (get_or p o).pending) e)
  total-set (p ∷ qs) (suc i) q r e = omega (arith, total-set qs i q r e)

  pub total-remove_at :
      (qs : List (Queue P)) (i : ℕ) (q : Queue P)
      → get_elem? qs i ≡ some q
      → total (remove_at qs i) + sum q.pending ≡ total qs
  total-remove_at [] i q e = absurd cc
  total-remove_at (p ∷ qs) zero q e = omega (arith, ap (λ o. sum (get_or p o).pending) e)
  total-remove_at (p ∷ qs) (suc i) q e = omega (arith, total-remove_at qs i q e)

  put_stop-reclaims :
      (maxsize : ℕ) (q : Queue P)
      → sum (put_stop maxsize q).0.pending + (put_stop maxsize q).1 ≡ sum q.pending
  unfolding put_stop
  put_stop-reclaims maxsize q = ground (arith, sum-tail q.pending)

  -- `inject_stop` gives back what it takes from the queues.
  pub inject_stop-total :
      (maxsize : ℕ) (qs : List (Queue P)) (queued : ℕ)
      → total qs ≤ queued
      → (inject_stop maxsize qs queued).1 + total qs
        ≡ queued + total (inject_stop maxsize qs queued).0
  unfolding inject_stop
  inject_stop-total maxsize [] queued h = refl
  inject_stop-total maxsize (q ∷ qs) queued h = omega (
    arith,
    put_stop-reclaims maxsize q,
    inject_stop-total maxsize qs (queued - (put_stop maxsize q).1)
        (omega (arith, put_stop-reclaims maxsize q)),
  )

  pub length-inject_stop :
      (maxsize : ℕ) (qs : List (Queue P)) (queued : ℕ)
      → length (inject_stop maxsize qs queued).0 ≡ length qs
  unfolding inject_stop
  length-inject_stop maxsize [] queued = refl
  length-inject_stop maxsize (q ∷ qs) queued =
      omega (arith, length-inject_stop maxsize qs (queued - (put_stop maxsize q).1))

  module _ (payload_bytes : P → ℕ) (maxsize max_bytes : ℕ) (e : Event P) where
    pub length-deliver :
        (qs : List (Queue P)) (queued dropped : ℕ)
        → length (deliver payload_bytes maxsize max_bytes e qs queued dropped).subs ≡ length qs
    unfolding deliver
    length-deliver [] queued dropped = refl
    length-deliver (q ∷ qs) queued dropped = ground (
      arith,
      length-deliver qs queued (dropped + 1),
      length-deliver qs (queued + payload_bytes e.payload) dropped,
    )

    -- The bytes that a delivery adds to the bus are those that it adds to the queues.
    pub deliver-total :
        (qs : List (Queue P)) (queued dropped : ℕ)
        → (deliver payload_bytes maxsize max_bytes e qs queued dropped).queued_bytes + total qs
          ≡ queued + total (deliver payload_bytes maxsize max_bytes e qs queued dropped).subs
    unfolding deliver
    deliver-total [] queued dropped = refl
    deliver-total (q ∷ qs) queued dropped = ground (
      arith,
      deliver-total qs queued (dropped + 1),
      deliver-total qs (queued + payload_bytes e.payload) dropped,
      sum-append q.pending (payload_bytes e.payload ∷ []),
    )

    -- A delivery never takes the bytes of the bus over the maximum.
    pub deliver-bytes-le :
        (qs : List (Queue P)) (queued dropped : ℕ)
        → queued ≤ max_bytes
        → (deliver payload_bytes maxsize max_bytes e qs queued dropped).queued_bytes ≤ max_bytes
    unfolding deliver
    deliver-bytes-le [] queued dropped h = h
    deliver-bytes-le (q ∷ qs) queued dropped h = ground (
      arith,
      deliver-bytes-le qs queued (dropped + 1) h,
      deliver-bytes-le qs (queued + payload_bytes e.payload) dropped,
    )

    deliver-Shared :
        (qs : List (Queue P)) (queued dropped : ℕ)
        → Shared
            (payload_bytes e.payload)
            maxsize
            max_bytes
            e
            queued
            dropped
            (deliver payload_bytes maxsize max_bytes e qs queued dropped).dropped
            qs
            (deliver payload_bytes maxsize max_bytes e qs queued dropped).subs
    unfolding deliver
    deliver-Shared [] queued dropped = refl
    deliver-Shared (q ∷ qs) queued dropped =
        let size = payload_bytes e.payload in
        let drop_reason : (ltb max_bytes (queued + size) || is_full maxsize q ≡ true)
            → (max_bytes < queued + size) ⊎ ((0 < maxsize) × (maxsize ≤ length q.items)) =
          λ h. ground arith in
        if_split
          (λ (d : Delivery P).
            Shared size maxsize max_bytes e queued dropped d.dropped (q ∷ qs) d.subs)
          (ltb max_bytes (queued + size) || is_full maxsize q) _ _
          (λ h. inr (refl, drop_reason h, deliver-Shared qs queued (dropped + 1)))
          (λ h. inl (refl, deliver-Shared qs (queued + size) dropped))

  -- A running bus loses no event in silence: behind the items of each of its queues, in their order,
  -- stands the event and nothing else, or the queue is as it was, one more drop is counted, and the
  -- queue was full or the bytes of the bus would have gone over their maximum; no other drop is counted,
  -- and no queue is added or removed. A stopped bus stays as it is.
  pub fan_out-conserves :
      (payload_bytes : P → ℕ) (b : EventBus P) (e : Event P)
      → if b.stopped
        then fan_out payload_bytes b e ≡ b
        else Shared
            (payload_bytes e.payload)
            b.queue_maxsize
            b.max_queued_bytes
            e
            b.queued_bytes
            b.dropped
            (fan_out payload_bytes b e).dropped
            b.subs
            (fan_out payload_bytes b e).subs
  unfolding fan_out
  fan_out-conserves payload_bytes b e = elim (Bool-cases b.stopped) [
    | inl h ↦ rw h refl
    | inr h ↦ rw h (
        deliver-Shared payload_bytes b.queue_maxsize b.max_queued_bytes e b.subs b.queued_bytes
          b.dropped)
  ]
