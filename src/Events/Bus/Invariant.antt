-- ===== src/Events/Bus/Invariant.antt =====
-- What a valid bus is, and the steps that keep it valid.
use win_os_layer.Common.{
  ℕ, ◌+◌, ◌-◌, ◌≤◌, String, ◌≡◌, refl, subst, ◌≢◌, inl, inr, Bool, true, false, ◌||◌, Option, some,
  List, [], ◌∷◌, ◌++◌, arith, ltb, leb, Bool-cases, Option-cases, length, last_n, length-append,
  length-drop, All, All-append,
}
use win_os_layer.Events.Bus.{
  Event, Queue, EventBus, tail, get_elem?, is_full, new, subscribe, leave, take_item, put_stop,
  inject_stop, stop, deliver, fan_out,
}
use win_os_layer.Events.Bus.Queues.{
  All-get_elem?, All-set, All-remove_at, length-set, length-remove_at, sum-tail, QueueIsValid,
  pop-QueueIsValid, push-QueueIsValid, put_stop-QueueIsValid,
}
use win_os_layer.Events.Bus.Accounting.{
  total, total-append, total-set, total-remove_at, inject_stop-total, length-inject_stop,
  length-deliver, deliver-total, deliver-bytes-le,
}

pub length-last_n : {A : Type 0} (n : ℕ) (xs : List A) → n ≢ 0 → length (last_n n xs) ≤ n
length-last_n n xs h = ground (arith, length-drop (length xs - n) xs)

module _ {P : Type 0} where
  -- The bus after a call of `subscribe`, which raises without a change.
  unfoldable pub after_subscribe : EventBus P → EventBus P
  after_subscribe b = elim (subscribe b) [ inl b' ↦ b' | inr raised ↦ b ]

  pub after_subscribe_refused :
      (b : EventBus P)
      → (b.stopped || leb b.max_subscribers (length b.subs)) ≡ true
      → after_subscribe b ≡ b
  unfolding after_subscribe subscribe
  after_subscribe_refused b t = ground arith

  pub after_subscribe_granted :
      (b : EventBus P)
      → (b.stopped || leb b.max_subscribers (length b.subs)) ≡ false
      → after_subscribe b ≡ record b { subs = b.subs ++ record { items = []; pending = [] } ∷ [] }
  unfolding after_subscribe subscribe
  after_subscribe_granted b t = ground arith

module _ {P : Type 0} (payload_bytes : P → ℕ) where
  -- Every queue is valid, the bytes of the bus are those that the queues charge, and the bytes, the
  -- subscribers and the history keep their limits.
  pub record IsValid (b : EventBus P) : Type 0 where
    pub queues : All (QueueIsValid payload_bytes b.queue_maxsize b.stopped) b.subs
    pub bytes : b.queued_bytes ≡ total b.subs
    pub bytes_limit : b.queued_bytes ≤ b.max_queued_bytes
    pub subs_limit : length b.subs ≤ b.max_subscribers
    pub history_limit : b.max_history ≢ 0 → length b.history ≤ b.max_history

  pub new-IsValid : (s h m y : ℕ) → IsValid (new s h m y)
  unfolding new
  new-IsValid s h m y = record {
    queues = tt;
    bytes = refl;
    bytes_limit = omega arith;
    subs_limit = omega arith;
    history_limit = λ k. omega arith;
  }

  module _ (maxsize : ℕ) where
    deliver-queues :
        (max_bytes : ℕ) (e : Event P) (qs : List (Queue P)) (queued dropped : ℕ)
        → All (QueueIsValid payload_bytes maxsize false) qs
        → All
            (QueueIsValid payload_bytes maxsize false)
            (deliver payload_bytes maxsize max_bytes e qs queued dropped).subs
    unfolding deliver
    deliver-queues max_bytes e [] queued dropped h = tt
    deliver-queues max_bytes e (q ∷ qs) queued dropped h =
        elim (Bool-cases (ltb max_bytes (queued + payload_bytes e.payload) || is_full maxsize q)) [
          | inl t ↦ rw t (h.0, deliver-queues max_bytes e qs queued (dropped + 1) h.1)
          | inr t ↦ rw t (
            push-QueueIsValid payload_bytes maxsize false q h.0 e refl (ground arith),
            deliver-queues max_bytes e qs (queued + payload_bytes e.payload) dropped h.1,
          )
        ]

    inject_stop-le : (qs : List (Queue P)) (queued : ℕ) → (inject_stop maxsize qs queued).1 ≤ queued
    unfolding inject_stop
    inject_stop-le [] queued = omega arith
    inject_stop-le (q ∷ qs) queued =
        omega (arith, inject_stop-le qs (queued - (put_stop maxsize q).1))

    inject_stop-queues :
        (stopped : Bool) (qs : List (Queue P)) (queued : ℕ)
        → All (QueueIsValid payload_bytes maxsize stopped) qs
        → All (QueueIsValid payload_bytes maxsize true) (inject_stop maxsize qs queued).0
    unfolding inject_stop
    inject_stop-queues stopped [] queued h = tt
    inject_stop-queues stopped (q ∷ qs) queued h = (
      put_stop-QueueIsValid payload_bytes maxsize stopped q h.0,
      inject_stop-queues stopped qs (queued - (put_stop maxsize q).1) h.1,
    )

  module _ (b : EventBus P) (v : IsValid b) where
    fan_out_stopped : (e : Event P) → b.stopped ≡ true → fan_out payload_bytes b e ≡ b
    unfolding fan_out
    fan_out_stopped e t = ground arith

    pub fan_out-IsValid : (e : Event P) → IsValid (fan_out payload_bytes b e)
    fan_out-IsValid e = elim (Bool-cases b.stopped) [
      | inl t ↦ rw (fan_out_stopped e t) v
      | inr t ↦
          unfold fan_out in
          rw t (record {
            queues =
                deliver-queues b.queue_maxsize b.max_queued_bytes e b.subs b.queued_bytes b.dropped
                  (subst (λ s. All (QueueIsValid payload_bytes b.queue_maxsize s) b.subs) t
                    v.queues);
            bytes = omega (
              arith,
              v.bytes,
              deliver-total payload_bytes b.queue_maxsize b.max_queued_bytes e b.subs b.queued_bytes
                  b.dropped,
            );
            bytes_limit =
                deliver-bytes-le payload_bytes b.queue_maxsize b.max_queued_bytes e b.subs
                  b.queued_bytes b.dropped v.bytes_limit;
            subs_limit = omega (
              arith,
              v.subs_limit,
              length-deliver payload_bytes b.queue_maxsize b.max_queued_bytes e b.subs
                  b.queued_bytes b.dropped,
            );
            history_limit =
                λ h. ground (arith, length-last_n b.max_history (b.history ++ e ∷ []) h);
          })
    ]

    pub stop-IsValid : IsValid (stop b)
    unfolding stop
    stop-IsValid = record {
      queues = inject_stop-queues b.queue_maxsize b.stopped b.subs b.queued_bytes v.queues;
      bytes = omega (
        arith,
        v.bytes,
        inject_stop-total b.queue_maxsize b.subs b.queued_bytes (omega (arith, v.bytes)),
      );
      bytes_limit =
          omega
            (arith, v.bytes, v.bytes_limit, inject_stop-le b.queue_maxsize b.subs b.queued_bytes);
      subs_limit =
          omega (arith, v.subs_limit, length-inject_stop b.queue_maxsize b.subs b.queued_bytes);
      history_limit = v.history_limit;
    }

    pub leave-IsValid : (i : ℕ) → IsValid (leave b i)
    leave-IsValid i = elim (Option-cases (get_elem? b.subs i)) [
      | inl e ↦ unfold leave in rw (e, leave) v
      | inr (q, e) ↦
          unfold leave in
          rw (e, leave)
            (record {
              queues =
                  All-remove_at (QueueIsValid payload_bytes b.queue_maxsize b.stopped) b.subs i
                    v.queues;
              bytes = omega (arith, v.bytes, total-remove_at b.subs i q e);
              bytes_limit = omega (arith, v.bytes_limit);
              subs_limit = omega (arith, v.subs_limit, length-remove_at b.subs i);
              history_limit = v.history_limit;
            })
    ]

    pub after_subscribe-IsValid : IsValid (after_subscribe b)
    unfolding after_subscribe subscribe
    after_subscribe-IsValid =
        elim (Bool-cases (b.stopped || leb b.max_subscribers (length b.subs))) [
          | inl t ↦ rw (after_subscribe_refused b t) v
          | inr t ↦ rw (after_subscribe_granted b t) (record {
            queues =
                All-append (QueueIsValid payload_bytes b.queue_maxsize b.stopped) b.subs
                  (record { items = []; pending = [] } ∷ []) v.queues
                  (
                    record {
                      charged = refl;
                      ordered = refl;
                      running = λ h. refl;
                      bound = λ h. omega arith;
                    },
                    tt,
                  );
            bytes =
                omega
                  (arith, v.bytes, total-append b.subs (record { items = []; pending = [] } ∷ []));
            bytes_limit = v.bytes_limit;
            subs_limit = ground (
              arith,
              v.subs_limit,
              length-append b.subs (record { items = []; pending = [] } ∷ []),
            );
            history_limit = v.history_limit;
          })
        ]

    pub take_item-IsValid :
        (i : ℕ) (q : Queue P) → get_elem? b.subs i ≡ some q → IsValid (take_item b i q)
    unfolding take_item
    take_item-IsValid i q e = record {
      queues =
          All-set (QueueIsValid payload_bytes b.queue_maxsize b.stopped) b.subs i
            (record { items = tail q.items; pending = tail q.pending }) v.queues
            (pop-QueueIsValid payload_bytes b.queue_maxsize b.stopped q (
              All-get_elem? (QueueIsValid payload_bytes b.queue_maxsize b.stopped) b.subs i q
                v.queues e));
      bytes = omega (
        arith,
        v.bytes,
        sum-tail q.pending,
        total-set b.subs i q (record { items = tail q.items; pending = tail q.pending }) e,
      );
      bytes_limit = omega (arith, v.bytes_limit);
      subs_limit = omega (
        arith,
        v.subs_limit,
        length-set b.subs i (record { items = tail q.items; pending = tail q.pending }),
      );
      history_limit = v.history_limit;
    }

    pub counters-IsValid :
        (n : ℕ) (r : Option String) → IsValid (record b { rejected = n; last_reject_reason = r })
    counters-IsValid n r = record {
      queues = v.queues;
      bytes = v.bytes;
      bytes_limit = v.bytes_limit;
      subs_limit = v.subs_limit;
      history_limit = v.history_limit;
    }
