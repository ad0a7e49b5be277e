-- ===== src/Events/Bus.antt =====
-- EventBus of windows_os_api/core/events/bus.py. What runs under the lock or in one go on the event
-- loop is one step. `sanitize` is `validate_and_sanitize` of core/events/schema.py, and
-- `payload_bytes` is the size of the JSON text of a payload; both are parameters.
pub mod Accounting
pub mod Queues
pub mod Requests
pub mod Shutdown
pub mod History
pub mod Contents
pub mod Invariant
mod Tests
use win_os_layer.Common.{
  ℕ, zero, suc, ◌+◌, ◌-◌, String, ◌⊎◌, inl, inr, Bool, true, false, not, ◌&&◌, ◌||◌, Option, none,
  some, List, [], ◌∷◌, ◌++◌, ◌==◌, ltb, leb, nat_eq, if◌then◌else◌, length, last_n,
}

pub record Event (P : Type 0) : Type 0 where
  pub type : String
  pub payload : P
  pub id : String
  pub ts : ℕ
  pub provenance : String

pub data Item (P : Type 0) : Type 0 where
  event : Event P → Item P
  stop_sentinel : Item P

-- A subscriber queue with its `_winos_pending_sizes`.
pub record Queue (P : Type 0) : Type 0 where
  pub items : List (Item P)
  pub pending : List ℕ

pub record EventBus (P : Type 0) : Type 0 where
  pub queue_maxsize : ℕ
  pub max_history : ℕ
  pub max_subscribers : ℕ
  pub max_queued_bytes : ℕ
  pub subs : List (Queue P)
  pub history : List (Event P)
  pub queued_bytes : ℕ
  pub stopped : Bool
  pub published : ℕ
  pub rejected : ℕ
  pub dropped : ℕ
  pub last_reject_reason : Option String

pub data SubscribeError : Type 0 where
  bus_closed bus_at_capacity : SubscribeError

-- What the loop of `_fan_out` changes: the queues, the bytes queued and the drops.
pub record Delivery (P : Type 0) : Type 0 where
  pub subs : List (Queue P)
  pub queued_bytes : ℕ
  pub dropped : ℕ

-- What a subscriber gets from its queue: an event, or the end of the stream.
pub data Received (P : Type 0) : Type 0 where
  nothing finished : Received P
  received : Event P → Received P

abbrev pub sum : List ℕ → ℕ
sum [] = 0
sum (n ∷ ns) = n + sum ns

abbrev pub head_or_zero : List ℕ → ℕ
head_or_zero [] = 0
head_or_zero (n ∷ ns) = n

abbrev pub tail {ℓ} : {A : Type ℓ} → List A → List A
tail [] = []
tail (x ∷ xs) = xs

module _ {ℓ} {A : Type ℓ} where
  abbrev pub get_elem? : List A → ℕ → Option A
  get_elem? [] i = none
  get_elem? (q ∷ qs) zero = some q
  get_elem? (q ∷ qs) (suc i) = get_elem? qs i

  abbrev pub set : List A → ℕ → A → List A
  set [] i q' = []
  set (q ∷ qs) zero q' = q' ∷ qs
  set (q ∷ qs) (suc i) q' = q ∷ set qs i q'

  abbrev pub remove_at : List A → ℕ → List A
  remove_at [] i = []
  remove_at (q ∷ qs) zero = qs
  remove_at (q ∷ qs) (suc i) = q ∷ remove_at qs i

-- The provenance that `publish` hands on.
abbrev pub provenance_of : String → String
provenance_of text = if text == "" then "internal" else text

module _ {P : Type 0} where
  -- `asyncio.Queue.full()`: a queue of size 0 has no bound.
  abbrev pub is_full : ℕ → Queue P → Bool
  is_full maxsize q = not (nat_eq maxsize 0) && leb maxsize (length q.items)

  -- The first two tests of `subscribe`, and the new queue.
  unfoldable pub subscribe : EventBus P → EventBus P ⊎ SubscribeError
  subscribe b =
      if b.stopped
      then inr bus_closed
      else if leb b.max_subscribers (length b.subs)
      then inr bus_at_capacity
      else inl (record b { subs = b.subs ++ (record { items = []; pending = [] }) ∷ [] })

  -- The `finally` block of `subscribe`, for the subscriber at a position.
  unfoldable pub leave : EventBus P → ℕ → EventBus P
  leave b i = elim (get_elem? b.subs i) [
    | none ↦ b
    | some q ↦ record b { subs = remove_at b.subs i; queued_bytes = b.queued_bytes - sum q.pending }
  ]

  -- A subscriber takes the first item of its queue and gives its bytes back.
  unfoldable pub take_item : EventBus P → ℕ → Queue P → EventBus P
  take_item b i q = record b {
    subs = set b.subs i (record { items = tail q.items; pending = tail q.pending });
    queued_bytes = b.queued_bytes - head_or_zero q.pending;
  }

  -- One round of the loop of `subscribe`, for the items of its queue: `nothing` where the queue is
  -- empty and `get` waits.
  abbrev pub receive_from : EventBus P → ℕ → Queue P → List (Item P) → EventBus P × Received P
  receive_from b i q [] = (b, nothing)
  receive_from b i q (event e ∷ rest) = (take_item b i q, received e)
  receive_from b i q (stop_sentinel ∷ rest) = (leave (take_item b i q) i, finished)

  abbrev pub receive_at : EventBus P → ℕ → Option (Queue P) → EventBus P × Received P
  receive_at b i none = (b, nothing)
  receive_at b i (some q) = receive_from b i q q.items

  unfoldable pub receive : EventBus P → ℕ → EventBus P × Received P
  receive b i = receive_at b i (get_elem? b.subs i)

  -- `_put_stop`: the queue, and the bytes that it gave back to make room.
  unfoldable pub put_stop : ℕ → Queue P → Queue P × ℕ
  put_stop maxsize q =
      if not (is_full maxsize q) then (record q { items = q.items ++ stop_sentinel ∷ [] }, 0) else (
        record { items = tail q.items ++ stop_sentinel ∷ []; pending = tail q.pending },
        head_or_zero q.pending,
      )

  -- `_inject_stop`
  unfoldable pub inject_stop : ℕ → List (Queue P) → ℕ → List (Queue P) × ℕ
  inject_stop maxsize [] queued = ([], queued)
  inject_stop maxsize (q ∷ qs) queued =
      let (q', reclaimed) = put_stop maxsize q in
      let (qs', queued') = inject_stop maxsize qs (queued - reclaimed) in (q' ∷ qs', queued')

  unfoldable pub stop : EventBus P → EventBus P
  stop b =
      let (subs, queued) = inject_stop b.queue_maxsize b.subs b.queued_bytes in
      record b { stopped = true; subs = subs; queued_bytes = queued }

  -- `EventBus.__init__`
  unfoldable pub new : ℕ → ℕ → ℕ → ℕ → EventBus P
  new queue_maxsize max_history max_subscribers max_queued_bytes = record {
    queue_maxsize = queue_maxsize;
    max_history = max_history;
    max_subscribers = max_subscribers;
    max_queued_bytes = max_queued_bytes;
    subs = [];
    history = [];
    queued_bytes = 0;
    stopped = false;
    published = 0;
    rejected = 0;
    dropped = 0;
    last_reject_reason = none;
  }

  -- `history`
  unfoldable pub recent_history : EventBus P → ℕ → List (Event P)
  recent_history b limit = last_n limit b.history

module _ {P : Type 0} where
  -- `_accept`, once the sanitizer has answered.
  abbrev pub accept_result : EventBus P → Event P → P ⊎ String → EventBus P × Option (Event P)
  accept_result b e (inr reason) =
      (record b { rejected = b.rejected + 1; last_reject_reason = some reason }, none)
  accept_result b e (inl clean) = (
    record b { last_reject_reason = none },
    some (record e { payload = clean; provenance = provenance_of e.provenance }),
  )

module _ {P : Type 0} (payload_bytes : P → ℕ) where
  -- The loop of `_fan_out` over the queues.
  unfoldable pub deliver : ℕ → ℕ → Event P → List (Queue P) → ℕ → ℕ → Delivery P
  deliver maxsize max_bytes e [] queued dropped = record {
    subs = [];
    queued_bytes = queued;
    dropped = dropped;
  }
  deliver maxsize max_bytes e (q ∷ qs) queued dropped =
      let size = payload_bytes e.payload in
      let skipped = deliver maxsize max_bytes e qs queued (dropped + 1) in
      let taken = deliver maxsize max_bytes e qs (queued + size) dropped in
      if ltb max_bytes (queued + size) || is_full maxsize q
      then record skipped { subs = q ∷ skipped.subs }
      else record taken {
        subs =
            record { items = q.items ++ event e ∷ []; pending = q.pending ++ size ∷ [] }
            ∷ taken.subs;
      }

  -- `_fan_out`, without the notification of the webhooks, which does not touch the bus.
  unfoldable pub fan_out : EventBus P → Event P → EventBus P
  fan_out b e =
      let longer = b.history ++ e ∷ [] in
      let d = deliver b.queue_maxsize b.max_queued_bytes e b.subs b.queued_bytes b.dropped in
      if b.stopped then b else record b {
        history = if ltb b.max_history (length longer) then last_n b.max_history longer else longer;
        published = b.published + 1;
        subs = d.subs;
        queued_bytes = d.queued_bytes;
        dropped = d.dropped;
      }

  -- `publish`, once the event is accepted.
  abbrev pub publish_result : EventBus P × Option (Event P) → EventBus P × Option (Event P)
  publish_result (b, none) = (b, none)
  publish_result (b, some clean) = (fan_out b clean, some clean)

  module _ (sanitize : String → P → String → P ⊎ String) where
    -- `_accept`
    unfoldable pub accept : EventBus P → Event P → EventBus P × Option (Event P)
    accept b e = accept_result b e (sanitize e.type e.payload (provenance_of e.provenance))

    -- `publish`
    unfoldable pub publish : EventBus P → Event P → EventBus P × Option (Event P)
    publish b e = publish_result (accept b e)
