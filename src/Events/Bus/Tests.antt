-- ===== src/Events/Bus/Tests.antt =====
-- Runs of the bus.
use win_os_layer.Common.{
  ℕ, String, ◌≡◌, refl, ◌⊎◌, inl, inr, true, some, List, [], ◌∷◌, ltb, if◌then◌else◌,
}
use win_os_layer.Events.Bus.{
  Event, event, Queue, EventBus, bus_at_capacity, get_elem?, new, subscribe, leave, receive,
  take_item, put_stop, inject_stop, stop, deliver, fan_out, accept, publish,
}
use win_os_layer.Events.Bus.Accounting.{Shared, fan_out-conserves}
use win_os_layer.Events.Bus.Invariant.{IsValid, after_subscribe}
use win_os_layer.Events.Bus.Requests.{
  Request, publish_event, enter, stop_bus, take_next, serve, serve_all, serve_all-IsValid,
}
use win_os_layer.Events.Bus.Shutdown.{ends_within, stop-ends}
use win_os_layer.Events.Bus.History.{fan_out_all, fan_out_all-history}

-- Payloads are their own sizes.
abbrev size : ℕ → ℕ
size n = n

abbrev refuse_large : String → ℕ → String → ℕ ⊎ String
refuse_large type n provenance = if ltb 100 n then inr "payload_too_large" else inl n

abbrev an_event : ℕ → Event ℕ
an_event n = record { type = "window.opened"; payload = n; id = "e"; ts = 0; provenance = "" }

abbrev requests : List (Request ℕ)
requests =
    enter
    ∷ enter
    ∷ publish_event (an_event 3)
    ∷ publish_event (an_event 200)
    ∷ publish_event (an_event 4)
    ∷ take_next 1
    ∷ stop_bus
    ∷ []

abbrev small_bus : EventBus ℕ
small_bus = new 1 10 2 100

abbrev busy : EventBus ℕ
busy = serve_all size refuse_large small_bus (enter ∷ enter ∷ publish_event (an_event 3) ∷ [])

busy_bytes : busy.queued_bytes ≡ 6
unfolding serve_all serve after_subscribe subscribe publish accept fan_out deliver new
busy_bytes = refl

full_queues_drop : (fan_out size busy (an_event 4)).dropped ≡ 2
unfolding serve_all serve after_subscribe subscribe publish accept fan_out deliver new
full_queues_drop = refl

third_refused : subscribe busy ≡ inr bus_at_capacity
unfolding serve_all serve after_subscribe subscribe publish accept fan_out deliver new
third_refused = refl

rejected_event :
    (serve size refuse_large busy (publish_event (an_event 200))).last_reject_reason
    ≡ some "payload_too_large"
unfolding serve_all serve after_subscribe subscribe publish accept fan_out deliver new
rejected_event = refl

everything_reclaimed :
    (serve_all size refuse_large busy (stop_bus ∷ take_next 0 ∷ take_next 0 ∷ [])).queued_bytes ≡ 0
unfolding serve_all serve after_subscribe subscribe publish accept fan_out deliver new stop
    inject_stop put_stop receive take_item leave
everything_reclaimed = refl

serve_all-IsValid_example : IsValid size (serve_all size refuse_large (new 1 10 2 100) requests)
serve_all-IsValid_example = serve_all-IsValid size refuse_large 1 10 2 100 requests

fan_out-conserves_example :
    if busy.stopped
    then fan_out size busy (an_event 4) ≡ busy
    else Shared
        (size (an_event 4).payload)
        busy.queue_maxsize
        busy.max_queued_bytes
        (an_event 4)
        busy.queued_bytes
        busy.dropped
        (fan_out size busy (an_event 4)).dropped
        busy.subs
        (fan_out size busy (an_event 4)).subs
fan_out-conserves_example = fan_out-conserves size busy (an_event 4)

abbrev first_queue : Queue ℕ
first_queue = record {
  items = event (record (an_event 3) { provenance = "internal" }) ∷ [];
  pending = 3 ∷ [];
}

first_queue_found : get_elem? busy.subs 0 ≡ some first_queue
unfolding serve_all serve after_subscribe subscribe publish accept fan_out deliver new
first_queue_found = refl

stop-ends_example : ends_within 2 (stop busy) 0 ≡ true
stop-ends_example = stop-ends busy 0 first_queue first_queue_found

fan_out_all-history_example :
    (fan_out_all size (new 1 0 2 100) (an_event 1 ∷ an_event 2 ∷ [])).history
    ≡ an_event 1 ∷ an_event 2 ∷ []
unfolding new
fan_out_all-history_example =
    fan_out_all-history size (new 1 0 2 100) (an_event 1 ∷ an_event 2 ∷ []) (refl, refl)
