-- ===== src/Events/Bus/History.antt =====
-- The history of the bus.
use win_os_layer.Common.{
  append_nil, append_cons, ℕ, ◌≡◌, sym, ap, ◌∙◌, false, List, [], ◌∷◌, ◌++◌, arith,
}
use win_os_layer.Events.Bus.{Event, EventBus, fan_out}

module _ {P : Type 0} (payload_bytes : P → ℕ) where
  unfoldable pub fan_out_all : EventBus P → List (Event P) → EventBus P
  fan_out_all b [] = b
  fan_out_all b (e ∷ es) = fan_out_all (fan_out payload_bytes b e) es

  fan_out-settings :
      (b : EventBus P) (e : Event P)
      → (b.max_history ≡ 0) × (b.stopped ≡ false)
      → ((fan_out payload_bytes b e).max_history ≡ 0)
        × ((fan_out payload_bytes b e).stopped ≡ false)
  unfolding fan_out
  fan_out-settings b e h = ground arith

  fan_out-history :
      (b : EventBus P) (e : Event P)
      → (b.max_history ≡ 0) × (b.stopped ≡ false)
      → (fan_out payload_bytes b e).history ≡ b.history ++ e ∷ []
  unfolding fan_out
  fan_out-history b e h = ground arith

  -- With a maximum of 0 the history is not bounded: a running bus then keeps every event.
  pub fan_out_all-history :
      (b : EventBus P) (es : List (Event P))
      → (b.max_history ≡ 0) × (b.stopped ≡ false)
      → (fan_out_all b es).history ≡ b.history ++ es
  unfolding fan_out_all
  fan_out_all-history b [] h = sym (append_nil b.history)
  fan_out_all-history b (e ∷ es) h =
      fan_out_all-history (fan_out payload_bytes b e) es (fan_out-settings b e h)
      ∙ ap (λ hs. hs ++ es) (fan_out-history b e h)
      ∙ append_cons b.history e es
