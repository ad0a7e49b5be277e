-- ===== src/RateLimit/Gate/Tests.antt =====
-- Runs of the gate.
use win_os_layer.Common.{◌≤◌, ◌≡◌, refl, true, false, none, some, [], ◌∷◌, arith, if◌then◌else◌}
use win_os_layer.Common.Dict.{lookup, insert}
use win_os_layer.Common.Text.{strip}
use win_os_layer.RateLimit.Gate.{
  ConcurrencyGate, principal_key, new, gate_key, try_acquire, release, in_flight_for,
}
use win_os_layer.RateLimit.Gate.Invariant.{
  IsValid, new-IsValid, try_acquire-IsValid, release-IsValid,
}
use win_os_layer.RateLimit.Gate.Slots.{
  Traffic, attempt, Reach, here, next, idle, Accounts, Reach-Accounts,
}

abbrev empty_gate : ConcurrencyGate
empty_gate = new 2 (some 1)

empty_gate-IsValid : IsValid empty_gate
empty_gate-IsValid = new-IsValid 2 (some 1)

abbrev one_slot : ConcurrencyGate
one_slot = (try_acquire empty_gate (some "a")).0

second_refused : (try_acquire one_slot (some " a ")).1 ≡ false
unfolding try_acquire new gate_key strip lookup insert
second_refused = refl

other_admitted : (try_acquire one_slot (some "b")).1 ≡ true
unfolding try_acquire new gate_key strip lookup insert
other_admitted = refl

anonymous_share : gate_key none ≡ gate_key (some "  ")
unfolding gate_key strip
anonymous_share = refl

key_of_header : principal_key (λ s. s) "10.0.0.1" (some " k1 ") ≡ "key:k1"
unfolding principal_key strip
key_of_header = refl

key_of_peer : principal_key (λ s. s) "10.0.0.1" (some "  ") ≡ "peer:10.0.0.1"
unfolding principal_key strip
key_of_peer = refl

try_acquire-IsValid_example : IsValid one_slot
try_acquire-IsValid_example = try_acquire-IsValid empty_gate (some "a") empty_gate-IsValid

one_slot_held : 1 ≤ in_flight_for one_slot (some "a")
unfolding in_flight_for try_acquire new gate_key strip lookup insert
one_slot_held = omega arith

release-IsValid_example : IsValid (release one_slot (some "a"))
release-IsValid_example =
    release-IsValid one_slot (some "a")
      (try_acquire-IsValid empty_gate (some "a") empty_gate-IsValid) one_slot_held

granted : (try_acquire empty_gate (some "a")).1 ≡ true
unfolding try_acquire new gate_key strip lookup insert
granted = refl

abbrev one_out : Traffic
one_out = record {
  gate = one_slot;
  slots = if (try_acquire empty_gate (some "a")).1 then gate_key (some "a") ∷ [] else [];
}

one_out_reached : Reach (idle 2 (some 1)) one_out
one_out_reached = next here (attempt (idle 2 (some 1)) (some "a"))

Reach-Accounts_example : Accounts one_out
Reach-Accounts_example = Reach-Accounts 2 (some 1) one_out_reached
