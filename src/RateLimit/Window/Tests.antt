-- ===== src/RateLimit/Window/Tests.antt =====
-- Runs of the limiter.
use win_os_layer.Common.{ℕ, String, ◌≡◌, refl, true, false, List, [], ◌∷◌, arith}
use win_os_layer.Common.Dict.{lookup, insert}
use win_os_layer.RateLimit.Window.{new, prune, allow, remaining}
use win_os_layer.RateLimit.Window.Bound.{spec_decisions, decisions, decisions-refines}

abbrev calls : List (String × ℕ)
calls = ("a", 1) ∷ ("a", 2) ∷ ("b", 3) ∷ ("a", 60_000_000_002) ∷ []

window_slides : decisions (new 1) calls ≡ true ∷ false ∷ true ∷ true ∷ []
unfolding decisions allow new prune lookup insert
window_slides = refl

remaining_after_one : (remaining (allow (new 3) "a" 1).0 "a" 5).1 ≡ 2
unfolding remaining allow new prune lookup insert
remaining_after_one = refl

decisions-refines_example : decisions (new 1) calls ≡ spec_decisions 1 [] calls
decisions-refines_example = decisions-refines 1 calls (omega arith)
