-- ===== src/Agent/Tests.antt =====
-- Runs of the gate of the agent.
use win_os_layer.Common.{ℕ, String, ◌≡◌, refl, Bool, true, none, some, List, [], ◌∷◌, ltb, nat_eq}
use win_os_layer.Common.Dict.{Dict, lookup, insert}
use win_os_layer.Agent.Sandbox.{
  SandboxPolicy, default_policy, set_policy, get_policy, check_policy, check_action, exceeds,
}
use win_os_layer.Agent.Gate.{
  Value, number, text, workflow, policy, execute, refuse, is_injection_auth_key, check_steps,
  strip_injection_auth_claims, decide, evaluate,
}

-- Confidence in percent.
abbrev zero_percent : ℕ → Bool
zero_percent n = nat_eq n 0

abbrev below_80 : ℕ → Bool
below_80 n = ltb n 80

abbrev policies : Dict SandboxPolicy
policies = set_policy [] (record (default_policy "notepad") { denied_actions = "format" ∷ [] })

abbrev plan : List String → Dict (Value ℕ)
plan steps = ("workflow", workflow steps) ∷ ("confidence", number 90) ∷ ("risk", text "low") ∷ []

safe_plan :
    evaluate zero_percent below_80 policies (plan ("open" ∷ "type" ∷ [])) "notepad" ≡ some execute
unfolding evaluate decide check_steps strip_injection_auth_claims is_injection_auth_key check_action
    check_policy get_policy set_policy exceeds lookup insert
safe_plan = refl

denied_step :
    evaluate zero_percent below_80 policies (plan ("open" ∷ "format" ∷ [])) "notepad"
    ≡ some (refuse policy)
unfolding evaluate decide check_steps strip_injection_auth_claims is_injection_auth_key check_action
    check_policy get_policy set_policy exceeds lookup insert
denied_step = refl

malformed_plan :
    evaluate zero_percent below_80 policies (("workflow", text "x") ∷ []) "notepad" ≡ none
unfolding evaluate strip_injection_auth_claims is_injection_auth_key lookup
malformed_plan = refl

abbrev no_format : SandboxPolicy
no_format = record (default_policy "paint") { denied_actions = "format" ∷ [] }

bypass_is_claim : is_injection_auth_key "bypass_gate" ≡ true
unfolding is_injection_auth_key
bypass_is_claim = refl
