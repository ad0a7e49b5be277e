-- ===== src/Agent/Gate/Conditions.antt =====
-- When a plan is executed, and what cannot change that.
use win_os_layer.Common.{
  String, Bool, true, false, not, ◌&&◌, Option, none, some, List, [], ◌∷◌, get_or,
}
use win_os_layer.Common.Dict.{Dict, lookup}
use win_os_layer.Agent.Sandbox.{SandboxPolicy, check_action, is_allowed, is_empty_list}
use win_os_layer.Agent.Gate.{
  Value, GateDecision, execute, refuse, truthy, steps_of, is_confident, is_low,
}

abbrev pub executes : GateDecision → Bool
executes execute = true
executes (refuse reason) = false

abbrev pub executes_some : Option GateDecision → Bool
executes_some none = false
executes_some (some d) = executes d

-- The sandbox allows every action at the low risk.
abbrev pub all_allowed : Dict SandboxPolicy → String → List String → Bool
all_allowed policies app_id [] = true
all_allowed policies app_id (action ∷ actions) =
    is_allowed (check_action policies app_id action "low") && all_allowed policies app_id actions

module _ {F : Type 0} (is_zero below_minimum : F → Bool) where
  -- The conditions of the gate, read from the plan as it came.
  abbrev pub permits : Dict SandboxPolicy → Dict (Value F) → String → Bool
  permits policies plan app_id =
      let steps = get_or [] (steps_of is_zero below_minimum (lookup "workflow" plan)) in
      not (is_empty_list steps)
      && not (truthy is_zero below_minimum (lookup "requires_confirmation" plan))
      && is_confident is_zero below_minimum (lookup "confidence" plan)
      && is_low is_zero below_minimum (lookup "risk" plan)
      && all_allowed policies app_id steps
