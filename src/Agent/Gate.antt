-- ===== src/Agent/Gate.antt =====
-- windows_os_api/apps/agent/gate.py. Numbers with a fraction are a parameter `F`, of which the gate
-- asks only whether one is below the minimal confidence.
pub mod Conditions
use win_os_layer.Common.{
  String, ◌≡◌, Bool, true, false, not, Option, none, some, List, [], ◌∷◌, arith, ◌==◌, eq_iff,
  if◌then◌else◌, contains,
}
use win_os_layer.Common.Dict.{Dict, lookup}
use win_os_layer.Agent.Sandbox.{SandboxPolicy, check_action, is_allowed}

-- What the values of a plan can be, as far as the gate tells them apart: a workflow is the actions
-- of its steps.
pub data Value (F : Type 0) : Type 0 where
  null : Value F
  boolean : Bool → Value F
  number : F → Value F
  text : String → Value F
  workflow : List String → Value F

pub data Reason : Type 0 where
  no_steps confirmation confidence risk policy : Reason

-- Execute, or the reason why not.
pub data GateDecision : Type 0 where
  execute : GateDecision
  refuse : Reason → GateDecision

abbrev pub injection_auth_keys : List String
injection_auth_keys =
    "force_execute" ∷ "bypass_gate" ∷ "enable_tools" ∷ "skip_confirmation" ∷ "authorized"
    ∷ "permission_granted" ∷ []

-- k in _INJECTION_AUTH_KEYS
unfoldable pub is_injection_auth_key : String → Bool
is_injection_auth_key k = contains k injection_auth_keys

-- Every step is put to the sandbox, until one is refused.
unfoldable pub check_steps : Dict SandboxPolicy → String → List String → GateDecision
check_steps policies app_id [] = execute
check_steps policies app_id (action ∷ actions) =
    let rest = check_steps policies app_id actions in
    if is_allowed (check_action policies app_id action "low") then rest else refuse policy

module _ {F : Type 0} where
  -- `strip_injection_auth_claims` of apps/ai/egress.py
  unfoldable pub strip_injection_auth_claims : Dict (Value F) → Dict (Value F)
  strip_injection_auth_claims [] = []
  strip_injection_auth_claims ((k, v) ∷ plan) =
      let rest = strip_injection_auth_claims plan in
      if is_injection_auth_key k then rest else (k, v) ∷ rest

  pub lookup-strip_injection_auth_claims :
      (j : String) (plan : Dict (Value F))
      → lookup j (strip_injection_auth_claims plan)
        ≡ (if is_injection_auth_key j then none else lookup j plan)
  unfolding lookup strip_injection_auth_claims
  lookup-strip_injection_auth_claims j [] = ground arith
  lookup-strip_injection_auth_claims j ((k, v) ∷ plan) =
      ground (arith, lookup-strip_injection_auth_claims j plan, eq_iff k j)

module _ {F : Type 0} (is_zero below_minimum : F → Bool) where
  -- Python's truth of a value.
  abbrev pub truthy : Option (Value F) → Bool
  truthy none = false
  truthy (some null) = false
  truthy (some (boolean b)) = b
  truthy (some (number n)) = not (is_zero n)
  truthy (some (text t)) = not (t == "")
  truthy (some (workflow steps)) = true

  -- `(plan.get("workflow") or {}).get("steps") or []`; `none` is the `AttributeError` of a value
  -- without `get`.
  abbrev pub steps_of : Option (Value F) → Option (List String)
  steps_of (some (workflow steps)) = some steps
  steps_of none = some []
  steps_of (some null) = some []
  steps_of (some (boolean b)) = if b then none else some []
  steps_of (some (number n)) = if is_zero n then some [] else none
  steps_of (some (text t)) = if t == "" then some [] else none

  -- A boolean is a number in Python, `True` is 1.
  abbrev pub is_confident : Option (Value F) → Bool
  is_confident (some (number n)) = not (below_minimum n)
  is_confident (some (boolean b)) = b
  is_confident none = false
  is_confident (some null) = false
  is_confident (some (text t)) = false
  is_confident (some (workflow steps)) = false

  abbrev pub is_low : Option (Value F) → Bool
  is_low (some (text t)) = t == "low"
  is_low none = false
  is_low (some null) = false
  is_low (some (boolean b)) = false
  is_low (some (number n)) = false
  is_low (some (workflow steps)) = false

  -- The tests of `evaluate` in their order, for what the plan holds under the four keys.
  unfoldable pub decide :
      Dict SandboxPolicy
      → String
      → List String
      → (asks wants level : Option (Value F)) → GateDecision
  decide policies app_id [] asks wants level = refuse no_steps
  decide policies app_id (action ∷ actions) asks wants level =
      if truthy asks
      then refuse confirmation
      else if not (is_confident wants)
      then refuse confidence
      else if not (is_low level)
      then refuse risk
      else check_steps policies app_id (action ∷ actions)

  -- `evaluate`, for the steps, if they could be read, and what the plan holds under the other keys.
  abbrev pub decide_for :
      Dict SandboxPolicy
      → String
      → Option (List String)
      → (asks wants level : Option (Value F)) → Option GateDecision
  decide_for policies app_id none asks wants level = none
  decide_for policies app_id (some steps) asks wants level =
      some (decide policies app_id steps asks wants level)

  -- `evaluate`; `none` is the `AttributeError` of `steps_of`.
  unfoldable pub evaluate : Dict SandboxPolicy → Dict (Value F) → String → Option GateDecision
  evaluate policies plan app_id =
      let stripped = strip_injection_auth_claims plan in
      decide_for policies app_id (steps_of (lookup "workflow" stripped))
        (lookup "requires_confirmation" stripped) (lookup "confidence" stripped)
        (lookup "risk" stripped)
