-- ===== src/Agent/Sandbox.antt =====
-- windows_os_api/apps/sandbox/permissions.py. Sets are lists, of which only membership is read.
use win_os_layer.Common.{
  ℕ, String, ◌≡◌, Bool, true, false, not, ◌&&◌, ◌||◌, List, [], ◌∷◌, arith, ◌==◌, ltb,
  if◌then◌else◌, get_or, contains,
}
use win_os_layer.Common.Dict.{Dict, lookup, insert, lookup-insert}

pub record SandboxPolicy : Type 0 where
  pub app_id : String
  pub allowed_actions : List String
  pub denied_actions : List String
  pub max_risk : String

pub data Verdict : Type 0 where
  allowed denied_explicitly not_in_allowlist risk_exceeded : Verdict

-- SandboxPolicy(app_id=app_id)
abbrev pub default_policy : String → SandboxPolicy
default_policy app_id = record {
  app_id = app_id;
  allowed_actions = [];
  denied_actions = [];
  max_risk = "medium";
}

abbrev pub risk_order : Dict ℕ
risk_order = ("low", 0) ∷ ("medium", 1) ∷ ("high", 2) ∷ []

unfoldable pub set_policy : Dict SandboxPolicy → SandboxPolicy → Dict SandboxPolicy
set_policy policies policy = insert policy.app_id policy policies

unfoldable pub get_policy : Dict SandboxPolicy → String → SandboxPolicy
get_policy policies app_id = get_or (default_policy app_id) (lookup app_id policies)

abbrev pub is_empty_list : List String → Bool
is_empty_list [] = true
is_empty_list (x ∷ xs) = false

-- The risk of the action against that of the policy: an unknown risk is above all, an unknown
-- maximum is taken for "medium".
unfoldable pub exceeds : String → String → Bool
exceeds risk max_risk =
    ltb (get_or 1 (lookup max_risk risk_order)) (get_or 99 (lookup risk risk_order))

-- The tests of `check_action`, in their order.
unfoldable pub check_policy : SandboxPolicy → String → String → Verdict
check_policy p action risk =
    if contains action p.denied_actions
    then denied_explicitly
    else if not (is_empty_list p.allowed_actions) && not (contains action p.allowed_actions)
    then not_in_allowlist
    else if exceeds risk p.max_risk
    then risk_exceeded
    else allowed

unfoldable pub check_action : Dict SandboxPolicy → String → String → String → Verdict
check_action policies app_id action risk = check_policy (get_policy policies app_id) action risk

abbrev pub is_allowed : Verdict → Bool
is_allowed allowed = true
is_allowed denied_explicitly = false
is_allowed not_in_allowlist = false
is_allowed risk_exceeded = false

-- An action is allowed exactly if it is not denied, is listed or nothing is, and its risk does not
-- exceed the maximum: the order of the tests decides the reason only.
pub check_action_allowed_iff :
    (policies : Dict SandboxPolicy) (app_id action risk : String)
    → let p = get_policy policies app_id in
      is_allowed (check_action policies app_id action risk) ≡ (
        not (contains action p.denied_actions)
        && (is_empty_list p.allowed_actions || contains action p.allowed_actions)
        && not (exceeds risk p.max_risk))
unfolding check_action check_policy
check_action_allowed_iff policies app_id action risk = ground arith

-- Once a policy is set that denies an action, the application is refused it at every risk, and the
-- other applications keep their answers.
pub set_policy-check_action :
    (policies : Dict SandboxPolicy) (p : SandboxPolicy) (app_id action risk : String)
    → contains action p.denied_actions ≡ true
    → check_action (set_policy policies p) app_id action risk
      ≡ (if p.app_id == app_id then denied_explicitly else check_action policies app_id action risk)
unfolding check_action set_policy get_policy check_policy
set_policy-check_action policies p app_id action risk h =
    ground (arith, lookup-insert p.app_id app_id p policies)
