-- ===== src/Workflows/Recorder.antt =====
-- windows_os_api/apps/workflows/recorder.py. The world `W` is what `invoke` and `before_step` read
-- and change; both are parameters, as is the type of the parameters of a step. What a step answers
-- is kept as far as `_step_succeeded` and the caller look at it.
pub mod Gating
pub mod Log
pub mod Play
pub mod Recording
mod Tests
use win_os_layer.Common.{
  ℕ, zero, suc, ◌+◌, String, Bool, true, false, not, ◌&&◌, ◌||◌, Option, none, some, List, [], ◌∷◌,
  ◌++◌, ◌==◌, if◌then◌else◌,
}
use win_os_layer.Common.Dict.{Dict, lookup, insert}
use win_os_layer.Common.Int.{ℤ, pos, negsuc}

pub record WorkflowStep (J : Type 0) : Type 0 where
  pub action : String
  pub params : J

pub record Workflow (J : Type 0) : Type 0 where
  pub id : String
  pub name : String
  pub steps : List (WorkflowStep J)
  pub app_id : String
  pub risk : String
  pub rollback : List (WorkflowStep J)
  pub owner_subject : String

-- `_workflows` and `_recording`; the workflow that is recorded is the one stored under its id.
pub record Recorder (J : Type 0) : Type 0 where
  pub workflows : Dict (Workflow J)
  pub recording : Option String

-- What an invocation returns: `True`, a dictionary with the truth of its `ok is True` and `denied`
-- and the text of its `error`, or anything else.
pub data StepResult : Type 0 where
  plain_true plain_other : StepResult
  object : (ok denied : Bool) → (error : String) → StepResult

-- A call that returns or raises.
pub data Outcome (A : Type 0) : Type 0 where
  returned : A → Outcome A
  raised : String → Outcome A

-- The answer of `play` to the caller.
pub record Report : Type 0 where
  pub ok : Bool
  pub results : List StepResult
  pub failed_step : Option ℕ
  pub failed_action : Option String
  pub recovery : List StepResult
  pub recovered : Option Bool

-- What a loop over steps leaves: the answers, and the index of the step that failed.
pub record Attempt (W : Type 0) : Type 0 where
  pub world : W
  pub results : List StepResult
  pub failed_at : Option ℕ

-- `_step_succeeded`
abbrev pub step_succeeded : StepResult → Bool
step_succeeded plain_true = true
step_succeeded plain_other = false
step_succeeded (object ok denied error) = if denied || not (error == "") then false else ok

module _ {J : Type 0} where
  abbrev pub no_recorder : Recorder J
  no_recorder = record { workflows = []; recording = none }

  unfoldable pub start_recording : Recorder J → String → String → String → String → Recorder J
  start_recording r id name app_id owner_subject = record {
    workflows =
        insert id
          (record {
            id = id;
            name = name;
            steps = [];
            app_id = app_id;
            risk = "low";
            rollback = [];
            owner_subject = owner_subject;
          })
          r.workflows;
    recording = some id;
  }

  -- `none` is the `RuntimeError` of `record_step`.
  unfoldable pub record_step : Recorder J → WorkflowStep J → Option (Recorder J)
  record_step r step = elim r.recording [
    | none ↦ none
    | some id ↦ elim (lookup id r.workflows) [
      | none ↦ none
      | some wf ↦
          let longer : Workflow J = record wf { steps = wf.steps ++ step ∷ [] } in
          some (record r { workflows = insert id longer r.workflows })
    ]
  ]

  unfoldable pub stop_recording : Recorder J → Recorder J × Option (Workflow J)
  stop_recording r = (
    record r { recording = none },
    elim r.recording [ none ↦ none | some id ↦ lookup id r.workflows ],
  )

  -- The test of `list_workflows` on one workflow.
  abbrev pub is_hidden : Option String → Bool → Workflow J → Bool
  is_hidden none include_all w = false
  is_hidden (some owner) include_all w =
      not include_all && not (w.owner_subject == "") && not (w.owner_subject == owner)

  -- `list_workflows`, with the workflows in place of what it shows of them.
  unfoldable pub list_workflows : Dict (Workflow J) → Option String → Bool → List (Workflow J)
  list_workflows [] owner include_all = []
  list_workflows ((id, w) ∷ d) owner include_all =
      let rest = list_workflows d owner include_all in
      if is_hidden owner include_all w then rest else w ∷ rest

abbrev pub is_none : Option ℕ → Bool
is_none none = true
is_none (some n) = false

-- wf.steps[index].action
abbrev pub action_at : {J : Type 0} → List (WorkflowStep J) → ℕ → Option String
action_at [] index = none
action_at (step ∷ steps) zero = some step.action
action_at (step ∷ steps) (suc index) = action_at steps index

abbrev pub result_of : Outcome StepResult → StepResult
result_of (returned r) = r
result_of (raised text) = object false false text

abbrev pub minus_one : ℕ → ℤ
minus_one index = negsuc 0

module _ {J W : Type 0} (invoke : W → String → String → J → W × Outcome StepResult) where
  -- The invocation, if the gate lets it pass.
  abbrev pub after_gate : String → WorkflowStep J → W × Outcome Unit → W × StepResult
  after_gate app_id step (w, returned unit) =
      let (w', outcome) = invoke w app_id step.action step.params in (w', result_of outcome)
  after_gate app_id step (w, raised detail) = (w, object false true detail)

-- What the gate answers, where there is one: `before_step` may be None.
abbrev pub asked :
    {J W : Type 0}
    → Option (W → ℤ → WorkflowStep J → W × Outcome Unit)
    → W
    → ℤ
    → WorkflowStep J
    → W × Outcome Unit
asked none w index step = (w, returned tt)
asked (some gate) w index step = gate w index step

module _ {J W : Type 0} (before_step : Option (W → ℤ → WorkflowStep J → W × Outcome Unit))
    (invoke : W → String → String → J → W × Outcome StepResult) where
  -- The body of both loops: the gate, and the invocation if the gate lets it pass.
  unfoldable pub run_step : String → W → ℤ → WorkflowStep J → W × StepResult
  run_step app_id w index step = after_gate invoke app_id step (asked before_step w index step)

  -- The loops of `play` over the steps, from an index on. `label` is what the gate is told of an
  -- index: the index itself, or -1 for all steps of the rollback.
  unfoldable pub run_steps : (ℕ → ℤ) → String → W → ℕ → List (WorkflowStep J) → Attempt W
  run_steps label app_id w index [] = record { world = w; results = []; failed_at = none }
  run_steps label app_id w index (step ∷ steps) =
      let (w', result) = run_step app_id w (label index) step in
      let rest = run_steps label app_id w' (index + 1) steps in
      if step_succeeded result
      then record rest { results = result ∷ rest.results }
      else record { world = w'; results = result ∷ []; failed_at = some index }

  -- The rollback: where there is one, its answers and whether all of it was done.
  unfoldable pub recover : String → W → List (WorkflowStep J) → W × (List StepResult × Option Bool)
  recover app_id w [] = (w, ([], none))
  recover app_id w (step ∷ steps) =
      let a = run_steps minus_one app_id w 0 (step ∷ steps) in
      (a.world, (a.results, some (is_none a.failed_at)))

  -- The end of `play`, for the index at which the loop over the steps stopped, if any.
  unfoldable pub report : Workflow J → W → List StepResult → Option ℕ → W × Report
  report wf w results none = (
    w,
    record {
      ok = true;
      results = results;
      failed_step = none;
      failed_action = none;
      recovery = [];
      recovered = none;
    },
  )
  report wf w results (some index) =
      let (w', (recovery, recovered)) = recover wf.app_id w wf.rollback in
      (
        w',
        record {
          ok = false;
          results = results;
          failed_step = some index;
          failed_action = action_at wf.steps index;
          recovery = recovery;
          recovered = recovered;
        },
      )

  -- `play` of what the identifier leads to; `none` is the answer "workflow not found".
  unfoldable pub play_found : W → Option (Workflow J) → W × Option Report
  play_found w none = (w, none)
  play_found w (some wf) =
      let a = run_steps pos wf.app_id w 0 wf.steps in
      let (w', r) = report wf a.world a.results a.failed_at in (w', some r)

  unfoldable pub play : Dict (Workflow J) → W → String → W × Option Report
  play workflows w wf_id = play_found w (lookup wf_id workflows)
