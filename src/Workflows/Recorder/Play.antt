-- ===== src/Workflows/Recorder/Play.antt =====
-- The answers of the player and the calls that it makes.
use win_os_layer.Common.{
  ℕ, ◌+◌, ◌<◌, String, ◌≡◌, Bool, true, false, ◌&&◌, Option, none, some, List, [], ◌∷◌, ◌++◌,
  length,
}
use win_os_layer.Common.Dict.{Dict}
use win_os_layer.Common.Int.{ℤ}
use win_os_layer.Workflows.Recorder.{
  WorkflowStep, Workflow, StepResult, Outcome, Report, step_succeeded, is_none, action_at,
  play_found,
}
use win_os_layer.Workflows.Recorder.Log.{Happened, IsFaithful, told_before, told_invoke}

abbrev pub all_succeeded : List StepResult → Bool
all_succeeded [] = true
all_succeeded (r ∷ rs) = step_succeeded r && all_succeeded rs

-- The answers end in the first that is no success, which has an index, counted from a start.
pub record FailedAt (start : ℕ) (results : List StepResult) (i : ℕ) : Type 0 where
  pub good : List StepResult
  pub bad : StepResult
  pub split : results ≡ good ++ bad ∷ []
  pub count : start + length good ≡ i
  pub fine : all_succeeded good ≡ true
  pub failure : step_succeeded bad ≡ false

-- What the index of the failed step says about the answers to a number of steps.
abbrev pub Explains : ℕ → ℕ → List StepResult → Option ℕ → Type 0
Explains start n results none = (length results ≡ n) × (all_succeeded results ≡ true)
Explains start n results (some i) = (i < start + n) × FailedAt start results i

-- It is a success exactly if every step of the workflow was answered by a success; otherwise it names
-- the first failure, and a success of the rollback means that every step of it was answered by one.
pub record IsFailClosed {J : Type 0} (wf : Workflow J) (r : Report) : Type 0 where
  pub ok : r.ok ≡ is_none r.failed_step
  pub steps : Explains 0 (length wf.steps) r.results r.failed_step
  pub action : r.failed_action ≡ elim r.failed_step [ none ↦ none | some i ↦ action_at wf.steps i ]
  pub no_recovery : r.ok ≡ true → r.recovery ≡ []
  pub recovered :
      r.recovered ≡ some true
      → (length r.recovery ≡ length wf.rollback) × (all_succeeded r.recovery ≡ true)

-- What is reported of a workflow that is stored, or not, beside what happened.
abbrev pub Answers : {J : Type 0} → Option (Workflow J) → List Happened → Option Report → Type 0
Answers none log none = log ≡ []
Answers none log (some r) = ⊥
Answers (some wf) log none = ⊥
Answers (some wf) log (some r) = IsFailClosed wf r × IsFaithful wf log r

module _ {J W : Type 0} (before_step : Option (W → ℤ → WorkflowStep J → W × Outcome Unit))
    (invoke : W → String → String → J → W × Outcome StepResult) where
  -- `play_found` with the log of what happened.
  abbrev told_found : W → Option (Workflow J) → (W × List Happened) × Option Report
  told_found w o =
      play_found (told_before before_step invoke) (told_invoke before_step invoke) (w, []) o
