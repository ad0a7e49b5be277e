-- ===== src/Workflows/Recorder/Gating.antt =====
-- The calls that the player makes with a gate, when the gate and the invocation write down what they do.
use win_os_layer.Common.{
  ℕ, ◌+◌, String, ◌≡◌, refl, inl, inr, Bool, true, false, ◌&&◌, Option, none, some, List, [], ◌∷◌,
  arith, ◌==◌, eq_refl, Bool-cases,
}
use win_os_layer.Common.Dict.{Dict, lookup}
use win_os_layer.Common.Int.{ℤ, pos}
use win_os_layer.Workflows.Recorder.{
  WorkflowStep, Workflow, StepResult, Outcome, returned, raised, step_succeeded, run_step,
  run_steps, minus_one, recover, report, after_gate, play_found, play,
}

-- One call: the gate let an action pass or denied it, or the action was invoked.
pub data Mark : Type 0 where
  passed denied invoked : String → Mark

abbrev pub mark : Outcome Unit → String → Mark
mark (returned unit) action = passed action
mark (raised detail) action = denied action

-- Every invocation comes directly behind a pass of the gate for the same action; the last call is
-- the first of the list.
abbrev pub guarded : List Mark → Bool
guarded [] = true
guarded (passed a ∷ ms) = guarded ms
guarded (denied a ∷ ms) = guarded ms
guarded (invoked a ∷ []) = false
guarded (invoked a ∷ passed b ∷ ms) = (a == b) && guarded ms
guarded (invoked a ∷ denied b ∷ ms) = false
guarded (invoked a ∷ invoked b ∷ ms) = false

module _ {J W : Type 0} (before_step : W → ℤ → WorkflowStep J → W × Outcome Unit)
    (invoke : W → String → String → J → W × Outcome StepResult) where
  abbrev pub logged_before : W × List Mark → ℤ → WorkflowStep J → (W × List Mark) × Outcome Unit
  logged_before (w, ms) index step =
      let (w', verdict) = before_step w index step in ((w', mark verdict step.action ∷ ms), verdict)

  abbrev pub logged_invoke :
      W × List Mark → String → String → J → (W × List Mark) × Outcome StepResult
  logged_invoke (w, ms) app_id action params =
      let (w', outcome) = invoke w app_id action params in ((w', invoked action ∷ ms), outcome)

  after_gate-guarded :
      (app_id : String) (step : WorkflowStep J) (w : W) (ms : List Mark)
      → guarded ms ≡ true
      → (v : Outcome Unit)
      → guarded (after_gate logged_invoke app_id step ((w, mark v step.action ∷ ms), v)).0.1 ≡ true
  after_gate-guarded app_id step w ms h (returned unit) = ground (arith, eq_refl step.action)
  after_gate-guarded app_id step w ms h (raised text) = h

  run_step-guarded :
      (app_id : String) (w : W × List Mark) (index : ℤ) (step : WorkflowStep J)
      → guarded w.1 ≡ true
      → guarded (run_step (some logged_before) logged_invoke app_id w index step).0.1 ≡ true
  unfolding run_step
  run_step-guarded app_id w index step h =
      after_gate-guarded app_id step (before_step w.0 index step).0 w.1 h
        (before_step w.0 index step).1

  run_steps-guarded :
      (label : ℕ → ℤ) (app_id : String) (w : W × List Mark) (n : ℕ) (steps : List (WorkflowStep J))
      → guarded w.1 ≡ true
      → guarded (run_steps (some logged_before) logged_invoke label app_id w n steps).world.1 ≡ true
  unfolding run_steps
  run_steps-guarded label app_id w n [] h = h
  run_steps-guarded label app_id w n (step ∷ steps) h =
      let w' = (run_step (some logged_before) logged_invoke app_id w (label n) step).0 in
      let k = run_step-guarded app_id w (label n) step h in
      elim (Bool-cases
        (step_succeeded (run_step (some logged_before) logged_invoke app_id w (label n) step).1)) [
          | inl e ↦ rw e (run_steps-guarded label app_id w' (n + 1) steps k)
          | inr e ↦ rw e k
        ]

  recover-guarded :
      (app_id : String) (w : W × List Mark) (steps : List (WorkflowStep J))
      → guarded w.1 ≡ true
      → guarded (recover (some logged_before) logged_invoke app_id w steps).0.1 ≡ true
  unfolding recover
  recover-guarded app_id w [] h = h
  recover-guarded app_id w (step ∷ steps) h =
      run_steps-guarded minus_one app_id w 0 (step ∷ steps) h

  report-guarded :
      (wf : Workflow J) (w : W × List Mark) (results : List StepResult) (o : Option ℕ)
      → guarded w.1 ≡ true
      → guarded (report (some logged_before) logged_invoke wf w results o).0.1 ≡ true
  unfolding report
  report-guarded wf w results none h = h
  report-guarded wf w results (some i) h = recover-guarded wf.app_id w wf.rollback h

  play_found-guarded :
      (w : W × List Mark) (o : Option (Workflow J))
      → guarded w.1 ≡ true
      → guarded (play_found (some logged_before) logged_invoke w o).0.1 ≡ true
  unfolding play_found
  play_found-guarded w none h = h
  play_found-guarded w (some wf) h =
      let a = run_steps (some logged_before) logged_invoke pos wf.app_id w 0 wf.steps in
      report-guarded wf a.world a.results a.failed_at
        (run_steps-guarded pos wf.app_id w 0 wf.steps h)

  -- A player that is given a gate invokes nothing, in the steps and in the rollback, but directly
  -- after the gate let this very action pass.
  pub play-guarded :
      (workflows : Dict (Workflow J)) (w : W) (id : String)
      → guarded (play (some logged_before) logged_invoke workflows (w, []) id).0.1 ≡ true
  unfolding play
  play-guarded workflows w id = play_found-guarded (w, []) (lookup id workflows) refl
