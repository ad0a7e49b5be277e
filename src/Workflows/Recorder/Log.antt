-- ===== src/Workflows/Recorder/Log.antt =====
-- What the player reports, beside what its gate and its invocations answered.
use win_os_layer.Common.{
  ℕ, ◌+◌, String, ◌≡◌, refl, sym, ap, ◌∙◌, inl, inr, true, false, Option, none, some, List, [], ◌∷◌,
  ◌++◌, map, Bool-cases, append_nil, append_cons,
}
use win_os_layer.Common.Int.{ℤ, pos}
use win_os_layer.Workflows.Recorder.{
  WorkflowStep, Workflow, StepResult, object, Outcome, returned, raised, Report, step_succeeded,
  run_step, run_steps, minus_one, recover, report, result_of, after_gate, asked,
}

-- What came of one action: the gate denied it, or it was invoked and returned or raised.
pub data Happened : Type 0 where
  refused : (action detail : String) → Happened
  answered : (action : String) → Outcome StepResult → Happened

abbrev pub action_of : Happened → String
action_of (refused action detail) = action
action_of (answered action outcome) = action

-- How the report shows it.
abbrev pub shown : Happened → StepResult
shown (refused action detail) = object false true detail
shown (answered action (returned r)) = r
shown (answered action (raised text)) = object false false text

abbrev pub step_actions : {J : Type 0} → List (WorkflowStep J) → List String
step_actions [] = []
step_actions (step ∷ steps) = step.action ∷ step_actions steps

-- What happened is what came of the first of these steps, in their order, and the answers show it.
abbrev pub Shows : {J : Type 0} → List (WorkflowStep J) → List Happened → List StepResult → Type 0
Shows steps happened results =
    (map shown happened ≡ results)
    × (later : List String) × (step_actions steps ≡ map action_of happened ++ later)

-- All that happened, the first first, is what came of steps of the workflow, and then of its rollback,
-- as the report shows it.
abbrev pub IsFaithful : {J : Type 0} → Workflow J → List Happened → Report → Type 0
IsFaithful wf log r =
    (run : List Happened) × (back : List Happened) × (log ≡ run ++ back)
    × Shows wf.steps run r.results
    × Shows wf.rollback back r.recovery

-- What the gate adds to the log.
abbrev pub after_verdict :
    {W : Type 0} → List Happened → String → W × Outcome Unit → (W × List Happened) × Outcome Unit
after_verdict log action (w, returned unit) = ((w, log), returned unit)
after_verdict log action (w, raised detail) =
    ((w, log ++ refused action detail ∷ []), raised detail)

-- The gate that writes into the log what it denies.
abbrev pub told_gate :
    {J W : Type 0}
    → Option (W → ℤ → WorkflowStep J → W × Outcome Unit)
    → Option (W × List Happened → ℤ → WorkflowStep J → (W × List Happened) × Outcome Unit)
told_gate none = none
told_gate (some gate) = some (λ w index step. after_verdict w.1 step.action (gate w.0 index step))

module _ {J W : Type 0} (before_step : Option (W → ℤ → WorkflowStep J → W × Outcome Unit))
    (invoke : W → String → String → J → W × Outcome StepResult) where
  abbrev pub told_before :
      Option (W × List Happened → ℤ → WorkflowStep J → (W × List Happened) × Outcome Unit)
  told_before = told_gate before_step

  abbrev pub told_invoke :
      W × List Happened → String → String → J → (W × List Happened) × Outcome StepResult
  told_invoke (w, log) app_id action params =
      let (w', outcome) = invoke w app_id action params in
      ((w', log ++ answered action outcome ∷ []), outcome)

  -- One thing happened, to this action, and the answer shows it.
  abbrev Adds : List Happened → String → (W × List Happened) × StepResult → Type 0
  Adds log action (w, r) =
      (x : Happened) × (w.1 ≡ log ++ x ∷ []) × (shown x ≡ r) × (action_of x ≡ action)

  answered-Adds :
      (log : List Happened) (action : String) (w : W) (outcome : Outcome StepResult)
      → Adds log action ((w, log ++ answered action outcome ∷ []), result_of outcome)
  answered-Adds log action w (returned r) = (answered action (returned r), refl, refl, refl)
  answered-Adds log action w (raised text) = (answered action (raised text), refl, refl, refl)

  after_verdict-Adds :
      (app_id : String) (step : WorkflowStep J) (log : List Happened) (v : W × Outcome Unit)
      → Adds log step.action (after_gate told_invoke app_id step (after_verdict log step.action v))
  after_verdict-Adds app_id step log (w, returned unit) =
      let (w', outcome) = invoke w app_id step.action step.params in
      answered-Adds log step.action w' outcome
  after_verdict-Adds app_id step log (w, raised detail) =
      (refused step.action detail, refl, refl, refl)

  run_step-Adds :
      (app_id : String) (w : W × List Happened) (index : ℤ) (step : WorkflowStep J)
      → Adds w.1 step.action (run_step told_before told_invoke app_id w index step)
  unfolding run_step
  run_step-Adds app_id w index step = go before_step
    where
      go :
          (b : Option (W → ℤ → WorkflowStep J → W × Outcome Unit))
          → Adds w.1 step.action
              (after_gate told_invoke app_id step (asked (told_gate b) w index step))
      go none = after_verdict-Adds app_id step w.1 (w.0, returned tt)
      go (some gate) = after_verdict-Adds app_id step w.1 (gate w.0 index step)

  -- What a loop over steps adds.
  abbrev AddsAll :
      List Happened → List (WorkflowStep J) → W × List Happened → List StepResult → Type 0
  AddsAll log steps w results = (new : List Happened) × (w.1 ≡ log ++ new) × Shows steps new results

  AddsAll-cons :
      (log : List Happened) (step : WorkflowStep J) (steps : List (WorkflowStep J))
      (u w : W × List Happened) (r : StepResult) (rs : List StepResult)
      → Adds log step.action (u, r)
      → AddsAll u.1 steps w rs
      → AddsAll log (step ∷ steps) w (r ∷ rs)
  AddsAll-cons log step steps u w r rs (x, e, s, a) (new, e', (s', later, a')) =
      (x ∷ new, e' ∙ ap (λ l. l ++ new) e ∙ append_cons log x new, (cc (s, s'), later, cc (a, a')))

  run_steps-AddsAll :
      (label : ℕ → ℤ) (app_id : String) (w : W × List Happened) (n : ℕ)
      (steps : List (WorkflowStep J))
      → AddsAll w.1 steps
          (run_steps told_before told_invoke label app_id w n steps).world
          (run_steps told_before told_invoke label app_id w n steps).results
  unfolding run_steps
  run_steps-AddsAll label app_id w n [] = ([], sym (append_nil w.1), (refl, [], refl))
  run_steps-AddsAll label app_id w n (step ∷ steps) =
      let (w', r) = run_step told_before told_invoke app_id w (label n) step in
      let rest = run_steps told_before told_invoke label app_id w' (n + 1) steps in
      let one = run_step-Adds app_id w (label n) step in
      elim (Bool-cases (step_succeeded r)) [
        | inl h ↦ rw h (
            AddsAll-cons w.1 step steps w' rest.world r rest.results one
              (run_steps-AddsAll label app_id w' (n + 1) steps))
        | inr h ↦ rw h (
          one.0 ∷ [],
          one.1,
          (
            ap (λ x. x ∷ []) one.2,
            step_actions steps,
            ap (λ x. x ∷ step_actions steps) (sym one.3),
          ),
        )
      ]

  recover-AddsAll :
      (app_id : String) (w : W × List Happened) (steps : List (WorkflowStep J))
      → AddsAll w.1 steps
          (recover told_before told_invoke app_id w steps).0
          (recover told_before told_invoke app_id w steps).1.0
  unfolding recover
  recover-AddsAll app_id w [] = ([], sym (append_nil w.1), (refl, [], refl))
  recover-AddsAll app_id w (step ∷ steps) = run_steps-AddsAll minus_one app_id w 0 (step ∷ steps)

  pub report-IsFaithful :
      (wf : Workflow J) (w : W × List Happened) (results : List StepResult) (o : Option ℕ)
      → Shows wf.steps w.1 results
      → let (w', r) = report told_before told_invoke wf w results o in IsFaithful wf w'.1 r
  unfolding report
  report-IsFaithful wf w results none s =
      (w.1, [], sym (append_nil w.1), s, (refl, step_actions wf.rollback, refl))
  report-IsFaithful wf w results (some i) s =
      let (back, e, t) = recover-AddsAll wf.app_id w wf.rollback in (w.1, back, e, s, t)

  pub run_steps-Shows :
      (app_id : String) (w : W) (steps : List (WorkflowStep J))
      → Shows steps
          (run_steps told_before told_invoke pos app_id (w, []) 0 steps).world.1
          (run_steps told_before told_invoke pos app_id (w, []) 0 steps).results
  run_steps-Shows app_id w steps =
      let (new, e, s) = run_steps-AddsAll pos app_id (w, []) 0 steps in rw e s
