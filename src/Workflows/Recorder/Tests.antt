-- ===== src/Workflows/Recorder/Tests.antt =====
-- Runs of the recorder and the player.
use win_os_layer.Common.{
  ℕ, ◌+◌, String, ◌≡◌, refl, true, false, Option, none, some, List, [], ◌∷◌, ◌==◌, if◌then◌else◌,
}
use win_os_layer.Common.Dict.{Dict, lookup}
use win_os_layer.Common.Int.{ℤ}
use win_os_layer.Workflows.Recorder.{
  WorkflowStep, Workflow, Recorder, StepResult, plain_true, Outcome, returned, raised, Report,
  no_recorder, start_recording, stop_recording, list_workflows, run_step, run_steps, recover,
  report, play_found, play,
}
use win_os_layer.Workflows.Recorder.Log.{Happened, answered, told_before, told_invoke}
use win_os_layer.Workflows.Recorder.Gating.{
  Mark, passed, denied, invoked, guarded, logged_before, logged_invoke, play-guarded,
}
use win_os_layer.Workflows.Recorder.Recording.{record_steps, started, record_steps-stop_recording}

abbrev step : String → WorkflowStep ℕ
step action = record { action = action; params = 0 }

abbrev demo : Workflow ℕ
demo = record {
  id = "w";
  name = "demo";
  steps = step "open" ∷ step "break" ∷ step "close" ∷ [];
  app_id = "notepad";
  risk = "low";
  rollback = step "undo" ∷ [];
  owner_subject = "";
}

abbrev store : Dict (Workflow ℕ)
store = ("w", demo) ∷ []

-- A gate that denies one action, and an application that fails at another.
abbrev gate : String → ℕ → ℤ → WorkflowStep ℕ → ℕ × Outcome Unit
gate refused w index s = (w, if s.action == refused then raised "denied" else returned tt)

abbrev app : ℕ → String → String → ℕ → ℕ × Outcome StepResult
app w app_id action params =
    (w + 1, if action == "break" then raised "broken" else returned plain_true)

abbrev run : String → (ℕ × List Mark) × Option Report
run refused =
    play (some (logged_before (gate refused) app)) (logged_invoke (gate refused) app) store (0, [])
      "w"

failing_run :
    (run "").0.1
    ≡ invoked "undo"
      ∷ passed "undo"
      ∷ invoked "break"
      ∷ passed "break"
      ∷ invoked "open"
      ∷ passed "open"
      ∷ []
unfolding play play_found report recover run_steps run_step lookup
failing_run = refl

denied_run : (run "open").0.1 ≡ invoked "undo" ∷ passed "undo" ∷ denied "open" ∷ []
unfolding play play_found report recover run_steps run_step lookup
denied_run = refl

-- Without a gate every step is invoked.
abbrev told : (ℕ × List Happened) × Option Report
told = play (told_before none app) (told_invoke none app) store (0, []) "w"

ungated_run :
    told.0.1
    ≡ answered "open" (returned plain_true)
      ∷ answered "break" (raised "broken")
      ∷ answered "undo" (returned plain_true)
      ∷ []
unfolding play play_found report recover run_steps run_step lookup
ungated_run = refl

play-guarded_example : guarded (run "undo").0.1 ≡ true
play-guarded_example = play-guarded (gate "undo") app store 0 "w"

record_steps-stop_recording_example :
    (r' : Recorder ℕ) × ((record_steps
          (start_recording no_recorder "w" "n" "a" "alice")
          (step "x" ∷ step "y" ∷ [])
        ≡ some r')
      × (((stop_recording r').1 ≡ some (started "w" "n" "a" "alice" (step "x" ∷ step "y" ∷ [])))
          × (lookup "w" (stop_recording r').0.workflows
              ≡ some (started "w" "n" "a" "alice" (step "x" ∷ step "y" ∷ [])))))
record_steps-stop_recording_example =
    record_steps-stop_recording no_recorder "w" "n" "a" "alice" (step "x" ∷ step "y" ∷ [])

abbrev mixed : Dict (Workflow ℕ)
mixed = ("v", record demo { owner_subject = "bob" }) ∷ ("w", demo) ∷ []

bob_is_hidden : list_workflows mixed (some "alice") false ≡ demo ∷ []
unfolding list_workflows
bob_is_hidden = refl
