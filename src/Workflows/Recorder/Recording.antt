-- ===== src/Workflows/Recorder/Recording.antt =====
-- What a recording keeps, and who is shown which workflow.
use win_os_layer.Common.{
  append_nil, append_cons, String, ◌≡◌, refl, subst, ◌⊎◌, inl, inr, false, Option, none, some, List,
  [], ◌∷◌, ◌++◌, arith, ◌==◌, eq_iff, Bool-cases, All,
}
use win_os_layer.Common.Dict.{Dict, lookup, insert, lookup-insert_self}
use win_os_layer.Workflows.Recorder.{
  WorkflowStep, Workflow, Recorder, start_recording, record_step, stop_recording, is_hidden,
  list_workflows,
}

module _ {J : Type 0} where
  unfoldable pub record_steps : Recorder J → List (WorkflowStep J) → Option (Recorder J)
  record_steps r [] = some r
  record_steps r (step ∷ steps) = elim (record_step r step) [
    | none ↦ none
    | some r' ↦ record_steps r' steps
  ]

  -- The recorder is recording a workflow.
  Records : Recorder J → Workflow J → Type 0
  Records r wf = (r.recording ≡ some wf.id) × (lookup wf.id r.workflows ≡ some wf)

  abbrev longer : Workflow J → WorkflowStep J → Workflow J
  longer wf step = record wf { steps = wf.steps ++ step ∷ [] }

  record_step-Records :
      (r : Recorder J) (wf : Workflow J) (step : WorkflowStep J)
      → Records r wf
      → (r' : Recorder J) × ((record_step r step ≡ some r') × Records r' (longer wf step))
  unfolding record_step Records
  record_step-Records r wf step (e, l) = (
    record r { workflows = insert wf.id (longer wf step) r.workflows },
    (ground arith, (e, lookup-insert_self wf.id (longer wf step) r.workflows)),
  )

  record_steps-Records :
      (r : Recorder J) (wf : Workflow J) (steps : List (WorkflowStep J))
      → Records r wf
      → (r' : Recorder J) × ((record_steps r steps ≡ some r')
          × Records r' (record wf { steps = wf.steps ++ steps }))
  unfolding record_steps
  record_steps-Records r wf [] h = (r, (refl, rw (append_nil wf.steps) h))
  record_steps-Records r wf (step ∷ steps) h =
      let (r', (e, k)) = record_step-Records r wf step h in
      let (r'', (e', k')) = record_steps-Records r' (longer wf step) steps k in
      (
        r'',
        (
          rw (e, record_steps) e',
          subst (λ ss. Records r'' (record wf { steps = ss })) (append_cons wf.steps step steps) k',
        ),
      )

  pub started : String → String → String → String → List (WorkflowStep J) → Workflow J
  started id name app_id owner steps = record {
    id = id;
    name = name;
    steps = steps;
    app_id = app_id;
    risk = "low";
    rollback = [];
    owner_subject = owner;
  }

  -- A recording that is started, given steps and stopped yields a workflow of its owner with exactly
  -- these steps in their order, and the workflow is stored under its id.
  pub record_steps-stop_recording :
      (r : Recorder J) (id name app_id owner : String) (steps : List (WorkflowStep J))
      → (r' : Recorder J) × ((record_steps (start_recording r id name app_id owner) steps ≡ some r')
          × (((stop_recording r').1 ≡ some (started id name app_id owner steps))
              × (lookup id (stop_recording r').0.workflows
                  ≡ some (started id name app_id owner steps))))
  unfolding started stop_recording Records
  record_steps-stop_recording r id name app_id owner steps =
      let begun = started id name app_id owner [] in
      let (r', (e, (k, l))) =
        record_steps-Records (start_recording r id name app_id owner) begun steps
          (unfold start_recording in (refl, lookup-insert_self id begun r.workflows)) in
      (r', (e, (rw (k, stop_recording) l, l)))

  owned :
      (w : Workflow J) (owner : String)
      → is_hidden (some owner) false w ≡ false
      → (w.owner_subject ≡ "") ⊎ (w.owner_subject ≡ owner)
  owned w owner h = elim (Bool-cases (w.owner_subject == "")) [
    | inl e ↦ inl (ground (arith, eq_iff w.owner_subject ""))
    | inr e ↦ inr (ground (arith, eq_iff w.owner_subject owner))
  ]

  -- A principal that is no administrator is shown only its own workflows and those of nobody.
  pub list_workflows-All :
      (d : Dict (Workflow J)) (owner : String)
      → All
          (λ w. (w.owner_subject ≡ "") ⊎ (w.owner_subject ≡ owner))
          (list_workflows d (some owner) false)
  unfolding list_workflows
  list_workflows-All [] owner = tt
  list_workflows-All ((id, w) ∷ d) owner = elim (Bool-cases (is_hidden (some owner) false w)) [
    | inl h ↦ rw h (list_workflows-All d owner)
    | inr h ↦ rw h (owned w owner h, list_workflows-All d owner)
  ]
