-- ===== src/Processes/Service/Gating.antt =====
-- windows_os_api/os/processes/service.py: what `terminate_process` may kill, and what a success means.
use win_os_layer.Common.{
  ℕ, ◌<◌, String, ◌≡◌, refl, ap, ◌∙◌, ◌≢◌, ◌⊎◌, inl, inr, true, false, ◌||◌, Option, none, some,
  List, [], ◌∷◌, ◌++◌, arith, eq_iff, leb, if_rule, if_split, get_or, append_nil, append_cons, All,
  All-append,
}
use win_os_layer.Processes.Identity.{
  ProcessInfo, ProcessIdentity, identity_from_process, same_process, find, forget,
}
use win_os_layer.Processes.Tree.{child_pids, descendant_pids}
use win_os_layer.Processes.Service.{
  System, Expectation, Gate, pass, refuse, forget_and_refuse, Termination, State, matches_time,
  matches_name, gate_foreign, gate, reverse_onto, kill_all, tear_down, pass_gate, terminate_process,
}
use win_os_layer.Processes.Tree.Ends.{descendant_pids_returns}
use win_os_layer.Processes.Tree.Sound.{Below, descendant_pids-All}

-- The owner is known to be another one.
abbrev pub IsForeign : String → String → Type 0
IsForeign me owner = (owner ≢ "") × (me ≢ "") × (owner ≢ me)

-- The process is seen, its pid is above 1, and either it is still the one that is recorded, or it
-- is not recorded, what the caller expects of it is so, and it is not known to be another user's.
pub record IsPermitted (normcase : String → String) (me : String)
    (recorded : Option ProcessIdentity) (pid : ℕ) (e : Expectation) (seen : Option ProcessInfo)
    : Type 0 where
  pub above : 1 < pid
  pub info : ProcessInfo
  pub observed : seen ≡ some info
  pub identified :
      ((i : ProcessIdentity) × (recorded ≡ some i)
        × (same_process normcase i (identity_from_process (some info) pid) ≡ true))
      ⊎ ((recorded ≡ none)
          × (matches_time e.create_time info.create_time
                || matches_name e.name (identity_from_process (some info) pid) info
              ≡ true)
          × ¬ IsForeign me (identity_from_process (some info) pid).owner)

-- The world with a list of the pids that the system was told to terminate.
unfoldable pub logged : {W : Type 0} → System W → System (W × List ℕ)
logged system = record {
  get_process = λ w pid. system.get_process w.0 pid;
  backend = λ w. system.backend w.0;
  terminate = λ w pid. let (v, ok) = system.terminate w.0 pid in ((v, w.1 ++ pid ∷ []), ok);
  start = λ w exe args. let (v, answer) = system.start w.0 exe args in ((v, w.1), answer);
  current_user = system.current_user;
}

append_assoc : (xs ys zs : List ℕ) → (xs ++ ys) ++ zs ≡ xs ++ (ys ++ zs)
append_assoc [] ys zs = refl
append_assoc (x ∷ xs) ys zs = ap (λ rest. x ∷ rest) (append_assoc xs ys zs)

All-imply : (P Q : ℕ → Type 0) → ((p : ℕ) → P p → Q p) → (ps : List ℕ) → All P ps → All Q ps
All-imply P Q f [] h = tt
All-imply P Q f (p ∷ ps) h = (f p h.0, All-imply P Q f ps h.1)

module _ (P : ℕ → Type 0) where
  reverse_onto-All : (ps acc : List ℕ) → All P ps → All P acc → All P (reverse_onto ps acc)
  reverse_onto-All [] acc a b = b
  reverse_onto-All (p ∷ ps) acc a b = reverse_onto-All ps (p ∷ acc) a.1 (a.0, b)

module _ {W : Type 0} (system : System W) where
  kill_all-log :
      (s : State (W × List ℕ)) (ps : List ℕ)
      → (kill_all (logged system) s ps).0.world.1 ≡ s.world.1 ++ ps
  unfolding kill_all logged
  kill_all-log s [] = ground (arith, append_nil s.world.1)
  kill_all-log s (p ∷ ps) =
      let (w, ok) = (logged system).terminate s.world p in
      if_rule (λ (r : State (W × List ℕ) × List ℕ × List ℕ). r.0.world.1 ≡ s.world.1 ++ p ∷ ps) ok _
        _
        (kill_all-log (record { registry = forget p s.registry; world = w }) ps
          ∙ append_cons s.world.1 p ps)
        (kill_all-log (record s { world = w }) ps ∙ append_cons s.world.1 p ps)

  -- The processes found below a pid, the last one first, and the pid.
  abbrev pub family : W → ℕ → List ℕ
  family w pid =
      reverse_onto (get_or [] (descendant_pids (child_pids (system.backend w)) pid)) [] ++ pid ∷ []

  -- The process, or one below it.
  abbrev pub InFamily : W → ℕ → ℕ → Type 0
  InFamily w pid p = (p ≡ pid) ⊎ Below (child_pids (system.backend w)) pid p

  family-All : (w : W) (pid : ℕ) → All (InFamily w pid) (family w pid)
  family-All w pid =
      let children = child_pids (system.backend w) in
      let (out, e) = descendant_pids_returns children pid in
      let below = descendant_pids-All children pid out e in
      rw e (
        All-append (InFamily w pid) (reverse_onto out []) (pid ∷ [])
          (reverse_onto-All (InFamily w pid) out []
            (All-imply (Below children pid) (InFamily w pid) (λ p b. inr b) out below.0) tt)
          (inl refl, tt))

  tear_down-log :
      (s : State (W × List ℕ)) (pid : ℕ)
      → (tear_down (logged system) s pid).0.world.1 ≡ s.world.1 ++ family s.world.0 pid
  unfolding tear_down logged
  tear_down-log s pid =
      let ps =
        reverse_onto (get_or [] (descendant_pids (child_pids (system.backend s.world.0)) pid)) [] in
      ap (λ done. done ++ pid ∷ []) (kill_all-log s ps) ∙ append_assoc s.world.1 ps (pid ∷ [])

module _ {W : Type 0} (system : System W) (normcase : String → String) where
  gate_foreign-pass :
      (e : Expectation) (current : ProcessIdentity) (info : ProcessInfo)
      → gate_foreign system.current_user e current info ≡ pass
      → (matches_time e.create_time current.create_time || matches_name e.name current info ≡ true)
        × ¬ IsForeign system.current_user current.owner
  unfolding gate_foreign
  gate_foreign-pass e current info h = (
    ground arith,
    λ f. ground (
      arith,
      f.0,
      f.1,
      f.2,
      eq_iff current.owner "",
      eq_iff system.current_user "",
      eq_iff current.owner system.current_user,
    ),
  )

  gate-IsPermitted :
      (recorded : Option ProcessIdentity) (pid : ℕ) (e : Expectation) (seen : Option ProcessInfo)
      → leb pid 1 ≡ false
      → gate normcase system.current_user e pid recorded seen ≡ pass
      → IsPermitted normcase system.current_user recorded pid e seen
  unfolding identity_from_process
  gate-IsPermitted (some i) pid e (some info) a h = record {
    above = ground arith;
    info = info;
    observed = refl;
    identified = inl (i, refl, ground arith);
  }
  gate-IsPermitted none pid e (some info) a h = record {
    above = ground arith;
    info = info;
    observed = refl;
    identified =
        let (known, own) = gate_foreign-pass e (identity_from_process (some info) pid) info h in
        inr (refl, known, own);
  }
  gate-IsPermitted (some i) pid e none a h = ground arith
  gate-IsPermitted none pid e none a h = ground arith

  -- What `terminate_process` did, from the state before to the result.
  abbrev pub Kills :
      State (W × List ℕ) → ℕ → Expectation → State (W × List ℕ) × Termination → Type 0
  Kills s pid e (s', t) =
      (s'.world ≡ s.world)
      ⊎ (IsPermitted normcase system.current_user (find pid s.registry) pid e
            (system.get_process s.world.0 pid)
          × (s'.world.1 ≡ s.world.1 ++ family system s.world.0 pid)
          × All (InFamily system s.world.0 pid) (family system s.world.0 pid))

  pass_gate-Kills :
      (s : State (W × List ℕ)) (pid : ℕ) (e : Expectation) (g : Gate)
      → (g ≡ pass
          → IsPermitted normcase system.current_user
              (find pid s.registry)
              pid
              e
              (system.get_process s.world.0 pid))
      → Kills s pid e (pass_gate (logged system) normcase s pid g)
  pass_gate-Kills s pid e pass h =
      inr (h refl, tear_down-log system s pid, family-All system s.world.0 pid)
  pass_gate-Kills s pid e (refuse c) h = inl refl
  pass_gate-Kills s pid e (forget_and_refuse c) h = inl refl

  -- `terminate_process` either leaves the world as it is, or the pid is above 1, a process with it
  -- is seen, and that is the recorded one, or is not recorded, meets the expectation and is not known to
  -- be another user's; then exactly the processes found below it, in the reverse of the
  -- order in which they were found, and then it itself are terminated.
  pub terminate_process-IsPermitted :
      (s : State (W × List ℕ)) (pid : ℕ) (e : Expectation)
      → Kills s pid e (terminate_process (logged system) normcase s pid e)
  unfolding terminate_process logged
  terminate_process-IsPermitted s pid e =
      if_split (Kills s pid e) (leb pid 1) _ _ (λ h. inl refl)
        (λ h.
          pass_gate-Kills s pid e _
            (gate-IsPermitted (find pid s.registry) pid e (system.get_process s.world.0 pid) h))
