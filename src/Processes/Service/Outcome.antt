-- ===== src/Processes/Service/Outcome.antt =====
-- windows_os_api/os/processes/service.py: what a success of `terminate_process` means, and what
-- is refused for a pid that was recycled.
use win_os_layer.Common.{
  ℕ, ◌<◌, String, ◌≡◌, refl, Bool, true, false, ◌&&◌, none, some, List, [], ◌∷◌, arith, leb,
  if◌then◌else◌, if_rule, Bool-cases, get_or, All,
}
use win_os_layer.Processes.Identity.{
  ProcessInfo, ProcessIdentity, identity_from_process, same_process, ProcessRegistry, find, forget,
  find-forget,
}
use win_os_layer.Processes.Tree.{child_pids, descendant_pids}
use win_os_layer.Processes.Service.{
  process_identity_mismatch, process_identity_required, System, Expectation, Gate, pass, refuse,
  forget_and_refuse, Termination, refused, torn_down, State, gate_foreign, is_alive, reverse_onto,
  is_none_left, is_none, residual_alive, kill_all, tear_down, pass_gate, terminate_process,
}

dropped :
    (clean ok gone : Bool) (pid : ℕ) (r : ProcessRegistry)
    → clean && ok ≡ true
    → find pid (if (if clean then ok else gone) then forget pid r else r) ≡ none
dropped true true gone pid r h = ground (arith, find-forget pid pid r)
dropped true false gone pid r h = ground arith
dropped false ok gone pid r h = ground arith

-- The caller expects nothing.
abbrev pub no_expectation : Expectation
no_expectation = record { create_time = none; name = "" }

module _ {W : Type 0} (system : System W) where
  residual_alive-All :
      (w : W) (ps : List ℕ)
      → is_none_left (residual_alive system w ps) ≡ true
      → All (λ p. is_alive (system.get_process w p) ≡ false) ps
  unfolding residual_alive
  residual_alive-All w [] h = tt
  residual_alive-All w (p ∷ ps) h = (
    ground arith,
    residual_alive-All w ps (ground (arith, Bool-cases (is_alive (system.get_process w p)))),
  )

  tear_down-ok :
      (s : State W) (pid : ℕ)
      → (tear_down system s pid).1.ok ≡ true
      → All
          (λ p. is_alive (system.get_process (tear_down system s pid).0.world p) ≡ false)
          (get_or [] (descendant_pids (child_pids (system.backend s.world)) pid))
        × (find pid (tear_down system s pid).0.registry ≡ none)
  unfolding tear_down
  tear_down-ok s pid h =
      let descendants = get_or [] (descendant_pids (child_pids (system.backend s.world)) pid) in
      let killed = (kill_all system s (reverse_onto descendants [])).0 in
      let (w, ok) = system.terminate killed.world pid in
      (
        residual_alive-All w descendants (ground arith),
        dropped (is_none_left (residual_alive system w descendants)) ok
            (is_none (system.get_process w pid)) pid killed.registry h,
      )

module _ {W : Type 0} (system : System W) (normcase : String → String) where
  -- A pid that was recycled: the record is that of another process than the one that is seen.
  abbrev pub IsRecycled : State W → ℕ → Type 0
  IsRecycled s pid =
      (i : ProcessIdentity) × (info : ProcessInfo) × (find pid s.registry ≡ some i)
      × (system.get_process s.world pid ≡ some info)
      × (same_process normcase i (identity_from_process (some info) pid) ≡ false)

  -- A success of `terminate_process`: no process that was found below is alive, and the registry
  -- does not know the pid.
  abbrev pub Succeeds : State W → ℕ → State W × Termination → Type 0
  Succeeds s pid (s', refused c) = Unit
  Succeeds s pid (s', torn_down t) =
      t.ok ≡ true
      → All (λ p. is_alive (system.get_process s'.world p) ≡ false)
          (get_or [] (descendant_pids (child_pids (system.backend s.world)) pid))
        × (find pid s'.registry ≡ none)

  pass_gate-Succeeds :
      (s : State W) (pid : ℕ) (g : Gate) → Succeeds s pid (pass_gate system normcase s pid g)
  pass_gate-Succeeds s pid pass = tear_down-ok system s pid
  pass_gate-Succeeds s pid (refuse c) = tt
  pass_gate-Succeeds s pid (forget_and_refuse c) = tt

  -- Where terminate_process tears down and answers ok, none of the processes that were found
  -- below the pid is alive in the world it leaves, and the pid is no longer recorded.
  pub terminate_process-Succeeds :
      (s : State W) (pid : ℕ) (e : Expectation)
      → Succeeds s pid (terminate_process system normcase s pid e)
  unfolding terminate_process
  terminate_process-Succeeds s pid e =
      if_rule (Succeeds s pid) (leb pid 1) _ _ tt (pass_gate-Succeeds s pid _)

  drops_recycled :
      (s : State W) (pid : ℕ) (e : Expectation)
      → 1 < pid
      → IsRecycled s pid
      → terminate_process system normcase s pid e
        ≡ (record s { registry = forget pid s.registry }, refused process_identity_mismatch)
  unfolding terminate_process
  drops_recycled s pid e a (i, info, f, g, d) =
      let above : leb pid 1 ≡ false = ground arith in rw (above, f, g, d) refl

  asks_for_more :
      (s : State W) (pid : ℕ) (info : ProcessInfo)
      → 1 < pid
      → find pid s.registry ≡ none
      → system.get_process s.world pid ≡ some info
      → terminate_process system normcase s pid no_expectation
        ≡ (s, refused process_identity_required)
  unfolding terminate_process gate_foreign
  asks_for_more s pid info a f g =
      let above : leb pid 1 ≡ false = ground arith in rw (above, f, g) refl

  -- For a pid above 1 that is recorded as another process than the one seen, terminate_process
  -- answers a mismatch and leaves the world alone, and a second attempt without an expectation
  -- is asked for one.
  pub terminate_process-recycled :
      (s : State W) (pid : ℕ) (e : Expectation)
      → 1 < pid
      → IsRecycled s pid
      → let (s', t) = terminate_process system normcase s pid e in
        (t ≡ refused process_identity_mismatch)
        × (s'.world ≡ s.world)
        × (terminate_process system normcase s' pid no_expectation
            ≡ (s', refused process_identity_required))
  terminate_process-recycled s pid e a r =
      let (i, info, f, g, d) = r in
      let gone = find-forget pid pid s.registry in
      rw (drops_recycled s pid e a r) (
        refl,
        refl,
        asks_for_more (record s { registry = forget pid s.registry }) pid info a
            (ground (arith, gone)) g,
      )
