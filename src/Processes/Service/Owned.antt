-- ===== src/Processes/Service/Owned.antt =====
-- windows_os_api/os/processes/service.py: what `start_process` and `restart_process` may start.
use win_os_layer.Common.{
  ℕ, String, ◌≡◌, refl, sym, ap, subst, ◌≢◌, ◌⊎◌, inl, inr, true, false, Option, none, some, List,
  [], ◌∷◌, map, arith, ◌==◌, eq_iff, if_split,
}
use win_os_layer.Processes.Identity.{ProcessIdentity, find, find-record_identity}
use win_os_layer.Processes.Launch.{Host, LaunchError, RawArgs, arg_list, authorize}
use win_os_layer.Processes.Service.{
  Started, failed, unnamed, named, System, Expectation, State, terminate_process,
}
use win_os_layer.Processes.Service.Restart.{
  Start, rejected, answered, started, Restart, not_owned, unknown_command, blocked, relaunched,
  observed_identity, path_text, note_started, launch_if, start_process, blocks, restart_recorded,
  restart_process,
}
use win_os_layer.Processes.Launch.Policy.{IsAuthorized, raw_texts, authorize-IsAuthorized}
use win_os_layer.Processes.Launch.{arg}

texts_of_args : (argv args : List String) → map arg argv ≡ raw_texts args → argv ≡ args
texts_of_args [] [] h = refl
texts_of_args [] (a ∷ args) h = ground arith
texts_of_args (a ∷ argv) [] h = ground arith
texts_of_args (a ∷ argv) (b ∷ args) h = ground (arith, texts_of_args argv args)

module _ {W : Type 0} (system : System W) (normcase : String → String) (host : Host) where
  -- What a start gave: the system was told to start exactly what the policy let pass, and the new
  -- process is recorded with its arguments.
  abbrev pub IsLaunched : State W → String → RawArgs → State W × Start → Type 0
  IsLaunched s command raw (s', started pid i) =
      (exe : List String) × IsAuthorized host command raw exe i.argv
      × (system.start s.world exe i.argv ≡ (s'.world, named pid))
      × (i.pid ≡ pid)
      × (find pid s'.registry ≡ some i)
  IsLaunched s command raw (s', rejected e) = s' ≡ s
  IsLaunched s command raw (s', answered a) =
      (exe : List String) × (args : List String) × IsAuthorized host command raw exe args
      × (system.start s.world exe args ≡ (s'.world, a))
      × (s'.registry ≡ s.registry)

  note_started-IsLaunched :
      (s : State W) (command : String) (raw : RawArgs) (w : W) (exe args : List String)
      → IsAuthorized host command raw exe args
      → (answer : Started) → system.start s.world exe args ≡ (w, answer)
      → IsLaunched s command raw (note_started system normcase host s.registry w exe args answer)
  unfolding observed_identity
  note_started-IsLaunched s command raw w exe args p failed e = (exe, args, p, e, refl)
  note_started-IsLaunched s command raw w exe args p unnamed e = (exe, args, p, e, refl)
  note_started-IsLaunched s command raw w exe args p (named pid) e =
      let i = observed_identity system normcase host w pid (path_text exe) args in
      (exe, p, e, refl, ground (arith, find-record_identity i pid s.registry))

  launch_if-IsLaunched :
      (s : State W) (command : String) (raw : RawArgs)
      (v : (List String × List String) ⊎ LaunchError)
      → ((exe args : List String) → v ≡ inl (exe, args) → IsAuthorized host command raw exe args)
      → IsLaunched s command raw (launch_if system normcase host s v)
  launch_if-IsLaunched s command raw (inr e) h = refl
  launch_if-IsLaunched s command raw (inl (exe, args)) h =
      let (w, answer) = system.start s.world exe args in
      note_started-IsLaunched s command raw w exe args (h exe args refl) answer refl

  start_process-IsLaunched :
      (s : State W) (command : String) (raw : RawArgs)
      → IsLaunched s command raw (start_process system normcase host s (some command) raw)
  unfolding start_process
  start_process-IsLaunched s command raw =
      launch_if-IsLaunched s command raw (authorize host (some command) raw) (λ exe args h.
        let (text, same, p) = authorize-IsAuthorized host (some command) raw exe args h in
        let e : text ≡ command = ground arith in subst (λ c. IsAuthorized host c raw exe args) e p)

  -- What `restart_process` did. A new process runs the recorded program with the recorded arguments,
  -- both let through by the policy, and is recorded itself; without a new process the state is the
  -- old one, or the one that the teardown or the start left.
  abbrev pub IsRestored : State W → ℕ → Expectation → State W × Restart → Type 0
  IsRestored s pid e (s', not_owned) = (s' ≡ s) × (find pid s.registry ≡ none)
  IsRestored s pid e (s', unknown_command) = s' ≡ s
  IsRestored s pid e (s', blocked t) =
      (terminate_process system normcase s pid e ≡ (s', t)) × (blocks t ≡ true)
  IsRestored s pid e (s', relaunched t (rejected c)) =
      terminate_process system normcase s pid e ≡ (s', t)
  IsRestored s pid e (s', relaunched t (answered a)) =
      (i : ProcessIdentity) × (exe : List String) × (find pid s.registry ≡ some i)
      × (t ≡ (terminate_process system normcase s pid e).1)
      × (blocks t ≡ false)
      × IsAuthorized host i.exe (arg_list (map arg i.argv)) exe i.argv
      × (system.start (terminate_process system normcase s pid e).0.world exe i.argv
          ≡ (s'.world, a))
      × (s'.registry ≡ (terminate_process system normcase s pid e).0.registry)
  IsRestored s pid e (s', relaunched t (started p new)) =
      (i : ProcessIdentity) × (exe : List String) × (find pid s.registry ≡ some i)
      × (i.exe ≢ "")
      × (t ≡ (terminate_process system normcase s pid e).1)
      × (blocks t ≡ false)
      × (new.argv ≡ i.argv)
      × IsAuthorized host i.exe (arg_list (map arg i.argv)) exe new.argv
      × (system.start (terminate_process system normcase s pid e).0.world exe new.argv
          ≡ (s'.world, named p))
      × (new.pid ≡ p)
      × (find p s'.registry ≡ some new)

  relaunched-IsRestored :
      (s : State W) (pid : ℕ) (e : Expectation) (i : ProcessIdentity)
      → find pid s.registry ≡ some i
      → i.exe ≢ ""
      → blocks (terminate_process system normcase s pid e).1 ≡ false
      → (r : State W × Start)
      → IsLaunched (terminate_process system normcase s pid e).0 i.exe (arg_list (map arg i.argv)) r
      → IsRestored s pid e (r.0, relaunched (terminate_process system normcase s pid e).1 r.1)
  relaunched-IsRestored s pid e i f named_exe free (s', rejected c) l =
      ap (λ x. (x, (terminate_process system normcase s pid e).1)) (sym l)
  relaunched-IsRestored s pid e i f named_exe free (s', answered a) (exe, args, safe, call, same) =
      let s1 = (terminate_process system normcase s pid e).0 in
      let given : args ≡ i.argv = sym (texts_of_args i.argv args safe.given) in
      (
        i,
        exe,
        f,
        refl,
        free,
        subst (IsAuthorized host i.exe (arg_list (map arg i.argv)) exe) given safe,
        subst (λ v. system.start s1.world exe v ≡ (s'.world, a)) given call,
        same,
      )
  relaunched-IsRestored s pid e i f named_exe free (s', started p new)
        (exe, safe, call, at_pid, recorded) =
      (
        i,
        exe,
        f,
        named_exe,
        refl,
        free,
        sym (texts_of_args i.argv new.argv safe.given),
        safe,
        call,
        at_pid,
        recorded,
      )

  restart_recorded-IsRestored :
      (s : State W) (pid : ℕ) (e : Expectation) (recorded : Option ProcessIdentity)
      → find pid s.registry ≡ recorded
      → IsRestored s pid e (restart_recorded system normcase host s pid e recorded)
  restart_recorded-IsRestored s pid e none f = (refl, f)
  restart_recorded-IsRestored s pid e (some i) f =
      let (s', stopped) = terminate_process system normcase s pid e in
      if_split (IsRestored s pid e) (i.exe == "") _ _ (λ h. refl)
        (λ n.
          if_split (IsRestored s pid e) (blocks stopped) _ _ (λ b. (refl, b))
            (λ b.
              relaunched-IsRestored s pid e i f (ground (arith, eq_iff i.exe "", n)) b _
                (start_process-IsLaunched s' i.exe (arg_list (map arg i.argv)))))

  -- `restart_process` starts a process only for a pid that is recorded with a program, after a
  -- teardown that does not block it, and only by a call of the system with the recorded program and
  -- exactly the recorded arguments, which the policy lets through; the new process is then recorded.
  pub restart_process-IsRestored :
      (s : State W) (pid : ℕ) (e : Expectation)
      → IsRestored s pid e (restart_process system normcase host s pid e)
  unfolding restart_process
  restart_process-IsRestored s pid e =
      restart_recorded-IsRestored s pid e (find pid s.registry) refl
