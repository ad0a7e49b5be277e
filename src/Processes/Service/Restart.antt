-- ===== src/Processes/Service/Restart.antt =====
-- windows_os_api/os/processes/service.py: `start_process` and `restart_process`.
use win_os_layer.Common.{
  ℕ, String, ◌⊎◌, inl, inr, Bool, true, false, not, Option, none, some, List, [], ◌∷◌, map, ◌==◌,
  if◌then◌else◌,
}
use win_os_layer.Processes.Identity.{
  ProcessIdentity, or_text, identity_from_process, ProcessRegistry, find, record_identity,
}
use win_os_layer.Processes.Launch.{Host, LaunchError, RawArgs, arg_list, authorize}
use Prim.Native.String
use win_os_layer.Processes.Service.{
  process_not_found, Started, failed, unnamed, named, System, Expectation, Termination, refused,
  torn_down, State, is_none_left, terminate_process,
}
use win_os_layer.Processes.Launch.{arg}

pub data Start : Type 0 where
  rejected : LaunchError → Start
  answered : Started → Start
  started : ℕ → ProcessIdentity → Start

-- The answer of `restart_process`: a refusal, a teardown in its way, or what the launch gave.
pub data Restart : Type 0 where
  not_owned unknown_command : Restart
  blocked : Termination → Restart
  relaunched : Termination → Start → Restart

-- The text of a path of components.
unfoldable pub path_text : List String → String
path_text [] = ""
path_text (p ∷ ps) = String.◌++◌ "/" (String.◌++◌ p (path_text ps))

-- The codes that stop a restart, where the teardown was no success.
abbrev pub blocks : Termination → Bool
blocks (refused process_not_found) = false
blocks (refused c) = true
blocks (torn_down t) = not (is_none_left t.residual_children)

module _ {W : Type 0} (system : System W) (normcase : String → String) (host : Host) where
  -- What `start_process` records of a process that was started.
  unfoldable pub observed_identity : W → ℕ → String → List String → ProcessIdentity
  observed_identity w pid exe args =
      let seen = identity_from_process (system.get_process w pid) pid in
      record {
        pid = pid;
        create_time = seen.create_time;
        exe = or_text seen.exe exe;
        owner = or_text seen.owner system.current_user;
        argv = args;
      }

  -- What `start_process` does with the backend's answer.
  abbrev pub note_started :
      ProcessRegistry → W → List String → List String → Started → State W × Start
  note_started r w exe args failed = (record { registry = r; world = w }, answered failed)
  note_started r w exe args unnamed = (record { registry = r; world = w }, answered unnamed)
  note_started r w exe args (named pid) =
      let i = observed_identity w pid (path_text exe) args in
      (record { registry = record_identity i r; world = w }, started pid i)

  -- `start_process`, for the answer of the policy.
  abbrev pub launch_if : State W → (List String × List String) ⊎ LaunchError → State W × Start
  launch_if s (inr e) = (s, rejected e)
  launch_if s (inl (exe, args)) =
      let (w, answer) = system.start s.world exe args in note_started s.registry w exe args answer

  unfoldable pub start_process : State W → Option String → RawArgs → State W × Start
  start_process s command args = launch_if s (authorize host command args)

  -- `restart_process`, for the record of the process.
  abbrev pub restart_recorded :
      State W → ℕ → Expectation → Option ProcessIdentity → State W × Restart
  restart_recorded s pid e none = (s, not_owned)
  restart_recorded s pid e (some i) =
      let (s', stopped) = terminate_process system normcase s pid e in
      let (s'', launch) = start_process s' (some i.exe) (arg_list (map arg i.argv)) in
      if i.exe == ""
      then (s, unknown_command)
      else if blocks stopped
      then (s', blocked stopped)
      else (s'', relaunched stopped launch)

  unfoldable pub restart_process : State W → ℕ → Expectation → State W × Restart
  restart_process s pid e = restart_recorded s pid e (find pid s.registry)
