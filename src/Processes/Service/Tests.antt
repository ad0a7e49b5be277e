-- ===== src/Processes/Service/Tests.antt =====
-- Runs of `terminate_process` and `restart_process`.
use win_os_layer.Common.{
  ℕ, String, ◌≡◌, refl, true, false, none, some, List, [], ◌∷◌, arith, nat_eq, if◌then◌else◌,
  contains_nat,
}
use win_os_layer.Common.Dict.{lookup}
use win_os_layer.Common.Text.{strip}
use win_os_layer.Processes.Identity.{
  ProcessInfo, ProcessIdentity, identity_from_process, same_process, find, forget, record_identity,
}
use win_os_layer.Processes.Tree.{child_pids, descendant_pids}
use win_os_layer.Processes.Launch.{Host, authorize}
use win_os_layer.Common.Text.{lower}
use win_os_layer.Processes.Service.{
  process_protected, process_identity_mismatch, process_identity_required, named, System, refused,
  State, gate_foreign, residual_alive, kill_all, tear_down, terminate_process,
}
use win_os_layer.Processes.Service.Restart.{
  observed_identity, path_text, start_process, restart_process,
}
use win_os_layer.Processes.Tree.{loop, round, visit, usable_pids, listed_children, meet}
use win_os_layer.Processes.Launch.{
  validate_args, clean_args, flags_of, has_code, has_inline_code, interpreter_stem, is_absolute,
  is_under, is_volatile, resolved_roots, volatile_roots, locate, path_parts, permit,
  resolve_executable, resolve_file, without_exe, without_version,
}
use win_os_layer.Processes.Service.Gating.{logged, Kills, terminate_process-IsPermitted}
use win_os_layer.Processes.Service.Outcome.{
  no_expectation, IsRecycled, terminate_process-recycled, Succeeds, terminate_process-Succeeds,
}
use win_os_layer.Processes.Service.Owned.{IsRestored, restart_process-IsRestored}

-- A world of the pids that are alive. Process 10 is the parent of 11, and 11 that of 12.
abbrev info_of : ℕ → ProcessInfo
info_of pid = record {
  pid = some pid;
  create_time = some 1000;
  exe = "/opt/tool";
  command = "";
  owner = "ada";
  username = "";
  name = "tool";
  status = "running";
  running = none;
}

unfoldable without : ℕ → List ℕ → List ℕ
without pid [] = []
without pid (p ∷ ps) = let rest = without pid ps in if nat_eq p pid then rest else p ∷ rest

abbrev system : System (List ℕ)
system = record {
  get_process = λ w pid. if contains_nat pid w then some (info_of pid) else none;
  backend = λ w. record {
    inspect_process = none;
    listing = (some 10, some 11) ∷ (some 11, some 12) ∷ [];
  };
  terminate = λ w pid. (without pid w, contains_nat pid w);
  start = λ w exe args. (50 ∷ w, named 50);
  current_user = "ada";
}

-- A system that lets nothing be terminated.
abbrev stubborn : System (List ℕ)
stubborn = record {
  get_process = system.get_process;
  backend = λ w. record { inspect_process = none; listing = [] };
  terminate = λ w pid. (w, false);
  start = system.start;
  current_user = "ada";
}

abbrev host : Host
host = record {
  which = λ name. none;
  resolve = λ path. some (elim (path_parts path) [ [] ↦ [] | first ∷ parts ↦ parts ]);
  is_file = λ path. true;
  temp_dir = "";
  env_temp = "";
  env_tmp = "";
  home = "root" ∷ [];
}

abbrev recorded_at : ℕ → ProcessIdentity
recorded_at time = record {
  pid = 10;
  create_time = some time;
  exe = "/opt/tool";
  owner = "ada";
  argv = "-v" ∷ [];
}

abbrev same : String → String
same s = s

abbrev owned : State (List ℕ)
owned = record { registry = (10, recorded_at 1000) ∷ []; world = 10 ∷ 11 ∷ 12 ∷ 13 ∷ [] }

abbrev recycled : State (List ℕ)
recycled = record { registry = (10, recorded_at 900_000) ∷ []; world = 10 ∷ 13 ∷ [] }

abbrev watched : State (List ℕ × List ℕ)
watched = record { registry = owned.registry; world = (owned.world, []) }

family_killed :
    (terminate_process (logged system) same watched 10 no_expectation).0.world
    ≡ (13 ∷ [], 12 ∷ 11 ∷ 10 ∷ [])
unfolding logged terminate_process find same_process identity_from_process tear_down without
    kill_all descendant_pids loop round visit child_pids usable_pids listed_children meet
family_killed = refl

stranger_needs_expectation :
    (terminate_process (logged system) same watched 13 no_expectation).1
    ≡ refused process_identity_required
unfolding logged terminate_process find gate_foreign
stranger_needs_expectation = refl

init_protected :
    (terminate_process (logged system) same watched 1 no_expectation).1 ≡ refused process_protected
unfolding logged terminate_process
init_protected = refl

-- The old process is still alive, and a second one is started.
restarted_over_survivor :
    (restart_process stubborn same host owned 10 no_expectation).0.world
    ≡ 50 ∷ 10 ∷ 11 ∷ 12 ∷ 13 ∷ []
unfolding restart_process find terminate_process same_process identity_from_process tear_down
    residual_alive descendant_pids loop round visit child_pids usable_pids listed_children kill_all
    start_process authorize validate_args clean_args lookup lower strip forget record_identity
    flags_of has_code has_inline_code interpreter_stem is_absolute is_under is_volatile
    resolved_roots volatile_roots locate path_parts permit resolve_executable resolve_file
    without_exe without_version observed_identity path_text meet
restarted_over_survivor = refl

terminate_process-IsPermitted_example :
    Kills system same watched 10 no_expectation
      (terminate_process (logged system) same watched 10 no_expectation)
terminate_process-IsPermitted_example =
    terminate_process-IsPermitted system same watched 10 no_expectation

terminate_process-Succeeds_example :
    Succeeds system same owned 10 (terminate_process system same owned 10 no_expectation)
terminate_process-Succeeds_example = terminate_process-Succeeds system same owned 10 no_expectation

recycled_pid : IsRecycled system same recycled 10
unfolding find same_process identity_from_process
recycled_pid = (recorded_at 900_000, info_of 10, refl, refl, refl)

terminate_process-recycled_example :
    (terminate_process system same recycled 10 no_expectation).1 ≡ refused process_identity_mismatch
terminate_process-recycled_example =
    (terminate_process-recycled system same recycled 10 no_expectation (omega arith) recycled_pid).0

restart_process-IsRestored_example :
    IsRestored system same host owned 10 no_expectation
      (restart_process system same host owned 10 no_expectation)
restart_process-IsRestored_example =
    restart_process-IsRestored system same host owned 10 no_expectation
