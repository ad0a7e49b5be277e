-- ===== src/Processes/Service.antt =====
-- windows_os_api/os/processes/service.py: how a process is terminated. The world `W` is what the
-- backend reads and changes. A pid is a natural number; a negative one is refused as 0 is.
pub mod Restart
pub mod Gating
pub mod Outcome
pub mod Owned
mod Tests
use win_os_layer.Common.{
  ℕ, String, Bool, true, false, not, ◌&&◌, ◌||◌, Option, none, some, List, [], ◌∷◌, ◌==◌, leb,
  if◌then◌else◌, get_or, contains,
}
use win_os_layer.Processes.Identity.{
  ProcessInfo, ProcessIdentity, or_text, identity_from_process, is_close, same_process,
  ProcessRegistry, find, forget,
}
use win_os_layer.Processes.Tree.{Backend, child_pids, descendant_pids}
use Prim.Native.String
use win_os_layer.Common.Text.{lower}

pub data Code : Type 0 where
  process_not_found process_protected process_identity_mismatch process_identity_required : Code
  process_residual_children process_restart_not_owned process_restart_unknown : Code

-- The backend's answer to a start: no true `ok`, an `ok` without a pid, or a pid.
pub data Started : Type 0 where
  failed unnamed : Started
  named : ℕ → Started

-- What the system offers, on a world. `terminate` says whether the answer was a dictionary with a
-- true `ok`.
pub record System (W : Type 0) : Type 0 where
  pub get_process : W → ℕ → Option ProcessInfo
  pub backend : W → Backend
  pub terminate : W → ℕ → W × Bool
  pub start : W → List String → List String → W × Started
  pub current_user : String

-- What the caller expects of a process that is not recorded; an empty name is none.
pub record Expectation : Type 0 where
  pub create_time : Option ℕ
  pub name : String

pub data Gate : Type 0 where
  pass : Gate
  refuse forget_and_refuse : Code → Gate

pub record Teardown : Type 0 where
  pub ok : Bool
  pub terminated_children : List ℕ
  pub child_errors : List ℕ
  pub residual_children : List ℕ

pub data Termination : Type 0 where
  refused : Code → Termination
  torn_down : Teardown → Termination

-- What changes: the processes that are recorded, and the world.
pub record State (W : Type 0) : Type 0 where
  pub registry : ProcessRegistry
  pub world : W

unfoldable pub ends_with : String → String → Bool
ends_with String.[] t = t == ""
ends_with (String.◌∷◌ c s) t =
    let rest = ends_with s t in if String.◌∷◌ c s == t then true else rest

abbrev pub matches_time : Option ℕ → Option ℕ → Bool
matches_time (some a) (some b) = is_close a b
matches_time none b = false
matches_time (some a) none = false

unfoldable pub matches_name : String → ProcessIdentity → ProcessInfo → Bool
matches_name name current info =
    not (name == "") && ends_with (lower (or_text current.exe info.name)) (lower name)

abbrev pub is_none_time : Option ℕ → Bool
is_none_time none = true
is_none_time (some t) = false

-- The gate for a process that is not recorded.
unfoldable pub gate_foreign : String → Expectation → ProcessIdentity → ProcessInfo → Gate
gate_foreign me e current info =
    if is_none_time e.create_time && e.name == ""
    then refuse process_identity_required
    else if not (matches_time e.create_time current.create_time || matches_name e.name current info)
    then refuse process_identity_mismatch
    else if not (current.owner == "") && not (me == "") && not (current.owner == me)
    then refuse process_protected
    else pass

-- The gate of `terminate_process`, behind the test of the pid.
abbrev pub gate :
    (String → String)
    → String
    → Expectation
    → ℕ
    → Option ProcessIdentity
    → Option ProcessInfo
    → Gate
gate normcase me e pid (some recorded) none = forget_and_refuse process_not_found
gate normcase me e pid (some recorded) (some info) =
    if same_process normcase recorded (identity_from_process (some info) pid)
    then pass
    else forget_and_refuse process_identity_mismatch
gate normcase me e pid none none = refuse process_not_found
gate normcase me e pid none (some info) =
    gate_foreign me e (identity_from_process (some info) pid) info

-- `_default_alive` of tree.py
abbrev pub is_alive : Option ProcessInfo → Bool
is_alive none = false
is_alive (some info) =
    not (contains (lower info.status) ("terminated" ∷ "stopped" ∷ "dead" ∷ "zombie" ∷ []))
    && elim info.running [ none ↦ true | some running ↦ running ]

abbrev pub reverse_onto : List ℕ → List ℕ → List ℕ
reverse_onto [] acc = acc
reverse_onto (p ∷ ps) acc = reverse_onto ps (p ∷ acc)

abbrev pub is_none_left : List ℕ → Bool
is_none_left [] = true
is_none_left (p ∷ ps) = false

abbrev pub is_none : Option ProcessInfo → Bool
is_none none = true
is_none (some info) = false

module _ {W : Type 0} (system : System W) where
  -- `residual_alive` of tree.py
  unfoldable pub residual_alive : W → List ℕ → List ℕ
  residual_alive w [] = []
  residual_alive w (p ∷ ps) =
      let rest = residual_alive w ps in if is_alive (system.get_process w p) then p ∷ rest else rest

  -- The loop over the descendants: who was terminated, and who was not.
  unfoldable pub kill_all : State W → List ℕ → State W × List ℕ × List ℕ
  kill_all s [] = (s, [], [])
  kill_all s (p ∷ ps) =
      let (w, ok) = system.terminate s.world p in
      let gone = kill_all (record { registry = forget p s.registry; world = w }) ps in
      let stays = kill_all (record s { world = w }) ps in
      if ok then (gone.0, p ∷ gone.1, gone.2) else (stays.0, stays.1, p ∷ stays.2)

  -- The end of `terminate_process`, behind its gate.
  unfoldable pub tear_down : State W → ℕ → State W × Teardown
  tear_down s pid =
      let descendants = get_or [] (descendant_pids (child_pids (system.backend s.world)) pid) in
      let (killed, children, errors) = kill_all s (reverse_onto descendants []) in
      let (w, ok) = system.terminate killed.world pid in
      let residual = residual_alive w descendants in
      let clean = is_none_left residual in
      let drops = if clean then ok else is_none (system.get_process w pid) in
      (
        record {
          registry = if drops then forget pid killed.registry else killed.registry;
          world = w;
        },
        record {
          ok = clean && ok;
          terminated_children = children;
          child_errors = errors;
          residual_children = residual;
        },
      )

module _ {W : Type 0} (system : System W) (normcase : String → String) where
  -- `terminate_process`, for the answer of its gate.
  abbrev pub pass_gate : State W → ℕ → Gate → State W × Termination
  pass_gate s pid pass = let (s', t) = tear_down system s pid in (s', torn_down t)
  pass_gate s pid (refuse code) = (s, refused code)
  pass_gate s pid (forget_and_refuse code) =
      (record s { registry = forget pid s.registry }, refused code)

  unfoldable pub terminate_process : State W → ℕ → Expectation → State W × Termination
  terminate_process s pid e =
      let verdict =
        gate normcase system.current_user e pid (find pid s.registry)
          (system.get_process s.world pid) in
      if leb pid 1 then (s, refused process_protected) else pass_gate s pid verdict
