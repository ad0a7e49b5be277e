-- ===== src/Processes/Identity.antt =====
-- windows_os_api/os/processes/identity.py. Times are natural numbers of microseconds; `normcase` is
-- `os.path.normcase` of the system, a parameter. A missing text is empty, as in the tests of the code.
use win_os_layer.Common.{
  ℕ, ◌+◌, ◌-◌, String, ◌≡◌, Bool, not, ◌&&◌, Option, none, some, List, [], ◌∷◌, arith, ◌==◌, leb,
  nat_eq, if◌then◌else◌, get_or,
}

-- What a backend reports of a process, as far as it is read. `pid` is `none` where it is missing or
-- no number.
pub record ProcessInfo : Type 0 where
  pub pid : Option ℕ
  pub create_time : Option ℕ
  pub exe : String
  pub command : String
  pub owner : String
  pub username : String
  pub name : String
  pub status : String
  pub running : Option Bool

pub record ProcessIdentity : Type 0 where
  pub pid : ℕ
  pub create_time : Option ℕ
  pub exe : String
  pub owner : String
  pub argv : List String

-- CREATE_TIME_TOLERANCE, 0.05 seconds
abbrev pub create_time_tolerance : ℕ
create_time_tolerance = 50_000

-- a or b
abbrev pub or_text : String → String → String
or_text a b = if a == "" then b else a

unfoldable pub identity_from_process : Option ProcessInfo → ℕ → ProcessIdentity
identity_from_process none pid = record {
  pid = pid;
  create_time = none;
  exe = "";
  owner = "";
  argv = [];
}
identity_from_process (some info) pid = record {
  pid = get_or pid info.pid;
  create_time = info.create_time;
  exe = or_text info.exe info.command;
  owner = or_text info.owner info.username;
  argv = [];
}

-- abs(a - b) <= CREATE_TIME_TOLERANCE
abbrev pub is_close : ℕ → ℕ → Bool
is_close a b = leb ((a - b) + (b - a)) create_time_tolerance

module _ (normcase : String → String) where
  -- The proof that is left where a time of creation is missing.
  abbrev pub same_exe : String → String → Bool
  same_exe a b = not (a == "") && not (b == "") && normcase a == normcase b

  abbrev pub same_birth : Option ℕ → Option ℕ → String → String → Bool
  same_birth (some a) (some b) exe exe' = is_close a b
  same_birth none b exe exe' = same_exe exe exe'
  same_birth (some a) none exe exe' = same_exe exe exe'

  unfoldable pub same_process : ProcessIdentity → ProcessIdentity → Bool
  same_process recorded current =
      nat_eq recorded.pid current.pid
      && same_birth recorded.create_time current.create_time recorded.exe current.exe

-- `ProcessRegistry`
abbrev pub ProcessRegistry : Type 0
ProcessRegistry = List (ℕ × ProcessIdentity)

unfoldable pub find : ℕ → ProcessRegistry → Option ProcessIdentity
find pid [] = none
find pid ((p, i) ∷ r) = let rest = find pid r in if nat_eq p pid then some i else rest

unfoldable pub forget : ℕ → ProcessRegistry → ProcessRegistry
forget pid [] = []
forget pid ((p, i) ∷ r) = let rest = forget pid r in if nat_eq p pid then rest else (p, i) ∷ rest

unfoldable pub record_identity : ProcessIdentity → ProcessRegistry → ProcessRegistry
record_identity i r = (i.pid, i) ∷ forget i.pid r

pub find-forget :
    (pid p : ℕ) (r : ProcessRegistry)
    → find p (forget pid r) ≡ (if nat_eq pid p then none else find p r)
unfolding find forget
find-forget pid p [] = ground arith
find-forget pid p ((q, i) ∷ r) = ground (arith, find-forget pid p r)

pub find-record_identity :
    (i : ProcessIdentity) (p : ℕ) (r : ProcessRegistry)
    → find p (record_identity i r) ≡ (if nat_eq i.pid p then some i else find p r)
unfolding find record_identity
find-record_identity i p r = ground (arith, find-forget i.pid p r)
