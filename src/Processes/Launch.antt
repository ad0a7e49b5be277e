-- ===== src/Processes/Launch.antt =====
-- windows_os_api/os/processes/exec_policy.py, with the paths of POSIX. What the file system and the
-- search path say is a parameter, `Host`. A resolved path is the list of its components.
pub mod Policy
mod Tests
use win_os_layer.Common.{
  ℕ, String, ◌⊎◌, inl, inr, Bool, true, false, not, ◌&&◌, ◌||◌, Option, none, some, List, [], ◌∷◌,
  ◌++◌, ◌==◌, ltb, leb, nat_eq, if◌then◌else◌, get_or, length, contains,
}
use win_os_layer.Common.Dict.{Dict, lookup}
use win_os_layer.Common.Text.{strip}
use Prim.Native.Char.{Char, code}
use Prim.Native.String
use win_os_layer.Common.Text.{lower, text_length}

pub record Host : Type 0 where
  -- shutil.which
  pub which : String → Option String
  -- Path(...).resolve(), `none` for an `OSError`
  pub resolve : String → Option (List String)
  pub is_file : List String → Bool
  -- tempfile.gettempdir(), the variables TEMP and TMP, empty where missing, and Path.home()
  pub temp_dir : String
  pub env_temp : String
  pub env_tmp : String
  pub home : List String

pub data LaunchError : Type 0 where
  executable_not_found executable_path_invalid executable_location_forbidden : LaunchError
  interpreter_inline_code_forbidden args_invalid : LaunchError

-- An argument that is a text, or anything else; what is no list of arguments is `not_a_list`.
pub data RawArg : Type 0 where
  arg : String → RawArg
  not_text : RawArg

pub data RawArgs : Type 0 where
  no_args not_a_list : RawArgs
  arg_list : List RawArg → RawArgs

abbrev pub max_args : ℕ
max_args = 64

abbrev pub max_arg_len : ℕ
max_arg_len = 4096

abbrev pub inline_code_flags : Dict (List String)
inline_code_flags =
    ("sh", "-c" ∷ [])
    ∷ ("bash", "-c" ∷ [])
    ∷ ("dash", "-c" ∷ [])
    ∷ ("zsh", "-c" ∷ [])
    ∷ ("ksh", "-c" ∷ [])
    ∷ ("csh", "-c" ∷ [])
    ∷ ("tcsh", "-c" ∷ [])
    ∷ ("fish", "-c" ∷ [])
    ∷ ("python", "-c" ∷ [])
    ∷ ("python3", "-c" ∷ [])
    ∷ ("perl", "-e" ∷ "-E" ∷ [])
    ∷ ("ruby", "-e" ∷ [])
    ∷ ("node", "-e" ∷ "-p" ∷ "--eval" ∷ "--print" ∷ [])
    ∷ ("php", "-r" ∷ [])
    ∷ ("cmd", "/c" ∷ "/k" ∷ [])
    ∷ ("powershell", "-command" ∷ "-c" ∷ "-encodedcommand" ∷ "-e" ∷ [])
    ∷ ("pwsh", "-command" ∷ "-c" ∷ "-encodedcommand" ∷ "-e" ∷ [])
    ∷ ("wscript", "/e" ∷ [])
    ∷ ("cscript", "/e" ∷ [])
    ∷ []

-- A character of this code stands in the text.
unfoldable pub has_code : ℕ → String → Bool
has_code n String.[] = false
has_code n (String.◌∷◌ c s) = nat_eq (code c) n || has_code n s

-- The components of a text at its slashes.
abbrev pub onto_first : Char → List String → List String
onto_first c [] = String.◌∷◌ c "" ∷ []
onto_first c (part ∷ parts) = String.◌∷◌ c part ∷ parts

unfoldable pub path_parts : String → List String
path_parts String.[] = "" ∷ []
path_parts (String.◌∷◌ c s) =
    let rest = path_parts s in if nat_eq (code c) b'/' then "" ∷ rest else onto_first c rest

unfoldable pub is_absolute : String → Bool
is_absolute String.[] = false
is_absolute (String.◌∷◌ c s) = nat_eq (code c) b'/'

-- The components of the root begin those of the path.
unfoldable pub is_under : List String → List String → Bool
is_under path [] = true
is_under [] (r ∷ root) = false
is_under (p ∷ path) (r ∷ root) = (p == r) && is_under path root

-- The loop of `_validate_args`.
unfoldable pub clean_args : List RawArg → List String ⊎ LaunchError
clean_args [] = inl []
clean_args (not_text ∷ raw) = inr args_invalid
clean_args (arg a ∷ raw) =
    let rest = clean_args raw in
    if has_code 0 a
    then inr args_invalid
    else if ltb max_arg_len (text_length a)
    then inr args_invalid
    else elim rest [ inl later ↦ inl (a ∷ later) | inr e ↦ inr e ]

unfoldable pub validate_args : RawArgs → List String ⊎ LaunchError
validate_args no_args = inl []
validate_args not_a_list = inr args_invalid
validate_args (arg_list raw) =
    if ltb max_args (length raw) then inr args_invalid else clean_args raw

-- `.exe` taken off the end
unfoldable pub without_exe : String → String
without_exe String.[] = ""
without_exe (String.◌∷◌ c s) =
    let rest = without_exe s in if String.◌∷◌ c s == ".exe" then "" else String.◌∷◌ c rest

-- s.rstrip("0123456789.")
unfoldable pub without_version : String → String
without_version String.[] = ""
without_version (String.◌∷◌ c s) =
    let rest = without_version s in
    let n = code c in
    if (leb b'0' n && leb n b'9' || nat_eq n b'.') && rest == "" then "" else String.◌∷◌ c rest

unfoldable pub interpreter_stem : String → String
interpreter_stem name =
    let stem = without_exe (lower name) in
    let trimmed = without_version stem in if trimmed == "" then stem else trimmed

abbrev pub file_name : List String → String
file_name [] = ""
file_name (p ∷ []) = p
file_name (p ∷ q ∷ path) = file_name (q ∷ path)

unfoldable pub flags_of : String → List String
flags_of stem = get_or [] (lookup stem inline_code_flags)

-- The loop of `_refuse_inline_code`.
unfoldable pub has_inline_code : List String → List String → Bool
has_inline_code flags [] = false
has_inline_code flags (a ∷ later) = contains (lower a) flags || has_inline_code flags later

unfoldable pub is_volatile : List String → List (List String) → Bool
is_volatile exe [] = false
is_volatile exe (root ∷ roots) = is_under exe root || is_volatile exe roots

module _ (host : Host) where
  -- The loop of `_volatile_roots`.
  unfoldable pub resolved_roots : List String → List (List String)
  resolved_roots [] = []
  resolved_roots (candidate ∷ candidates) =
      let rest = resolved_roots candidates in
      let with_root : List (List String) = elim (host.resolve candidate) [
        | none ↦ rest
        | some root ↦ root ∷ rest
      ] in
      if candidate == "" then rest else with_root

  unfoldable pub volatile_roots : List (List String)
  volatile_roots =
      resolved_roots
        (host.temp_dir ∷ "/tmp" ∷ "/var/tmp" ∷ "/dev/shm" ∷ host.env_temp ∷ host.env_tmp ∷ [])
      ++ (host.home ++ "Downloads" ∷ []) ∷ (host.home ++ "Scaricati" ∷ []) ∷ []

  -- The path that a command names, before it is resolved.
  unfoldable pub locate : String → String ⊎ LaunchError
  locate raw =
      if has_code b'/' raw
      then (if contains ".." (path_parts raw)
          then inr executable_path_invalid
          else if not (is_absolute raw)
          then inr executable_path_invalid
          else inl raw)
      else elim (host.which raw) [ none ↦ inr executable_not_found | some found ↦ inl found ]

  unfoldable pub resolve_file : String → List String ⊎ LaunchError
  resolve_file path = elim (host.resolve path) [
    | none ↦ inr executable_path_invalid
    | some real ↦ if host.is_file real then inl real else inr executable_not_found
  ]

  -- `_resolve_executable`; `none` is a command that is no text.
  unfoldable pub resolve_executable : Option String → List String ⊎ LaunchError
  resolve_executable none = inr executable_path_invalid
  resolve_executable (some command) =
      let raw = strip command in
      if raw == ""
      then inr executable_path_invalid
      else if has_code 0 raw
      then inr executable_path_invalid
      else elim (locate raw) [ inl path ↦ resolve_file path | inr e ↦ inr e ]

  -- The two refusals of `authorize`.
  unfoldable pub permit : List String → List String → (List String × List String) ⊎ LaunchError
  permit exe args =
      if is_volatile exe volatile_roots
      then inr executable_location_forbidden
      else if has_inline_code (flags_of (interpreter_stem (file_name exe))) args
      then inr interpreter_inline_code_forbidden
      else inl (exe, args)

  abbrev pub authorize_with :
      List String ⊎ LaunchError
      → List String ⊎ LaunchError
      → (List String × List String) ⊎ LaunchError
  authorize_with (inr e) exe = inr e
  authorize_with (inl args) (inr e) = inr e
  authorize_with (inl args) (inl exe) = permit exe args

  unfoldable pub authorize : Option String → RawArgs → (List String × List String) ⊎ LaunchError
  authorize command args = authorize_with (validate_args args) (resolve_executable command)
