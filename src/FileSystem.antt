-- ===== src/FileSystem.antt =====
-- windows_os_api/os/filesystem/paths.py, on a system with O_NOFOLLOW. A path is the list of its
-- components from the root of the file system; the world `W` is what the file system is.
pub mod Walk
pub mod Contained
mod Tests
use win_os_layer.Common.{
  ℕ, String, ◌⊎◌, inl, inr, Bool, true, false, not, ◌&&◌, ◌||◌, Option, none, some, List, [], ◌∷◌,
  ◌++◌, ◌==◌, nat_eq, if◌then◌else◌, contains,
}
use Prim.Native.String
use Prim.Native.Char.{Char, code}
use win_os_layer.Processes.Launch.{path_parts, has_code, is_absolute, is_under}

pub data Kind : Type 0 where
  symlink directory other : Kind

-- The answer of os.lstat: a `FileNotFoundError`, a file, or another `OSError`.
pub data Lstat : Type 0 where
  absent lstat_failed : Lstat
  present : Kind → Lstat

pub data PathError : Type 0 where
  path_traversal path_symlink_refused path_outside_sandbox path_invalid path_not_found : PathError
  file_not_found os_error : PathError

-- The answer of `os.open` with O_NOFOLLOW: a descriptor, ELOOP or EPERM, or another error.
pub data Opened : Type 0 where
  descriptor : ℕ → Opened
  link_met open_failed : Opened

pub record System (W : Type 0) : Type 0 where
  pub lstat : W → List String → Lstat
  -- Path(...).resolve(strict=False)
  pub resolve : W → String → List String
  pub is_alpha : Char → Bool
  -- the new world, and whether an `OSError` was raised
  pub make_parents : W → List String → W × Bool
  pub exists : W → List String → Bool
  pub open_nofollow : W → List String → Bool → W × Opened
  -- where the descriptor leads, if the system tells
  pub fd_path : W → ℕ → Option (List String)
  -- os.read, `none` for an `OSError`
  pub read : W → ℕ → ℕ → Option String
  -- os.write: the new world, and whether an `OSError` was raised; the count is not looked at
  pub write : W → ℕ → String → W × Bool
  pub close : W → ℕ → W

-- path.replace("\\", "/")
unfoldable pub slashed : String → String
slashed String.[] = ""
slashed (String.◌∷◌ c s) =
    let rest = slashed s in if nat_eq (code c) 0x5c then String.◌∷◌ "/" rest else String.◌∷◌ c rest

unfoldable pub starts_with : String → String → Bool
starts_with s String.[] = true
starts_with String.[] (String.◌∷◌ c prefix) = false
starts_with (String.◌∷◌ d s) (String.◌∷◌ c prefix) =
    nat_eq (code d) (code c) && starts_with s prefix

unfoldable pub normalize_user_path : String → String ⊎ PathError
normalize_user_path path =
    if path == ""
    then inr path_invalid
    else if starts_with path "\\\\" || starts_with path "//"
    then inr path_traversal
    else if starts_with path "\\\\?\\" || starts_with path "\\??\\"
    then inr path_traversal
    else if contains ".." (path_parts (slashed path))
    then inr path_traversal
    else if has_code 0 path
    then inr path_invalid
    else inl (slashed path)

-- What is left of the components without the empty ones and ".".
unfoldable pub kept_parts : List String → List String
kept_parts [] = []
kept_parts (p ∷ ps) = let rest = kept_parts ps in if p == "" || p == "." then rest else p ∷ rest

-- Path.relative_to
unfoldable pub relative_to : List String → List String → Option (List String)
relative_to path [] = some path
relative_to [] (r ∷ root) = none
relative_to (p ∷ path) (r ∷ root) =
    let rest = relative_to path root in if p == r then rest else none

abbrev pub has_drive : (Char → Bool) → String → Bool
has_drive is_alpha String.[] = false
has_drive is_alpha (String.◌∷◌ c String.[]) = false
has_drive is_alpha (String.◌∷◌ c (String.◌∷◌ d s)) = nat_eq (code d) b':' && is_alpha c

-- The test of one component.
abbrev pub enter : Lstat → Bool → List String → List String ⊎ PathError → List String ⊎ PathError
enter absent true next rest = inl next
enter absent false next rest = inr path_not_found
enter lstat_failed last next rest = inr os_error
enter (present symlink) last next rest = inr path_symlink_refused
enter (present directory) last next rest = rest
enter (present other) true next rest = rest
enter (present other) false next rest = inr path_invalid

abbrev pub is_last : List String → Bool
is_last [] = true
is_last (p ∷ ps) = false

module _ {W : Type 0} (system : System W) where
  unfoldable pub looks_absolute : String → Bool
  looks_absolute path = is_absolute path || has_drive system.is_alpha path

  -- The components below the root.
  unfoldable pub parts_under : W → List String → String → List String ⊎ PathError
  parts_under w root norm =
      let parts = kept_parts (path_parts norm) in
      if looks_absolute norm
      then elim (relative_to (system.resolve w norm) root) [
        | none ↦ inr path_outside_sandbox
        | some rel ↦ inl (kept_parts rel)
      ]
      else if contains ".." parts
      then inr path_traversal
      else inl parts

  -- The loop of `walk_under`.
  unfoldable pub walk : W → List String → List String → List String ⊎ PathError
  walk w current [] = inl current
  walk w current (part ∷ parts) =
      let next = current ++ part ∷ [] in
      enter (system.lstat w next) (is_last parts) next (walk w next parts)

  -- `walk_under`, below a root that is resolved and exists.
  unfoldable pub walk_under : W → List String → String → List String ⊎ PathError
  walk_under w root path = elim (normalize_user_path path) [
    | inr e ↦ inr e
    | inl norm ↦ elim (parts_under w root norm) [ inr e ↦ inr e | inl parts ↦ walk w root parts ]
  ]

  unfoldable pub fd_still_under : W → ℕ → List String → Bool
  fd_still_under w fd root = elim (system.fd_path w fd) [
    | none ↦ false
    | some path ↦ is_under path root
  ]

  -- `os.write` and `os.close`, behind the test of the descriptor.
  abbrev pub write_descriptor : List String → ℕ → W × Bool → W × (List String ⊎ PathError)
  write_descriptor target fd (w, true) = (system.close w fd, inr os_error)
  write_descriptor target fd (w, false) = (system.close w fd, inl target)

  -- From the open descriptor on, in `write_bytes_nofollow`.
  abbrev pub write_opened :
      List String → List String → String → W × Opened → W × (List String ⊎ PathError)
  write_opened root target data_ (w, link_met) = (w, inr path_symlink_refused)
  write_opened root target data_ (w, open_failed) = (w, inr os_error)
  write_opened root target data_ (w, descriptor fd) =
      if fd_still_under w fd root
      then write_descriptor target fd (system.write w fd data_)
      else (system.close w fd, inr path_outside_sandbox)

  -- `is_symlink` of the target, and what follows it.
  abbrev pub write_checked :
      List String → List String → String → W → Lstat → W × (List String ⊎ PathError)
  write_checked root target data_ w lstat_failed = (w, inr os_error)
  write_checked root target data_ w (present symlink) = (w, inr path_symlink_refused)
  write_checked root target data_ w (present directory) =
      write_opened root target data_ (system.open_nofollow w target true)
  write_checked root target data_ w (present other) =
      write_opened root target data_ (system.open_nofollow w target true)
  write_checked root target data_ w absent =
      write_opened root target data_ (system.open_nofollow w target true)

  -- `mkdir` of the parents, and what follows it.
  abbrev pub write_made :
      List String → List String → String → W × Bool → W × (List String ⊎ PathError)
  write_made root target data_ (w, true) = (w, inr os_error)
  write_made root target data_ (w, false) =
      write_checked root target data_ w (system.lstat w target)

  abbrev pub write_target :
      W → List String → String → List String ⊎ PathError → W × (List String ⊎ PathError)
  write_target w root data_ (inr e) = (w, inr e)
  write_target w root data_ (inl target) =
      write_made root target data_ (system.make_parents w target)

  unfoldable pub write_bytes_nofollow :
      W → List String → String → String → W × (List String ⊎ PathError)
  write_bytes_nofollow w root path data_ = write_target w root data_ (walk_under w root path)

  -- `os.read`, behind the test of the descriptor.
  abbrev pub read_content : List String → Option String → (List String × String) ⊎ PathError
  read_content target none = inr os_error
  read_content target (some content) = inl (target, content)

  -- From the open descriptor on, in `read_bytes_nofollow`.
  abbrev pub read_opened :
      List String → List String → ℕ → W × Opened → W × ((List String × String) ⊎ PathError)
  read_opened root target max_bytes (w, link_met) = (w, inr path_symlink_refused)
  read_opened root target max_bytes (w, open_failed) = (w, inr os_error)
  read_opened root target max_bytes (w, descriptor fd) =
      if fd_still_under w fd root
      then (system.close w fd, read_content target (system.read w fd max_bytes))
      else (system.close w fd, inr path_outside_sandbox)

  abbrev pub read_target :
      W → List String → ℕ → List String ⊎ PathError → W × ((List String × String) ⊎ PathError)
  read_target w root max_bytes (inr e) = (w, inr e)
  read_target w root max_bytes (inl target) =
      if not (system.exists w target)
      then (w, inr file_not_found)
      else read_opened root target max_bytes (system.open_nofollow w target false)

  unfoldable pub read_bytes_nofollow :
      W → List String → String → ℕ → W × ((List String × String) ⊎ PathError)
  read_bytes_nofollow w root path max_bytes = read_target w root max_bytes (walk_under w root path)
