-- ===== src/RegistryGuard.antt =====
-- windows_os_api/os/registry: the allowlist of writes, the denylist of reads and the two entry points.
-- The world `W` is the registry behind the backend; the environment variable is an argument.
pub mod Policy
mod Tests
use win_os_layer.Common.{
  String, ◌⊎◌, inl, inr, Bool, false, not, ◌||◌, Option, none, some, List, [], ◌∷◌, ◌++◌, map, ◌==◌,
  nat_eq, if◌then◌else◌, get_or, contains,
}
use win_os_layer.Common.Dict.{Dict, lookup}
use win_os_layer.Common.Text.{strip}
use Prim.Native.String
use Prim.Native.Char.{Char, code}
use win_os_layer.Common.Text.{upper}
use win_os_layer.Processes.Launch.{path_parts}
use win_os_layer.FileSystem.{slashed, starts_with}

pub data RegistryError : Type 0 where
  registry_path_not_allowed registry_path_forbidden registry_path_invalid : RegistryError
  registry_read_forbidden registry_value_forbidden : RegistryError

abbrev pub default_prefixes : List String
default_prefixes = "HKCU\\SOFTWARE\\WINOSLAYER\\" ∷ []

abbrev pub forbidden_prefixes : List String
forbidden_prefixes = "HKLM\\SYSTEM\\" ∷ "HKLM\\SECURITY\\" ∷ "HKLM\\SAM\\" ∷ []

abbrev pub hive_aliases : Dict String
hive_aliases =
    ("HKEY_LOCAL_MACHINE", "HKLM")
    ∷ ("HKEY_CURRENT_USER", "HKCU")
    ∷ ("HKEY_CLASSES_ROOT", "HKCR")
    ∷ ("HKEY_USERS", "HKU")
    ∷ ("HKEY_CURRENT_CONFIG", "HKCC")
    ∷ []

abbrev pub forbidden_read_prefixes : List String
forbidden_read_prefixes =
    forbidden_prefixes
    ++ "HKLM\\SOFTWARE\\MICROSOFT\\WINDOWS NT\\CURRENTVERSION\\WINLOGON\\" ∷ "HKU\\" ∷ []

abbrev pub secret_value_terms : List String
secret_value_terms =
    "PASSWORD" ∷ "PASSWD" ∷ "SECRET" ∷ "CREDENTIAL" ∷ "PRIVATEKEY" ∷ "PRIVKEY" ∷ "APIKEY" ∷ "TOKEN"
    ∷ "PRODUCTID" ∷ []

unfoldable pub non_empty : List String → List String
non_empty [] = []
non_empty (s ∷ ss) = let rest = non_empty ss in if s == "" then rest else s ∷ rest

-- `_segments`; both separators split, since one is replaced by the other first. `none` is a path that
-- is no text.
unfoldable pub segments : Option String → List String ⊎ RegistryError
segments none = inr registry_path_invalid
segments (some path) =
    let parts = non_empty (path_parts (slashed (strip path))) in
    if contains ".." parts || contains "." parts
    then inr registry_path_invalid
    else elim parts [ [] ↦ inr registry_path_invalid | s ∷ ss ↦ inl (s ∷ ss) ]

-- "\\".join
unfoldable pub joined : List String → String
joined [] = ""
joined (s ∷ []) = s
joined (s ∷ t ∷ ss) = String.◌++◌ s (String.◌++◌ "\\" (joined (t ∷ ss)))

abbrev pub canonical_hive : List String → List String
canonical_hive [] = []
canonical_hive (hive ∷ ss) = get_or (upper hive) (lookup (upper hive) hive_aliases) ∷ map upper ss

-- `comparison_key`, of segments
unfoldable pub comparison_key : List String → String
comparison_key ss = joined (canonical_hive ss)

unfoldable pub ends_with_separator : String → Bool
ends_with_separator String.[] = false
ends_with_separator (String.◌∷◌ c String.[]) = nat_eq (code c) 0x5c
ends_with_separator (String.◌∷◌ c (String.◌∷◌ d s)) = ends_with_separator (String.◌∷◌ d s)

-- The key with the separator at its end.
unfoldable pub as_target : String → String
as_target key = if ends_with_separator key then key else String.◌++◌ key "\\"

unfoldable pub starts_with_any : String → List String → Bool
starts_with_any target [] = false
starts_with_any target (p ∷ ps) = starts_with target p || starts_with_any target ps

abbrev pub is_forbidden : String → Bool
is_forbidden key = starts_with_any (as_target key) forbidden_prefixes

-- The loop of `allowed_prefixes`, over the parts of the variable.
unfoldable pub extra_prefixes : List String → List String
extra_prefixes [] = []
extra_prefixes (part ∷ parts) =
    let rest = extra_prefixes parts in
    elim (segments (some part)) [
      | inr e ↦ rest
      | inl ss ↦
          if is_forbidden (as_target (comparison_key ss))
          then rest
          else as_target (comparison_key ss) ∷ rest
    ]

-- s.split(",")
abbrev pub onto_head : Char → List String → List String
onto_head c [] = String.◌∷◌ c "" ∷ []
onto_head c (s ∷ ss) = String.◌∷◌ c s ∷ ss

unfoldable pub comma_parts : String → List String
comma_parts String.[] = "" ∷ []
comma_parts (String.◌∷◌ c s) =
    let rest = comma_parts s in if nat_eq (code c) b',' then "" ∷ rest else onto_head c rest

unfoldable pub allowed_prefixes : String → List String
allowed_prefixes env = default_prefixes ++ extra_prefixes (comma_parts env)

-- `check`, of segments
unfoldable pub check_write : String → List String → String ⊎ RegistryError
check_write env ss =
    if is_forbidden (comparison_key ss)
    then inr registry_path_forbidden
    else if not (starts_with_any (as_target (comparison_key ss)) (allowed_prefixes env))
    then inr registry_path_not_allowed
    else inl (joined ss)

unfoldable pub check : String → Option String → String ⊎ RegistryError
check env path = elim (segments path) [ inr e ↦ inr e | inl ss ↦ check_write env ss ]

unfoldable pub has_infix : String → String → Bool
has_infix String.[] term = starts_with "" term
has_infix (String.◌∷◌ c s) term = starts_with (String.◌∷◌ c s) term || has_infix s term

module _ (is_alnum : Char → Bool) where
  unfoldable pub flattened : String → String
  flattened String.[] = ""
  flattened (String.◌∷◌ c s) =
      let rest = flattened s in if is_alnum c then String.◌∷◌ c rest else rest

  unfoldable pub first_term : String → List String → Option String
  first_term flat [] = none
  first_term flat (t ∷ ts) =
      let rest = first_term flat ts in if has_infix flat t then some t else rest

  unfoldable pub secret_term_in : String → Option String
  secret_term_in name = first_term (flattened (upper name)) secret_value_terms

  abbrev pub secret_name : Option String → Option String
  secret_name none = none
  secret_name (some name) = secret_term_in name

  unfoldable pub check_read_key : List String → Option String → String ⊎ RegistryError
  check_read_key ss name =
      if starts_with_any (as_target (comparison_key ss)) forbidden_read_prefixes
      then inr registry_read_forbidden
      else elim (secret_name name) [
        | some term ↦ inr registry_value_forbidden
        | none ↦ inl (joined ss)
      ]

  unfoldable pub check_read : Option String → Option String → String ⊎ RegistryError
  check_read path name = elim (segments path) [ inr e ↦ inr e | inl ss ↦ check_read_key ss name ]

  unfoldable pub filter_values {ℓ} : {V : Type ℓ} → Dict V → Dict V × List String
  filter_values [] = ([], [])
  filter_values ((name, v) ∷ values) =
      let (kept, withheld) = filter_values values in
      elim (secret_term_in name) [
        | some term ↦ (kept, name ∷ withheld)
        | none ↦ ((name, v) ∷ kept, withheld)
      ]

-- What the backend answers to a read: the values of a key, or anything else.
pub data Answer (V R : Type 0) : Type 0 where
  values_of : Dict V → Answer V R
  something : R → Answer V R

-- What the caller gets; `withheld` is not sorted here.
pub data Reading (V R : Type 0) : Type 0 where
  rejected : RegistryError → Reading V R
  passed_on : R → Reading V R
  given : Dict V → List String → Reading V R

pub record Backend (W V R : Type 0) : Type 0 where
  pub registry_read : W → String → Option String → Answer V R
  pub registry_write : W → String → String → V → W × R

module _ {W V R : Type 0} (backend : Backend W V R) where
  abbrev pub filter_answer : (Char → Bool) → Answer V R → Reading V R
  filter_answer is_alnum (something r) = passed_on r
  filter_answer is_alnum (values_of vs) =
      let (kept, withheld) = filter_values is_alnum vs in given kept withheld

  unfoldable pub read : (Char → Bool) → W → Option String → Option String → Reading V R
  read is_alnum w path name = elim (check_read is_alnum path name) [
    | inr e ↦ rejected e
    | inl canonical ↦ filter_answer is_alnum (backend.registry_read w canonical name)
  ]

  unfoldable pub write : String → W → Option String → String → V → W × (R ⊎ RegistryError)
  write env w path name value = elim (check env path) [
    | inr e ↦ (w, inr e)
    | inl canonical ↦ let (w', r) = backend.registry_write w canonical name value in (w', inl r)
  ]
