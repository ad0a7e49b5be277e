-- ===== src/RegistryGuard/Tests.antt =====
-- Runs of the guard of the registry.
use win_os_layer.Common.{ℕ, String, ◌≡◌, refl, inr, Bool, not, none, some, List, [], ◌∷◌, nat_eq}
use win_os_layer.Common.Dict.{lookup}
use win_os_layer.Common.Text.{strip}
use Prim.Native.Char.{Char, code}
use win_os_layer.FileSystem.{starts_with}
use win_os_layer.RegistryGuard.{
  registry_path_not_allowed, registry_path_forbidden, segments, joined, comparison_key, as_target,
  starts_with_any, extra_prefixes, comma_parts, allowed_prefixes, check_write, check, has_infix,
  secret_term_in, check_read_key, check_read, filter_values, values_of, given, Backend, read, write,
  ends_with_separator,
}
use win_os_layer.RegistryGuard.{non_empty, ends_with_separator, flattened, first_term}
use win_os_layer.Common.Text.{upper}
use win_os_layer.Processes.Launch.{path_parts}
use win_os_layer.FileSystem.{slashed}

-- A registry of the paths that were written.
abbrev paths : Backend (List String) ℕ ℕ
paths = record {
  registry_read = λ w path name. values_of (("Proxy-Password", 1) ∷ ("Colour", 2) ∷ []);
  registry_write = λ w path name value. (path ∷ w, 0);
}

-- Letters and digits.
abbrev is_letter : Char → Bool
is_letter c = not (nat_eq (code c) b'-')

alias_forbidden :
    write paths "HKLM" [] (some "hkey_local_machine/System\\X") "n" 1
    ≡ ([], inr registry_path_forbidden)
unfolding write check segments non_empty path_parts slashed strip check_write comparison_key joined
    upper lookup starts_with_any starts_with as_target ends_with_separator
alias_forbidden = refl

neighbour_refused :
    write paths "" [] (some "HKCU\\Software\\WinOsLayerX") "n" 1
    ≡ ([], inr registry_path_not_allowed)
unfolding write check segments non_empty path_parts slashed strip check_write comparison_key joined
    upper lookup starts_with_any starts_with as_target ends_with_separator allowed_prefixes
    extra_prefixes comma_parts
neighbour_refused = refl

password_withheld :
    read paths is_letter [] (some "HKCU\\Software\\App") none
    ≡ given (("Colour", 2) ∷ []) ("Proxy-Password" ∷ [])
unfolding read check_read check_read_key segments non_empty path_parts slashed strip comparison_key
    joined upper lookup starts_with_any starts_with as_target ends_with_separator filter_values
    secret_term_in flattened first_term has_infix
password_withheld = refl
