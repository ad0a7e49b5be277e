-- ===== src/RegistryGuard/Policy.antt =====
-- windows_os_api/os/registry: what reaches the backend, and what comes back.
use win_os_layer.Common.{
  String, ◌≡◌, ◌≢◌, ◌⊎◌, inl, inr, Bool, true, false, Option, none, List, All,
}
use win_os_layer.Common.Dict.{Dict, lookup}
use Prim.Native.Char.{Char}
use win_os_layer.RegistryGuard.{
  RegistryError, forbidden_read_prefixes, segments, joined, comparison_key, as_target,
  starts_with_any, is_forbidden, allowed_prefixes, secret_term_in, secret_name, check_read, Answer,
  values_of, something, Reading, rejected, passed_on, given, Backend,
}

module _ {W V R : Type 0} (backend : Backend W V R) where
  -- A write that reached the backend: the key lies under an allowed prefix and under no forbidden one.
  abbrev pub IsGuarded : String → W → Option String → String → V → W × (R ⊎ RegistryError) → Type 0
  IsGuarded env w path name value (w', inr e) = w' ≡ w
  IsGuarded env w path name value (w', inl r) =
      (ss : List String) × (segments path ≡ inl ss)
      × (is_forbidden (comparison_key ss) ≡ false)
      × (starts_with_any (as_target (comparison_key ss)) (allowed_prefixes env) ≡ true)
      × All (λ p. is_forbidden p ≡ false) (allowed_prefixes env)
      × ((w', r) ≡ backend.registry_write w (joined ss) name value)

module _ {V : Type 0} (is_alnum : Char → Bool) where
  abbrev pub IsFiltered : Dict V → Dict V × List String → Type 0
  IsFiltered vs (kept, withheld) =
      All (λ (e : String × V). secret_term_in is_alnum e.0 ≡ none) kept
      × All (λ n. secret_term_in is_alnum n ≢ none) withheld
      × ((k : String) → secret_term_in is_alnum k ≡ none → lookup k kept ≡ lookup k vs)

module _ {W V R : Type 0} (backend : Backend W V R) (is_alnum : Char → Bool) where
  -- The backend was asked for this key, which may be read, under a name that is none of a secret.
  abbrev pub IsAsked : W → Option String → Option String → Answer V R → Type 0
  IsAsked w path name answer =
      (ss : List String) × (segments path ≡ inl ss)
      × (starts_with_any (as_target (comparison_key ss)) forbidden_read_prefixes ≡ false)
      × (secret_name is_alnum name ≡ none)
      × (backend.registry_read w (joined ss) name ≡ answer)

  abbrev pub IsClean : W → Option String → Option String → Reading V R → Type 0
  IsClean w path name (rejected e) = check_read is_alnum path name ≡ inr e
  IsClean w path name (passed_on r) = IsAsked w path name (something r)
  IsClean w path name (given kept withheld) =
      (vs : Dict V) × IsAsked w path name (values_of vs) × IsFiltered is_alnum vs (kept, withheld)
