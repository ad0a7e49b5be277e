-- ===== src/Auth/Roles.antt =====
-- `resolve_role` of windows_os_api/core/security/auth.py.
pub mod Resolution
use win_os_layer.Common.{
  String, Bool, true, false, not, ◌&&◌, ◌||◌, Option, none, some, List, [], ◌∷◌, ◌==◌, nat_eq,
  if◌then◌else◌,
}
use win_os_layer.Permissions.{Role, viewer, administrator}
use win_os_layer.Auth.Http.{Result, ok, raise, unauthorized, server_error}
use win_os_layer.Auth.Registry.{AuthRegistry, is_revoked, overlay_role}
use win_os_layer.Common.Text.{text_length, is_ascii}
use win_os_layer.Permissions.{operator, automator}

-- The fields of `Settings` that authentication reads.
pub record Settings : Type 0 where
  pub require_auth : Bool
  pub admin_api_keys : List String
  pub api_keys : List String
  pub operator_api_keys : List String
  pub viewer_api_keys : List String

-- The loop of `_match_key`: every candidate of equal length is compared. `secrets.compare_digest` takes
-- ASCII texts; `none` is its `TypeError`.
abbrev pub match_loop : String → List String → Bool → Option Bool
match_loop provided [] found = some found
match_loop provided (candidate ∷ candidates) found =
    let skipped = match_loop provided candidates found in
    let matched = match_loop provided candidates true in
    if candidate == "" || not (nat_eq (text_length provided) (text_length candidate))
    then skipped
    else if not (is_ascii provided && is_ascii candidate)
    then none
    else if provided == candidate
    then matched
    else skipped

unfoldable pub match_key : String → List String → Option Bool
match_key provided candidates =
    if provided == "" then some false else match_loop provided candidates false

-- `_role_key_lists`
abbrev pub role_key_lists : Settings → List (Role × List String)
role_key_lists s =
    (administrator, s.admin_api_keys)
    ∷ (automator, s.api_keys)
    ∷ (operator, s.operator_api_keys)
    ∷ (viewer, s.viewer_api_keys)
    ∷ []

-- The answer for one list, and for those behind it.
abbrev pub matched_here : Role → Option Bool → Option (List Role) → Option (List Role)
matched_here role none rest = none
matched_here role (some found) none = none
matched_here role (some found) (some roles) = some (if found then role ∷ roles else roles)

-- The loop of `resolve_role`, `none` for a `TypeError`.
unfoldable pub matched_roles : String → List (Role × List String) → Option (List Role)
matched_roles api_key [] = some []
matched_roles api_key ((role, keys) ∷ lists) =
    matched_here role (match_key api_key keys) (matched_roles api_key lists)

abbrev pub any_here : Option Bool → Option Bool → Option Bool
any_here none rest = none
any_here (some true) rest = some true
any_here (some false) rest = rest

abbrev pub any_match : String → List (Role × List String) → Option Bool
any_match api_key [] = some false
any_match api_key ((role, keys) ∷ lists) =
    any_here (match_key api_key keys) (any_match api_key lists)

unfoldable pub key_in_settings : String → Settings → Option Bool
key_in_settings api_key s = any_match api_key (role_key_lists s)

-- The branches of `resolve_role` on the number of matches.
unfoldable pub choose_role : List Role → Option Role → Result Role
choose_role [] none = raise (unauthorized "Invalid API key")
choose_role [] (some overlay) = ok overlay
choose_role (role ∷ []) overlay = ok role
choose_role (role ∷ other ∷ more) overlay = raise (unauthorized "Invalid API key")

module _ (fingerprint : String → String) where
  unfoldable pub resolve_role : AuthRegistry → String → Settings → Result Role
  unfolding is_revoked overlay_role choose_role
  resolve_role r api_key s =
      if api_key == ""
      then raise (unauthorized "Invalid API key")
      else if is_revoked fingerprint r api_key
      then raise (unauthorized "API key revoked")
      else elim (matched_roles api_key (role_key_lists s)) [
        | none ↦ raise server_error
        | some roles ↦ choose_role roles (overlay_role fingerprint r api_key)
      ]
