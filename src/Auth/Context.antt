-- ===== src/Auth/Context.antt =====
-- Principals of windows_os_api/core/security/auth.py: building one from a key, and the checks at
-- a side-effect boundary.
pub mod Build
pub mod Isolation
mod Tests
use win_os_layer.Common.{
  ℕ, String, Bool, true, false, not, ◌&&◌, ◌||◌, Option, List, [], ◌∷◌, ◌==◌, leb, if◌then◌else◌,
  get_or, contains,
}
use win_os_layer.Permissions.{
  Permission, Role, viewer, is_administrator, PermissionSet, role_permissions, has_permission,
}
use win_os_layer.Auth.Http.{Result, ok, raise, unauthorized, forbidden, ◌>>=◌, ◌>>◌}
use win_os_layer.Auth.Registry.{
  AuthRegistry, is_revoked_fp, is_session_revoked, issue_session, get_app_scopes_fp, get_app_scopes,
  get_user_id,
}
use Prim.Native.String
use win_os_layer.Common.Text.{text_length, text_take}
use win_os_layer.Auth.Roles.{Settings, resolve_role}

pub record AuthContext : Type 0 where
  pub api_key : String
  pub role : Role
  pub subject : String
  pub permissions : PermissionSet
  pub key_fingerprint : String
  pub session_id : String
  pub user_id : String
  pub app_scopes : List String

-- `AuthContext.check`
unfoldable pub check : AuthContext → Permission → Bool
check auth permission =
    if auth.permissions Permission.admin || is_administrator auth.role
    then true
    else auth.permissions permission || has_permission auth.role permission

-- The principal when `require_auth` is off.
abbrev pub anonymous : AuthContext
anonymous = record {
  api_key = "anonymous";
  role = viewer;
  subject = "anonymous";
  permissions = role_permissions viewer;
  key_fingerprint = "";
  session_id = "";
  user_id = "anonymous";
  app_scopes = [];
}

-- Display redaction only.
unfoldable pub redacted : String → String
redacted api_key =
    if leb 8 (text_length api_key) then String.◌++◌ (text_take 8 api_key) "..." else "***"

-- `a or b` on texts
abbrev pub or_text : String → String → String
or_text a b = if a == "" then b else a

unfoldable pub assert_active : AuthRegistry → AuthContext → Result (Unit {0})
assert_active r auth =
    if auth.key_fingerprint == "" && auth.subject == "anonymous"
    then ok tt
    else if not (auth.key_fingerprint == "") && is_revoked_fp r auth.key_fingerprint
    then raise (unauthorized "API key revoked")
    else if not (auth.session_id == "") && is_session_revoked r auth.session_id
    then raise (unauthorized "Session revoked")
    else ok tt

abbrev pub is_empty : List String → Bool
is_empty [] = true
is_empty (x ∷ xs) = false

unfoldable pub ensure_app_access : AuthRegistry → AuthContext → String → Result (Unit {0})
ensure_app_access r auth app_id =
    let scopes =
      if not (auth.key_fingerprint == "")
      then get_app_scopes_fp r auth.key_fingerprint
      else auth.app_scopes in
    assert_active r auth
    >> (if is_administrator auth.role
        then ok tt
        else if is_empty scopes
        then ok tt
        else if contains app_id scopes
        then ok tt
        else raise (forbidden (String.◌++◌ "App scope denied: " app_id)))

unfoldable pub ensure_resource_owner : AuthRegistry → AuthContext → String → Result (Unit {0})
ensure_resource_owner r auth owner_subject =
    assert_active r auth
    >> (if is_administrator auth.role
        then ok tt
        else if owner_subject == ""
        then ok tt
        else if owner_subject == auth.subject
        then ok tt
        else raise (forbidden "Resource owned by another principal"))

-- `require_permission`: the dependency, after `authenticate`.
unfoldable pub require_permission : AuthRegistry → Permission → AuthContext → Result AuthContext
require_permission r permission auth = do
  assert_active r auth
  if check auth permission then ok auth else raise (forbidden "Permission denied")

module _ (fingerprint : String → String) where
  -- `f"key:{fp}"`
  abbrev pub subject_of : String → String
  subject_of api_key = String.◌++◌ "key:" (fingerprint api_key)

  -- The end of `build_auth_context`, once the role is resolved; `fresh` and `now` are for a new
  -- session.
  unfoldable pub context_of : AuthRegistry → String → Role → String → ℕ → AuthContext × AuthRegistry
  context_of r api_key role fresh now =
      let fp = fingerprint api_key in
      let subject = subject_of api_key in
      let (r', session_id) = issue_session r fp subject role fresh now in
      (
        record {
          api_key = redacted api_key;
          role = role;
          subject = subject;
          permissions = role_permissions role;
          key_fingerprint = fp;
          session_id = session_id;
          user_id = or_text (get_user_id fingerprint r api_key) subject;
          app_scopes = get_app_scopes fingerprint r api_key;
        },
        r',
      )

  unfoldable pub build_auth_context :
      AuthRegistry → Option String → Settings → String → ℕ → Result (AuthContext × AuthRegistry)
  build_auth_context r api_key s fresh now =
      let key = get_or "" api_key in
      if not s.require_auth
      then ok (anonymous, r)
      else if key == ""
      then raise (unauthorized "Missing X-API-Key header")
      else do role ← resolve_role fingerprint r key s; ok (context_of r key role fresh now)
