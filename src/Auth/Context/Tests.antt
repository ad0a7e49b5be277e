-- ===== src/Auth/Context/Tests.antt =====
-- Runs of authentication, with the identity as the fingerprint.
use win_os_layer.Common.{
  if◌then◌else◌, none, String, ◌≡◌, refl, sym, ◌∙◌, ◌≢◌, ◌↔◌, true, false, some, List, [], ◌∷◌,
  arith, ◌==◌, eq_iff, All, contains,
}
use win_os_layer.Common.Dict.{lookup}
use win_os_layer.Permissions.{viewer, automator, administrator, is_administrator}
use win_os_layer.Auth.Http.{ok, raise, unauthorized, forbidden}
use win_os_layer.Auth.Registry.{
  SessionRecord, AuthRegistry, empty, revoke_fp, is_session_revoked, register_overlay_fp,
  copy_bindings, is_revoked, revoke_key, get_app_scopes, overlay_role, rotate_key,
}
use win_os_layer.Auth.Roles.{Settings, match_key, matched_roles, role_key_lists, resolve_role}
use win_os_layer.Auth.Roles.Resolution.{
  match_key-eq-contains, resolve_role_iff, all_comparable, lists_comparable, holders, Determines,
}
use win_os_layer.Auth.Registry.Revocation.{
  Op, issue, register, run, Spares, Avoids, revoke_key-ends_sessions,
}
use win_os_layer.Auth.Context.{
  AuthContext, assert_active, ensure_resource_owner, subject_of, context_of, build_auth_context,
}
use win_os_layer.Auth.Context.Build.{build_auth_context-active}
use win_os_layer.Auth.Context.Isolation.{
  IsInjective, cross_owner_denied, resolve_role-revoked, assert_active-revoked, after_revocation,
  rotate_key_effect,
}

abbrev id : String → String
id s = s

abbrev settings : Settings
settings = record {
  require_auth = true;
  admin_api_keys = "root" ∷ [];
  api_keys = "auto" ∷ "both" ∷ [];
  operator_api_keys = "both" ∷ [];
  viewer_api_keys = [];
}

key_of_one_list : resolve_role id empty "root" settings ≡ ok administrator
unfolding resolve_role matched_roles match_key lookup
key_of_one_list = refl

key_of_two_lists : resolve_role id empty "both" settings ≡ raise (unauthorized "Invalid API key")
unfolding resolve_role matched_roles match_key lookup
key_of_two_lists = refl

resolve_role_iff_example : (resolve_role id empty "root" settings ≡ ok administrator) ↔ (
    (("root" == "") ≡ false)
    × (is_revoked id empty "root" ≡ false)
    × (lists_comparable "root" (role_key_lists settings) ≡ true)
    × Determines
        (holders "root" (role_key_lists settings))
        (overlay_role id empty "root")
        administrator)
resolve_role_iff_example = resolve_role_iff id empty "root" settings administrator

match_key-eq-contains_example :
    match_key "a" ("b" ∷ "a" ∷ [])
    ≡ (if all_comparable "a" ("b" ∷ "a" ∷ []) then some (contains "a" ("b" ∷ "a" ∷ [])) else none)
match_key-eq-contains_example = match_key-eq-contains "a" ("b" ∷ "a" ∷ []) refl

abbrev built : AuthContext × AuthRegistry
built = context_of id empty "auto" automator "s1" 5

built_from_key : build_auth_context id empty (some "auto") settings "s1" 5 ≡ ok built
unfolding build_auth_context resolve_role matched_roles match_key lookup
built_from_key = refl

id-IsInjective : IsInjective id
id-IsInjective a b e = e

built_plain : is_administrator built.0.role ≡ false
unfolding context_of
built_plain = refl

auto-ne-other : ◌≢◌ {A = String} "auto" "other"
auto-ne-other = ground (arith, eq_iff "auto" "other")

cross_owner_denied_example :
    ensure_resource_owner built.1 built.0 (subject_of id "other")
    ≡ raise (forbidden "Resource owned by another principal")
cross_owner_denied_example =
    cross_owner_denied id empty built.1 "auto" "other" settings "s1" 5 built.0 built.1
      id-IsInjective refl built_from_key built_plain auto-ne-other
      (build_auth_context-active id empty built.1 (some "auto") settings "s1" 5 built.0
        built_from_key tt)

abbrev later_ops : List Op
later_ops = register "other" viewer ∷ issue "x" "x" viewer "s2" 9 ∷ []

later-Spares : All (Spares id "auto") later_ops
later-Spares = (refl, (tt, tt))

later-Avoids : All (Avoids id "s1") later_ops
later-Avoids = (tt, (refl, tt))

resolve_role-revoked_example :
    resolve_role id (after_revocation id "auto" later_ops empty) "auto" settings
    ≡ raise (unauthorized "API key revoked")
resolve_role-revoked_example = resolve_role-revoked id "auto" later_ops empty later-Spares settings

built_fingerprint : built.0.key_fingerprint ≡ "auto"
unfolding context_of
built_fingerprint = refl

auto-ne-empty : ◌≢◌ {A = String} "auto" ""
auto-ne-empty = ground (arith, eq_iff "auto" "")

built_fingerprint-ne-empty : built.0.key_fingerprint ≢ ""
built_fingerprint-ne-empty e = auto-ne-empty (sym built_fingerprint ∙ e)

assert_active-revoked_example :
    assert_active (after_revocation id "auto" later_ops built.1) built.0
    ≡ raise (unauthorized "API key revoked")
assert_active-revoked_example =
    assert_active-revoked id "auto" later_ops built.1 later-Spares built.0 built_fingerprint
      built_fingerprint-ne-empty

abbrev stored : SessionRecord
stored = record {
  session_id = "s1";
  key_fingerprint = "auto";
  subject = "key:auto";
  role = automator;
  created_at = 5;
  revoked = false;
}

abbrev one_session : AuthRegistry
one_session = record empty { sessions = ("s1", stored) ∷ [] }

stored_found : lookup "s1" one_session.sessions ≡ some stored
unfolding lookup
stored_found = refl

revoke_key-ends_sessions_example :
    is_session_revoked (run id later_ops (revoke_key id one_session "auto").0) "s1" ≡ true
revoke_key-ends_sessions_example =
    revoke_key-ends_sessions id "auto" "s1" stored later_ops one_session stored_found refl
      later-Avoids

abbrev rotated : AuthRegistry
rotated =
    copy_bindings (register_overlay_fp (revoke_fp one_session "auto").0 "fresh" viewer) "auto"
      "fresh"

rotation : rotate_key id one_session "auto" "fresh" viewer ≡ ok (rotated, 1)
unfolding rotate_key
rotation = refl

rotate_key_effect_example :
    (resolve_role id rotated "auto" settings ≡ raise (unauthorized "API key revoked"))
    × (resolve_role id rotated "fresh" settings ≡ ok viewer)
    × ((scopes : List String)
        → lookup "auto" one_session.app_scopes ≡ some scopes
        → get_app_scopes id rotated "fresh" ≡ scopes)
rotate_key_effect_example =
    rotate_key_effect id one_session "auto" "fresh" viewer rotated 1 settings id-IsInjective
      rotation auto-ne-empty refl refl
