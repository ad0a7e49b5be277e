-- ===== src/Auth/Context/Build.antt =====
-- A principal that was just built is active, and holds what its role holds.
use win_os_layer.Common.{
  ℕ, String, ◌≡◌, refl, ◌⊎◌, inl, inr, true, false, not, ◌&&◌, ◌||◌, Option, none, some, List, [],
  ◌∷◌, arith, ◌==◌, eq_iff, if◌then◌else◌, Bool-cases, Option-cases, get_or, contains,
}
use win_os_layer.Common.Dict.{Dict, lookup, lookup-insert_self}
use win_os_layer.Permissions.{
  Permission, Role, viewer, administrator, is_administrator, role_permissions, has_permission,
}
use win_os_layer.Auth.Http.{HttpError, Result, ok, raise}
use win_os_layer.Auth.Registry.{
  SessionRecord, AuthRegistry, is_revoked_fp, is_session_revoked, find_active, issue_session,
  is_revoked,
}
use win_os_layer.Permissions.{operator, automator}
use win_os_layer.Auth.Roles.{Settings, resolve_role}
use win_os_layer.Auth.Roles.Resolution.{resolve_role_iff}
use win_os_layer.Auth.Context.{
  AuthContext, check, anonymous, assert_active, subject_of, context_of, build_auth_context,
}

-- Every session is stored under its own id.
abbrev pub IsKeyed : Dict SessionRecord → Type 0
IsKeyed [] = Unit
IsKeyed ((sid, s) ∷ d) = (s.session_id ≡ sid) × (lookup sid d ≡ none) × IsKeyed d

find_active-lookup :
    (revoked : List String) (fp sid : String) (d : Dict SessionRecord)
    → IsKeyed d
    → find_active revoked fp d ≡ some sid
    → (s : SessionRecord) × (lookup sid d ≡ some s)
      × (s.key_fingerprint ≡ fp)
      × (s.revoked ≡ false)
      × (contains s.key_fingerprint revoked ≡ false)
unfolding lookup
find_active-lookup revoked fp sid [] k h = cc
find_active-lookup revoked fp sid ((j, s) ∷ d) (e, fresh, k) h =
    elim (Bool-cases
      (s.key_fingerprint == fp && (not s.revoked && not (contains s.key_fingerprint revoked)))) [
        | inl yes' ↦ (
          s,
          ground (arith, eq_iff j sid),
          ground (arith, eq_iff s.key_fingerprint fp),
          ground arith,
          ground arith,
        )
        | inr no' ↦
            let (s', found, same, live, clear) =
              find_active-lookup revoked fp sid d k (rw no' at h) in
            (s', ground (arith, eq_iff j sid), same, live, clear)
      ]

issue_session-lookup :
    (r : AuthRegistry) (fp subject : String) (role : Role) (fresh : String) (now : ℕ)
    → IsKeyed r.sessions
    → is_revoked_fp r fp ≡ false
    → let (r', sid) = issue_session r fp subject role fresh now in
      (r'.revoked_fps ≡ r.revoked_fps)
      × (s : SessionRecord) × (lookup sid r'.sessions ≡ some s)
      × (s.key_fingerprint ≡ fp)
      × (s.revoked ≡ false)
issue_session-lookup r fp subject role fresh now k clear =
    elim (Option-cases (find_active r.revoked_fps fp r.sessions)) [
      | inl missing ↦
          unfold issue_session in
          rw (missing, issue_session) (refl, _, lookup-insert_self fresh _ r.sessions, refl, refl)
      | inr (sid, found) ↦
          unfold issue_session in
          rw (found, issue_session)
            (let (s, e, f, live, clear') =
                find_active-lookup r.revoked_fps fp sid r.sessions k found in
              (refl, s, e, f, live))
    ]

assert_active_of_live :
    (r : AuthRegistry) (auth : AuthContext)
    → is_revoked_fp r auth.key_fingerprint ≡ false
    → is_session_revoked r auth.session_id ≡ false
    → assert_active r auth ≡ ok tt
unfolding assert_active
assert_active_of_live r auth h k = ground arith

check_of_role :
    (auth : AuthContext) (p : Permission)
    → auth.permissions ≡ role_permissions auth.role
    → check auth p ≡ has_permission auth.role p
unfolding check has_permission
check_of_role auth p h = rw h (cases auth.role)
  where
    cases :
        (role : Role)
        → (if role_permissions role Permission.admin || is_administrator role
            then true
            else role_permissions role p
              || (if is_administrator role then true else role_permissions role p))
          ≡ (if is_administrator role then true else role_permissions role p)
    cases viewer = unfold role_permissions in ground arith
    cases operator = unfold role_permissions in ground arith
    cases automator = unfold role_permissions in ground arith
    cases administrator = unfold role_permissions in ground arith

module _ (fingerprint : String → String) (r : AuthRegistry) (api_key : String) (role : Role)
    (fresh : String) (now : ℕ) where
  context_of-active :
      IsKeyed r.sessions
      → is_revoked fingerprint r api_key ≡ false
      → let (auth, r') = context_of fingerprint r api_key role fresh now in
        assert_active r' auth ≡ ok tt
  context_of-active k clear =
      let (same, s, e, f, live) =
        issue_session-lookup r (fingerprint api_key) (subject_of fingerprint api_key) role fresh now
          k (unfold is_revoked in clear) in
      let not_revoked : is_revoked_fp r (fingerprint api_key) ≡ false =
        unfold is_revoked in clear in
      let still : is_revoked_fp (context_of fingerprint r api_key role fresh now).1
            (fingerprint api_key)
          ≡ false =
        unfold context_of is_revoked_fp in rw same not_revoked in
      assert_active_of_live (context_of fingerprint r api_key role fresh now).1
        (context_of fingerprint r api_key role fresh now).0 (unfold context_of in still)
        (unfold context_of is_session_revoked is_revoked_fp in
          rw (e, is_session_revoked) (ground (arith, f, live, same, not_revoked)))

-- How a principal was built.
abbrev pub Built :
    (String → String)
    → AuthRegistry
    → Option String
    → Settings
    → String
    → ℕ
    → AuthContext
    → AuthRegistry
    → Type 0
Built fingerprint r api_key s fresh now auth r' =
    ((s.require_auth ≡ false) × (auth ≡ anonymous) × (r' ≡ r))
    ⊎ ((role : Role) × (s.require_auth ≡ true)
        × (resolve_role fingerprint r (get_or "" api_key) s ≡ ok role)
        × (context_of fingerprint r (get_or "" api_key) role fresh now ≡ (auth, r')))

result_cases :
    {A : Type 0} (m : Result A) → ((e : HttpError) × (m ≡ raise e)) ⊎ ((a : A) × (m ≡ ok a))
result_cases (ok a) = inr (a, refl)
result_cases (raise e) = inl (e, refl)

module _ (fingerprint : String → String) (r r' : AuthRegistry) (api_key : Option String)
    (s : Settings) (fresh : String) (now : ℕ) (auth : AuthContext)
    (built : build_auth_context fingerprint r api_key s fresh now ≡ ok (auth, r')) where
  pub build-Built : Built fingerprint r api_key s fresh now auth r'
  build-Built = elim (Bool-cases s.require_auth) [
    | inr off ↦
        inl (
          off,
          unfold build_auth_context in ground arith,
          unfold build_auth_context in ground arith,
        )
    | inl on ↦ elim (Bool-cases (get_or "" api_key == "")) [
      | inl missing ↦ unfold build_auth_context in ground arith
      | inr given ↦ elim (result_cases (resolve_role fingerprint r (get_or "" api_key) s)) [
        | inl (e, failed) ↦ unfold build_auth_context in ground arith
        | inr (role, resolved) ↦ inr (role, on, resolved, unfold build_auth_context in ground arith)
      ]
    ]
  ]

  -- A principal holds exactly the permissions of its role.
  pub check-build_auth_context : (p : Permission) → check auth p ≡ has_permission auth.role p
  check-build_auth_context p = check_of_role auth p (elim build-Built [
    | inl (off, e, f) ↦ rw e refl
    | inr (role, on, resolved, e) ↦ unfold context_of in ground arith
  ])

  -- A principal that was just built passes the check at a side-effect boundary.
  pub build_auth_context-active : IsKeyed r.sessions → assert_active r' auth ≡ ok tt
  build_auth_context-active keyed = elim build-Built [
    | inl (off, e, f) ↦ unfold assert_active in rw e refl
    | inr (role, on, resolved, e) ↦ ground (
      arith,
      context_of-active fingerprint r (get_or "" api_key) role fresh now keyed
          ((resolve_role_iff fingerprint r (get_or "" api_key) s role).0 resolved).1,
    )
  ]
