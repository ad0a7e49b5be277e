-- ===== src/Auth/Context/Isolation.antt =====
-- Separation of principals, and what revocation and rotation of a key reach.
use win_os_layer.Common.{
  ℕ, String, ◌≡◌, refl, sym, ◌≢◌, inl, inr, true, false, some, List, [], arith, ◌==◌, eq_iff,
  eq_refl, if◌then◌else◌, All, contains-discard,
}
use win_os_layer.Common.Dict.{lookup, erase, lookup-insert_self}
use win_os_layer.Permissions.{Role, is_administrator}
use win_os_layer.Auth.Http.{ok, raise, unauthorized, forbidden}
use win_os_layer.Auth.Registry.{
  AuthRegistry, is_revoked_fp, add, revoke_fp, get_app_scopes_fp, register_overlay_fp,
  overlay_role_fp, copy_bindings, is_revoked, revoke_key, get_app_scopes, overlay_role, rotate_key,
}
use Prim.Native.String
use mathlib.Core.Bool.{false≢true}
use text.Mathlib.TextLemmas.{append_cancel_left, append-eq-nil_iff}
use win_os_layer.Auth.Roles.{Settings, role_key_lists, resolve_role}
use win_os_layer.Auth.Roles.Resolution.{resolve_role_iff, holders, lists_comparable}
use win_os_layer.Auth.Registry.Revocation.{Op, run, Spares, run-revoked, contains-add}
use win_os_layer.Auth.Context.{
  AuthContext, assert_active, ensure_resource_owner, subject_of, context_of, build_auth_context,
}
use win_os_layer.Auth.Context.Build.{build-Built}

-- Different keys have different fingerprints, as collision resistance of SHA-256 gives.
abbrev pub IsInjective : (String → String) → Type 0
IsInjective f = (a b : String) → f a ≡ f b → a ≡ b

eq_false_of_ne : (a b : String) → a ≢ b → (a == b) ≡ false
eq_false_of_ne a b h = ground (arith, eq_iff a b)

subject-ne-empty : (fp : String) → (String.◌++◌ "key:" fp == "") ≡ false
subject-ne-empty fp =
    eq_false_of_ne _ _
      (λ e. false≢true ((eq_iff "key:" "").1 ((append-eq-nil_iff {p = "key:"}).0 e).0))

module _ (fingerprint : String → String) (r r' : AuthRegistry) (key other : String) (s : Settings)
    (fresh : String) (now : ℕ) (auth : AuthContext) where
  -- A principal that is active and no administrator is refused what the principal of another
  -- key owns.
  pub cross_owner_denied :
      (later : AuthRegistry)
      → IsInjective fingerprint
      → s.require_auth ≡ true
      → build_auth_context fingerprint r (some key) s fresh now ≡ ok (auth, r')
      → is_administrator auth.role ≡ false
      → key ≢ other
      → assert_active later auth ≡ ok tt
      → ensure_resource_owner later auth (subject_of fingerprint other)
        ≡ raise (forbidden "Resource owned by another principal")
  cross_owner_denied later inj on built plain differ active =
      elim (build-Built fingerprint r r' (some key) s fresh now auth built) [
        | inl (off, e, f) ↦ cc
        | inr (role, on', resolved, e) ↦
            let subject : auth.subject ≡ subject_of fingerprint key =
              unfold context_of in ground arith in
            let unequal : (subject_of fingerprint other == subject_of fingerprint key) ≡ false =
              eq_false_of_ne _ _
                (λ same. differ (sym (inj other key (append_cancel_left "key:" _ _ same)))) in
            unfold ensure_resource_owner in
            rw (active, plain, subject-ne-empty, subject, unequal) refl
      ]

-- The registry some requests after the key was revoked.
abbrev pub after_revocation : (String → String) → String → List Op → AuthRegistry → AuthRegistry
after_revocation fingerprint key ops r = run fingerprint ops (revoke_key fingerprint r key).0

module _ (fingerprint : String → String) (key : String) (ops : List Op) (r : AuthRegistry)
    (spared : All (Spares fingerprint (fingerprint key)) ops) where
  still_revoked : is_revoked_fp (after_revocation fingerprint key ops r) (fingerprint key) ≡ true
  still_revoked =
      run-revoked fingerprint (fingerprint key) ops (revoke_key fingerprint r key).0 spared (
        unfold revoke_key is_revoked_fp in
        ground (
          arith,
          contains-add (fingerprint key) (fingerprint key) r.revoked_fps,
          eq_refl (fingerprint key),
        ))

  -- A revoked key is answered 401 whatever the settings list, under any requests that do not
  -- register it anew.
  pub resolve_role-revoked :
      (s : Settings)
      → resolve_role fingerprint (after_revocation fingerprint key ops r) key s
        ≡ raise (unauthorized (if key == "" then "Invalid API key" else "API key revoked"))
  resolve_role-revoked s =
      let revoked : is_revoked fingerprint (after_revocation fingerprint key ops r) key ≡ true =
        unfold is_revoked in still_revoked in
      unfold resolve_role in ground (arith, revoked)

  -- A principal that was built before its key was revoked is stopped at the next boundary.
  pub assert_active-revoked :
      (auth : AuthContext)
      → auth.key_fingerprint ≡ fingerprint key
      → auth.key_fingerprint ≢ ""
      → assert_active (after_revocation fingerprint key ops r) auth
        ≡ raise (unauthorized "API key revoked")
  assert_active-revoked auth e h =
      unfold assert_active in ground (arith, still_revoked, e, eq_iff auth.key_fingerprint "")

-- The registry that a rotation leaves, from the fingerprints of the two keys.
abbrev rotated_registry : AuthRegistry → String → String → Role → AuthRegistry
rotated_registry r old_fp new_fp role =
    copy_bindings (register_overlay_fp (revoke_fp r old_fp).0 new_fp role) old_fp new_fp

module _ (r : AuthRegistry) (old_fp new_fp : String) (role : Role)
    (differ : (old_fp == new_fp) ≡ false) where
  old_revoked : is_revoked_fp (rotated_registry r old_fp new_fp role) old_fp ≡ true
  unfolding is_revoked_fp copy_bindings register_overlay_fp revoke_fp
  old_revoked = ground (
    arith,
    eq_iff old_fp new_fp,
    eq_iff new_fp old_fp,
    eq_refl old_fp,
    contains-discard new_fp old_fp (add old_fp r.revoked_fps),
    contains-add old_fp old_fp r.revoked_fps,
  )

  new_clear : is_revoked_fp (rotated_registry r old_fp new_fp role) new_fp ≡ false
  unfolding is_revoked_fp copy_bindings register_overlay_fp revoke_fp
  new_clear =
      ground (arith, eq_refl new_fp, contains-discard new_fp new_fp (add old_fp r.revoked_fps))

  new_role : overlay_role_fp (rotated_registry r old_fp new_fp role) new_fp ≡ some role
  unfolding overlay_role_fp copy_bindings register_overlay_fp revoke_fp
  new_role = lookup-insert_self new_fp role (erase old_fp r.overlay_roles)

  new_scopes :
      (scopes : List String)
      → lookup old_fp r.app_scopes ≡ some scopes
      → get_app_scopes_fp (rotated_registry r old_fp new_fp role) new_fp ≡ scopes
  unfolding get_app_scopes_fp copy_bindings register_overlay_fp revoke_fp lookup
  new_scopes scopes e = rw e (rw lookup-insert_self refl)

module _ (fingerprint : String → String) (r : AuthRegistry) (old new : String) (role : Role) where
  rotate_key-registry :
      (r' : AuthRegistry) (ended : ℕ)
      → rotate_key fingerprint r old new role ≡ ok (r', ended)
      → (r' ≡ rotated_registry r (fingerprint old) (fingerprint new) role)
        × ((new == "") ≡ false)
        × ((new == old) ≡ false)
  rotate_key-registry r' ended h = unfold rotate_key in (ground arith, ground arith, ground arith)

  -- After a rotation that succeeds, of a key that is not empty and where fingerprints do not collide,
  -- the old key is refused; the new one, if no list holds it and it can be compared with the listed
  -- keys, has the role that was given to the rotation, and the scopes that were set for the old one, if
  -- any were.
  pub rotate_key_effect :
      (r' : AuthRegistry) (ended : ℕ) (s : Settings)
      → IsInjective fingerprint
      → rotate_key fingerprint r old new role ≡ ok (r', ended)
      → old ≢ ""
      → holders new (role_key_lists s) ≡ []
      → lists_comparable new (role_key_lists s) ≡ true
      → (resolve_role fingerprint r' old s ≡ raise (unauthorized "API key revoked"))
        × (resolve_role fingerprint r' new s ≡ ok role)
        × ((scopes : List String)
            → lookup (fingerprint old) r.app_scopes ≡ some scopes
            → get_app_scopes fingerprint r' new ≡ scopes)
  rotate_key_effect r' ended s inj rotated given unlisted comparable =
      let (same, filled, moved) = rotate_key-registry r' ended rotated in
      let differ : (fingerprint old == fingerprint new) ≡ false =
        eq_false_of_ne (fingerprint old) (fingerprint new)
          (λ (e : fingerprint old ≡ fingerprint new).
            ground (arith, inj old new e, eq_iff new old)) in
      let gone : is_revoked fingerprint r' old ≡ true =
        unfold is_revoked in
        rw same (old_revoked r (fingerprint old) (fingerprint new) role differ) in
      let clear : is_revoked fingerprint r' new ≡ false =
        unfold is_revoked in
        rw same (new_clear r (fingerprint old) (fingerprint new) role differ) in
      let given_role : overlay_role fingerprint r' new ≡ some role =
        unfold overlay_role in
        rw same (new_role r (fingerprint old) (fingerprint new) role differ) in
      (
        unfold resolve_role in ground (arith, gone, eq_iff old ""),
        (resolve_role_iff fingerprint r' new s role).1
            (filled, clear, comparable, inr (unlisted, given_role)),
        λ scopes e.
            unfold get_app_scopes in
            rw same (new_scopes r (fingerprint old) (fingerprint new) role differ scopes e),
      )
