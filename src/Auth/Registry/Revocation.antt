-- ===== src/Auth/Registry/Revocation.antt =====
-- What stays revoked, whatever is asked of the registry afterwards.
use win_os_layer.Common.{
  ℕ, String, ◌≡◌, refl, ◌⊎◌, inl, inr, true, false, not, ◌&&◌, ◌||◌, none, some, List, [], ◌∷◌,
  arith, ◌==◌, eq_iff, if◌then◌else◌, Bool-cases, Option-cases, All, contains, contains-discard,
}
use win_os_layer.Common.Dict.{Dict, lookup, insert, lookup-insert}
use win_os_layer.Permissions.{Role}
use win_os_layer.Auth.Http.{Result, ok, raise}
use win_os_layer.Auth.Registry.{
  SessionRecord, AuthRegistry, is_revoked_fp, revoke_sessions, add, revoke_session,
  is_session_revoked, find_active, issue_session, placeholder_api_keys, revoke_key, set_app_scopes,
  set_user_id, register_overlay_key, rotate_key,
}

-- A request to the registry.
pub data Op : Type 0 where
  revoke : String → Op
  end_session : String → Op
  issue : String → String → Role → String → ℕ → Op
  scopes : String → List String → Op
  user : String → String → Op
  register : String → Role → Op
  rotate : String → String → Role → Op

-- The registry that a request leaves, where one that raises has changed nothing.
abbrev pub after {ℓ} : {A : Type ℓ} → A → Result A → A
after a (ok b) = b
after a (raise e) = a

abbrev pub after_rotation : AuthRegistry → Result (AuthRegistry × ℕ) → AuthRegistry
after_rotation r (ok (r', n)) = r'
after_rotation r (raise e) = r

module _ (fingerprint : String → String) where
  pub apply : Op → AuthRegistry → AuthRegistry
  apply (revoke key) r = (revoke_key fingerprint r key).0
  apply (end_session sid) r = after r (revoke_session r sid)
  apply (issue fp subject role fresh now) r = (issue_session r fp subject role fresh now).0
  apply (scopes key ids) r = set_app_scopes fingerprint r key ids
  apply (user key id) r = set_user_id fingerprint r key id
  apply (register key role) r = register_overlay_key fingerprint r key role
  apply (rotate old new role) r = after_rotation r (rotate_key fingerprint r old new role)

  pub run : List Op → AuthRegistry → AuthRegistry
  run [] r = r
  run (op ∷ ops) r = run ops (apply op r)

  -- The request does not register the key of this fingerprint anew.
  abbrev pub Spares : String → Op → Type 0
  Spares fp (register key role) = (fingerprint key == fp) ≡ false
  Spares fp (rotate old new role) = (fingerprint new == fp) ≡ false
  Spares fp _ = Unit

  -- The request does not issue a session under this id.
  abbrev pub Avoids : String → Op → Type 0
  Avoids sid (issue fp subject role fresh now) = (fresh == sid) ≡ false
  Avoids sid _ = Unit

pub contains-add :
    (a b : String) (xs : List String) → contains b (add a xs) ≡ (a == b || contains b xs)
contains-add a b xs = ground (arith, eq_iff a b)

lookup-revoke_sessions :
    (fp sid : String) (d : Dict SessionRecord)
    → lookup sid (revoke_sessions fp d) ≡ elim (lookup sid d) [
      | none ↦ none
      | some s ↦
          some (if s.key_fingerprint == fp && not s.revoked then record s { revoked = true } else s)
    ]
unfolding lookup
lookup-revoke_sessions fp sid [] = refl
lookup-revoke_sessions fp sid ((k, s) ∷ d) = elim (Bool-cases (k == sid)) [
  | inl e ↦ rw e refl
  | inr e ↦ rw e (lookup-revoke_sessions fp sid d)
]

module _ (fingerprint : String → String) where
  apply-revoked :
      (fp : String) (op : Op) (r : AuthRegistry)
      → Spares fingerprint fp op
      → is_revoked_fp r fp ≡ true
      → is_revoked_fp (apply fingerprint op r) fp ≡ true
  unfolding apply is_revoked_fp
  apply-revoked fp (revoke key) r h e =
      unfold revoke_key in ground (arith, contains-add (fingerprint key) fp r.revoked_fps)
  apply-revoked fp (end_session sid) r h e = unfold revoke_session in ground arith
  apply-revoked fp (issue fp' subject role fresh now) r h e = unfold issue_session in ground arith
  apply-revoked fp (scopes key ids) r h e = unfold set_app_scopes in e
  apply-revoked fp (user key id) r h e = unfold set_user_id in e
  apply-revoked fp (register key role) r h e =
      unfold register_overlay_key in
      ground (arith, contains-discard (fingerprint key) fp r.revoked_fps)
  apply-revoked fp (rotate old new role) r h e =
      unfold rotate_key in
      ground (
        arith,
        contains-discard (fingerprint new) fp (add (fingerprint old) r.revoked_fps),
        contains-add (fingerprint old) fp r.revoked_fps,
      )

  -- A revoked key stays revoked under any requests that do not register it anew.
  pub run-revoked :
      (fp : String) (ops : List Op) (r : AuthRegistry)
      → All (Spares fingerprint fp) ops
      → is_revoked_fp r fp ≡ true
      → is_revoked_fp (run fingerprint ops r) fp ≡ true
  unfolding run
  run-revoked fp [] r h e = e
  run-revoked fp (op ∷ ops) r (h, hs) e =
      run-revoked fp ops (apply fingerprint op r) hs (apply-revoked fp op r h e)

-- The session is stored, and marked as revoked.
abbrev pub IsEnded : String → AuthRegistry → Type 0
IsEnded sid r = (s : SessionRecord) × (lookup sid r.sessions ≡ some s) × (s.revoked ≡ true)

revoke_sessions-ended :
    (fp sid : String) (d : Dict SessionRecord) (s : SessionRecord)
    → lookup sid d ≡ some s
    → (s.revoked ≡ true) ⊎ (s.key_fingerprint ≡ fp)
    → (s' : SessionRecord) × (lookup sid (revoke_sessions fp d) ≡ some s') × (s'.revoked ≡ true)
revoke_sessions-ended fp sid d s e h = (
  if s.key_fingerprint == fp && not s.revoked then record s { revoked = true } else s,
  rw (lookup-revoke_sessions, e) refl,
  ground (arith, eq_iff s.key_fingerprint fp),
)

insert-ended :
    (sid key : String) (s' : SessionRecord) (r : AuthRegistry)
    → IsEnded sid r
    → (key == sid ≡ true → s'.revoked ≡ true)
    → (s : SessionRecord) × (lookup sid (insert key s' r.sessions) ≡ some s) × (s.revoked ≡ true)
insert-ended sid key s' r (s, e, h) m = elim (Bool-cases (key == sid)) [
  | inl same ↦ (s', rw (lookup-insert, same) refl, m same)
  | inr other ↦ (s, rw (lookup-insert, other) e, h)
]

module _ (fingerprint : String → String) where
  apply-IsEnded :
      (sid : String) (op : Op) (r : AuthRegistry)
      → Avoids fingerprint sid op
      → IsEnded sid r
      → IsEnded sid (apply fingerprint op r)
  unfolding apply
  apply-IsEnded sid (revoke key) r h (s, e, f) =
      unfold revoke_key in revoke_sessions-ended (fingerprint key) sid r.sessions s e (inl f)
  apply-IsEnded sid (end_session k) r h ended = elim (Option-cases (lookup k r.sessions)) [
    | inl missing ↦ unfold revoke_session in rw (missing, revoke_session) ended
    | inr (s', found) ↦
        unfold revoke_session in
        rw (found, revoke_session)
          (insert-ended sid k (record s' { revoked = true }) r ended (λ _. refl))
  ]
  apply-IsEnded sid (issue fp subject role fresh now) r h ended =
      elim (Option-cases (find_active r.revoked_fps fp r.sessions)) [
        | inl missing ↦
            unfold issue_session in
            rw (missing, issue_session, apply) (insert-ended sid fresh _ r ended (λ same. cc))
        | inr (sid', found) ↦ unfold issue_session in rw (found, issue_session, apply) ended
      ]
  apply-IsEnded sid (scopes key ids) r h ended = unfold set_app_scopes in ended
  apply-IsEnded sid (user key id) r h ended = unfold set_user_id in ended
  apply-IsEnded sid (register key role) r h ended = unfold register_overlay_key in ended
  apply-IsEnded sid (rotate old new role) r h (s, e, f) =
      let later = revoke_sessions-ended (fingerprint old) sid r.sessions s e (inl f) in
      unfold rotate_key in
      elim (Bool-cases (new == "" || new == old)) [
        | inl bad ↦ rw bad (s, e, f)
        | inr fine ↦ rw fine (elim (Bool-cases (contains new placeholder_api_keys)) [
          | inl bad ↦ rw bad (s, e, f)
          | inr good ↦ rw good later
        ])
      ]

  -- An ended session stays ended under any requests that do not issue its id again, also where
  -- its key is registered anew.
  pub run-IsEnded :
      (sid : String) (ops : List Op) (r : AuthRegistry)
      → All (Avoids fingerprint sid) ops
      → IsEnded sid r
      → IsEnded sid (run fingerprint ops r)
  unfolding run
  run-IsEnded sid [] r h e = e
  run-IsEnded sid (op ∷ ops) r (h, hs) e =
      run-IsEnded sid ops (apply fingerprint op r) hs (apply-IsEnded sid op r h e)

  -- Revoking a key ends every session of the key for good: whatever requests follow, registering
  -- the key anew among them, the session is refused.
  pub revoke_key-ends_sessions :
      (key sid : String) (s : SessionRecord) (ops : List Op) (r : AuthRegistry)
      → lookup sid r.sessions ≡ some s
      → s.key_fingerprint ≡ fingerprint key
      → All (Avoids fingerprint sid) ops
      → is_session_revoked (run fingerprint ops (revoke_key fingerprint r key).0) sid ≡ true
  revoke_key-ends_sessions key sid s ops r e f h =
      let start : IsEnded sid (revoke_key fingerprint r key).0 =
        unfold revoke_key in revoke_sessions-ended (fingerprint key) sid r.sessions s e (inr f) in
      let (s', e', f') = run-IsEnded sid ops (revoke_key fingerprint r key).0 h start in
      unfold is_session_revoked in rw (e', is_session_revoked) (ground arith)
