-- ===== src/Auth/Registry.antt =====
-- AuthRegistry of windows_os_api/core/security/auth.py. Each method but `rotate_key` holds the lock for
-- its whole body, so it is one step here. `rotate_key` takes the lock three times and is one step too:
-- what other threads do between its parts is not modelled. A method that returns a value and changes
-- the registry returns both. A set of texts is a list without order.
pub mod Revocation
use win_os_layer.Common.{
  ℕ, ◌+◌, String, Bool, true, false, not, ◌&&◌, ◌||◌, Option, none, some, List, [], ◌∷◌, ◌==◌,
  if◌then◌else◌, get_or, contains, discard,
}
use win_os_layer.Common.Dict.{Dict, lookup, insert, erase}
use win_os_layer.Permissions.{Role}
use win_os_layer.Auth.Http.{Result, ok, raise}

pub record SessionRecord : Type 0 where
  pub session_id : String
  pub key_fingerprint : String
  pub subject : String
  pub role : Role
  pub created_at : ℕ
  pub revoked : Bool

pub record AuthRegistry : Type 0 where
  pub revoked_fps : List String
  pub sessions : Dict SessionRecord
  pub app_scopes : Dict (List String)
  pub user_ids : Dict String
  pub overlay_roles : Dict Role

-- `__init__` and `reset`
abbrev pub empty : AuthRegistry
empty = record {
  revoked_fps = [];
  sessions = [];
  app_scopes = [];
  user_ids = [];
  overlay_roles = [];
}

pub reset : AuthRegistry → AuthRegistry
reset r = empty

unfoldable pub is_revoked_fp : AuthRegistry → String → Bool
is_revoked_fp r fp = contains fp r.revoked_fps

-- The loop of `revoke_key` over the sessions, with its count.
abbrev pub revoke_sessions : String → Dict SessionRecord → Dict SessionRecord
revoke_sessions fp [] = []
revoke_sessions fp ((sid, s) ∷ d) =
    (sid, if s.key_fingerprint == fp && not s.revoked then record s { revoked = true } else s)
    ∷ revoke_sessions fp d

abbrev pub count_revoked : String → Dict SessionRecord → ℕ
count_revoked fp [] = 0
count_revoked fp ((sid, s) ∷ d) =
    (if s.key_fingerprint == fp && not s.revoked then 1 else 0) + count_revoked fp d

-- `self._revoked_fps.add(fp)`
abbrev pub add : String → List String → List String
add a xs = if contains a xs then xs else a ∷ xs

unfoldable pub revoke_fp : AuthRegistry → String → AuthRegistry × ℕ
revoke_fp r fp = (
  record r {
    revoked_fps = add fp r.revoked_fps;
    sessions = revoke_sessions fp r.sessions;
    overlay_roles = erase fp r.overlay_roles;
  },
  count_revoked fp r.sessions,
)

unfoldable pub revoke_session : AuthRegistry → String → Result AuthRegistry
revoke_session r sid = elim (lookup sid r.sessions) [
  | none ↦ raise (record { status_code = 404; detail = "Unknown session" })
  | some s ↦ ok (record r { sessions = insert sid (record s { revoked = true }) r.sessions })
]

pub session_key_fingerprint : AuthRegistry → String → Option String
session_key_fingerprint r sid = elim (lookup sid r.sessions) [
  | none ↦ none
  | some s ↦ some s.key_fingerprint
]

unfoldable pub is_session_revoked : AuthRegistry → String → Bool
is_session_revoked r sid = elim (lookup sid r.sessions) [
  | none ↦ true
  | some s ↦ s.revoked || contains s.key_fingerprint r.revoked_fps
]

pub get_session : AuthRegistry → String → Option SessionRecord
get_session r sid = lookup sid r.sessions

pub record SessionView : Type 0 where
  pub session_id : String
  pub subject : String
  pub role : Role
  pub created_at : ℕ
  pub revoked : Bool

abbrev pub views : List String → String → Dict SessionRecord → List SessionView
views revoked fp [] = []
views revoked fp ((sid, s) ∷ d) =
    let rest = views revoked fp d in
    if not (s.key_fingerprint == fp)
    then rest
    else record {
      session_id = s.session_id;
      subject = s.subject;
      role = s.role;
      created_at = s.created_at;
      revoked = s.revoked || contains s.key_fingerprint revoked;
    }
      ∷ rest

pub list_sessions_for_fingerprint : AuthRegistry → String → List SessionView
list_sessions_for_fingerprint r fp = views r.revoked_fps fp r.sessions

-- The first active session of the key, in the order of the dictionary.
abbrev pub find_active : List String → String → Dict SessionRecord → Option String
find_active revoked fp [] = none
find_active revoked fp ((sid, s) ∷ d) =
    if s.key_fingerprint == fp && (not s.revoked && not (contains s.key_fingerprint revoked))
    then some s.session_id
    else find_active revoked fp d

-- `str(uuid.uuid4())` and `time.time()` are the arguments `fresh` and `now`.
unfoldable pub issue_session :
    AuthRegistry → String → String → Role → String → ℕ → AuthRegistry × String
issue_session r fp subject role fresh now = elim (find_active r.revoked_fps fp r.sessions) [
  | some sid ↦ (r, sid)
  | none ↦ (
    record r {
      sessions =
          insert fresh
            (record {
              session_id = fresh;
              key_fingerprint = fp;
              subject = subject;
              role = role;
              created_at = now;
              revoked = false;
            })
            r.sessions;
    },
    fresh,
  )
]

-- `frozenset(a for a in app_ids if a)`
abbrev pub non_empty : List String → List String
non_empty [] = []
non_empty (a ∷ as') = let rest = non_empty as' in if a == "" then rest else a ∷ rest

unfoldable pub set_app_scopes_fp : AuthRegistry → String → List String → AuthRegistry
set_app_scopes_fp r fp app_ids = record r {
  app_scopes = insert fp (non_empty app_ids) r.app_scopes;
}

unfoldable pub get_app_scopes_fp : AuthRegistry → String → List String
get_app_scopes_fp r fp = get_or [] (lookup fp r.app_scopes)

unfoldable pub set_user_id_fp : AuthRegistry → String → String → AuthRegistry
set_user_id_fp r fp user_id = record r { user_ids = insert fp user_id r.user_ids }

unfoldable pub get_user_id_fp : AuthRegistry → String → String
get_user_id_fp r fp = get_or "" (lookup fp r.user_ids)

unfoldable pub register_overlay_fp : AuthRegistry → String → Role → AuthRegistry
register_overlay_fp r fp role = record r {
  revoked_fps = discard fp r.revoked_fps;
  overlay_roles = insert fp role r.overlay_roles;
}

unfoldable pub overlay_role_fp : AuthRegistry → String → Option Role
overlay_role_fp r fp = lookup fp r.overlay_roles

-- The known documentation placeholders.
abbrev pub placeholder_api_keys : List String
placeholder_api_keys = "dev-key-change-me" ∷ "admin-key-change-me" ∷ []

-- The last block of `rotate_key`: the scopes and the user of the old key go to the new one.
unfoldable pub copy_bindings : AuthRegistry → String → String → AuthRegistry
copy_bindings r old_fp new_fp = record r {
  app_scopes = elim (lookup old_fp r.app_scopes) [
    | none ↦ r.app_scopes
    | some scopes ↦ insert new_fp scopes r.app_scopes
  ];
  user_ids = elim (lookup old_fp r.user_ids) [
    | none ↦ r.user_ids
    | some user ↦ insert new_fp user r.user_ids
  ];
}

module _ (fingerprint : String → String) where
  unfoldable pub is_revoked : AuthRegistry → String → Bool
  unfolding is_revoked_fp
  is_revoked r api_key = is_revoked_fp r (fingerprint api_key)

  -- `revoke_key`: the registry, and the number of sessions that it ended.
  unfoldable pub revoke_key : AuthRegistry → String → AuthRegistry × ℕ
  unfolding revoke_fp
  revoke_key r api_key = revoke_fp r (fingerprint api_key)

  unfoldable pub set_app_scopes : AuthRegistry → String → List String → AuthRegistry
  unfolding set_app_scopes_fp
  set_app_scopes r api_key app_ids = set_app_scopes_fp r (fingerprint api_key) app_ids

  unfoldable pub get_app_scopes : AuthRegistry → String → List String
  unfolding get_app_scopes_fp
  get_app_scopes r api_key = get_app_scopes_fp r (fingerprint api_key)

  unfoldable pub set_user_id : AuthRegistry → String → String → AuthRegistry
  unfolding set_user_id_fp
  set_user_id r api_key user_id = set_user_id_fp r (fingerprint api_key) user_id

  unfoldable pub get_user_id : AuthRegistry → String → String
  unfolding get_user_id_fp
  get_user_id r api_key = get_user_id_fp r (fingerprint api_key)

  unfoldable pub register_overlay_key : AuthRegistry → String → Role → AuthRegistry
  unfolding register_overlay_fp
  register_overlay_key r api_key role = register_overlay_fp r (fingerprint api_key) role

  unfoldable pub overlay_role : AuthRegistry → String → Option Role
  unfolding overlay_role_fp
  overlay_role r api_key = overlay_role_fp r (fingerprint api_key)

  unfoldable pub rotate_key : AuthRegistry → String → String → Role → Result (AuthRegistry × ℕ)
  unfolding revoke_key register_overlay_key copy_bindings
  rotate_key r old_key new_key role =
      if new_key == "" || new_key == old_key
      then raise (record { status_code = 400; detail = "Invalid rotation target" })
      else if contains new_key placeholder_api_keys
      then raise
          (record { status_code = 400; detail = "Placeholder keys cannot be rotation targets" })
      else let (revoked, ended) = revoke_key r old_key in
        ok (
          copy_bindings (register_overlay_key revoked new_key role) (fingerprint old_key)
              (fingerprint new_key),
          ended,
        )
