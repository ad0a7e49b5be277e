-- ===== src/Auth/Roles/Resolution.antt =====
-- What `resolve_role` answers.
use win_os_layer.Common.{
  ℕ, String, ◌≡◌, refl, ap, ◌∙◌, ◌↔◌, ◌⊎◌, inl, inr, Bool, true, false, not, ◌&&◌, ◌||◌, Option,
  none, some, List, [], ◌∷◌, arith, ◌==◌, eq_iff, nat_eq, if◌then◌else◌, Bool-cases, contains,
}
use win_os_layer.Permissions.{Role}
use win_os_layer.Auth.Http.{ok}
use win_os_layer.Auth.Registry.{AuthRegistry, is_revoked, overlay_role}
use win_os_layer.Common.Text.{text_length, is_ascii}
use win_os_layer.Auth.Roles.{
  Settings, match_loop, match_key, role_key_lists, matched_roles, choose_role, resolve_role,
}

nat_eq_refl : (n : ℕ) → nat_eq n n ≡ true
nat_eq_refl n = ground arith

-- A key and a candidate that can be compared: the candidate is empty or of another length, or both are
-- ASCII.
abbrev pub is_comparable : String → String → Bool
is_comparable k c =
    (c == "" || not (nat_eq (text_length k) (text_length c))) || is_ascii k && is_ascii c

abbrev pub all_comparable : String → List String → Bool
all_comparable k [] = true
all_comparable k (c ∷ cs) = is_comparable k c && all_comparable k cs

abbrev pub lists_comparable : String → List (Role × List String) → Bool
lists_comparable k [] = true
lists_comparable k ((role, keys) ∷ lists) = all_comparable k keys && lists_comparable k lists

-- One round of the loop, for what its tests give.
match_round :
    (skips ascii same found held rest : Bool) (skipped matched : Option Bool)
    → skipped ≡ (if rest then some (found || held) else none)
    → matched ≡ (if rest then some true else none)
    → skips && same ≡ false
    → (if skips then skipped else if not ascii then none else if same then matched else skipped)
      ≡ (if (skips || ascii) && rest then some (found || (same || held)) else none)
match_round true ascii true found held rest skipped matched s m h = absurd cc
match_round true ascii false found held rest skipped matched s m h = s
match_round false false same found held rest skipped matched s m h = refl
match_round false true false found held rest skipped matched s m h = s
match_round false true true true held rest skipped matched s m h = m
match_round false true true false held rest skipped matched s m h = m

eq_sym : (s t : String) → (s == t) ≡ (t == s)
eq_sym s t = ground (arith, eq_iff s t, eq_iff t s)

-- A candidate that is skipped is not the key.
skipped-differs :
    (k c : String)
    → (k == "") ≡ false
    → (c == "" || not (nat_eq (text_length k) (text_length c))) && k == c ≡ false
skipped-differs k c h =
    ground (arith, eq_iff k c, eq_iff c "", eq_iff k "", nat_eq_refl (text_length k))

match_loop-eq-contains :
    (k : String) (ks : List String) (found : Bool)
    → (k == "") ≡ false
    → match_loop k ks found ≡ (if all_comparable k ks then some (found || contains k ks) else none)
match_loop-eq-contains k [] found h = ground arith
match_loop-eq-contains k (c ∷ cs) found h =
    match_round (c == "" || not (nat_eq (text_length k) (text_length c))) (is_ascii k && is_ascii c)
      (k == c) found (contains k cs) (all_comparable k cs) (match_loop k cs found)
      (match_loop k cs true) (match_loop-eq-contains k cs found h)
      (match_loop-eq-contains k cs true h) (skipped-differs k c h)
    ∙ ap
        (λ same.
          if is_comparable k c && all_comparable k cs
          then some (found || (same || contains k cs))
          else none)
        (eq_sym k c)

-- The comparison loop, which never stops early, is membership of a key that is not empty, where every
-- comparison can be made.
pub match_key-eq-contains :
    (k : String) (ks : List String)
    → (k == "") ≡ false
    → match_key k ks ≡ (if all_comparable k ks then some (contains k ks) else none)
unfolding match_key
match_key-eq-contains k ks e = rw e (match_loop-eq-contains k ks false e)

-- The roles whose list holds the key.
abbrev pub holders : String → List (Role × List String) → List Role
holders k [] = []
holders k ((role, keys) ∷ lists) =
    let rest = holders k lists in if contains k keys then role ∷ rest else rest

matched_roles-eq-holders :
    (k : String) (lists : List (Role × List String))
    → (k == "") ≡ false
    → matched_roles k lists ≡ (if lists_comparable k lists then some (holders k lists) else none)
unfolding matched_roles
matched_roles-eq-holders k [] h = refl
matched_roles-eq-holders k ((role, keys) ∷ lists) h =
    rw (match_key-eq-contains k keys h, matched_roles-eq-holders k lists h) ground
      (arith, Bool-cases (all_comparable k keys), Bool-cases (lists_comparable k lists))

-- The role that a list of holders and a key registered at run time determine.
abbrev pub Determines : List Role → Option Role → Role → Type 0
Determines held overlay role = (held ≡ role ∷ []) ⊎ ((held ≡ []) × (overlay ≡ some role))

choose_role_iff :
    (held : List Role) (overlay : Option Role) (role : Role)
    → (choose_role held overlay ≡ ok role) ↔ Determines held overlay role
unfolding choose_role
choose_role_iff [] none role = (λ h. cc, λ h. ground arith)
choose_role_iff [] (some x) role = (λ h. ground arith, λ h. ground arith)
choose_role_iff (x ∷ []) overlay role = (λ h. ground arith, λ h. ground arith)
choose_role_iff (x ∷ y ∷ more) overlay role = (λ h. cc, λ h. ground arith)

module _ (fingerprint : String → String) (r : AuthRegistry) (k : String) (s : Settings) where
  -- A role is given exactly to a key that is not empty and not revoked, that is compared only with
  -- keys of another length or of ASCII characters, as itself, and that stands in the list of this role
  -- alone, or in none of the lists and is registered for this role at run time.
  pub resolve_role_iff :
      (role : Role)
      → (resolve_role fingerprint r k s ≡ ok role) ↔ (
          ((k == "") ≡ false)
          × (is_revoked fingerprint r k ≡ false)
          × (lists_comparable k (role_key_lists s) ≡ true)
          × Determines (holders k (role_key_lists s)) (overlay_role fingerprint r k) role)
  resolve_role_iff role =
      let held : (k == "") ≡ false
          → matched_roles k (role_key_lists s) ≡ (
              if lists_comparable k (role_key_lists s)
              then some (holders k (role_key_lists s))
              else none) =
        matched_roles-eq-holders k (role_key_lists s) in
      let choice =
        choose_role_iff (holders k (role_key_lists s)) (overlay_role fingerprint r k) role in
      elim (Bool-cases (k == "")) [
        | inl e ↦ (λ h. unfold resolve_role in ground arith, λ h. ground arith)
        | inr e ↦ elim (Bool-cases (is_revoked fingerprint r k)) [
          | inl f ↦ (λ h. unfold resolve_role in ground arith, λ h. ground arith)
          | inr f ↦ elim (Bool-cases (lists_comparable k (role_key_lists s))) [
            | inr g ↦
                let stuck : matched_roles k (role_key_lists s) ≡ none = ground (arith, held e) in
                (λ h. unfold resolve_role in ground (arith, stuck), λ h. ground arith)
            | inl g ↦
                let read : matched_roles k (role_key_lists s)
                    ≡ some (holders k (role_key_lists s)) =
                  ground (arith, held e) in
                (
                  λ h. (
                    e,
                    f,
                    g,
                    choice.0 (unfold resolve_role in rw (e, f, read, resolve_role) at h),
                  ),
                  λ h. unfold resolve_role in rw (e, f, read, resolve_role) (choice.1 h.3),
                )
          ]
        ]
      ]
