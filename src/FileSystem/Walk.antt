-- ===== src/FileSystem/Walk.antt =====
-- windows_os_api/os/filesystem/paths.py: the paths that `walk_under` gives.
use win_os_layer.Common.{
  String, ◌≡◌, refl, sym, ap, ◌∙◌, from_inl, guard-inl, bind-inl, ◌≢◌, ◌↔◌, ◌⊎◌, inl, inr, true,
  false, ◌||◌, some, List, [], ◌∷◌, ◌++◌, arith, ◌==◌, Bool-cases, Option-cases, append_nil,
  append_cons, contains,
}
use win_os_layer.Processes.Launch.{path_parts, has_code}
use win_os_layer.FileSystem.{
  symlink, directory, other, PathError, path_traversal, path_invalid, System, slashed, starts_with,
  normalize_user_path, kept_parts, relative_to, looks_absolute, parts_under, enter, Lstat, absent,
  lstat_failed, present, walk, walk_under,
}

enter_last_iff :
    (answer : Lstat) (next out : List String)
    → (enter answer true next (inl next) ≡ inl out)
      ↔ ((answer ≢ present symlink) × (answer ≢ lstat_failed) × (out ≡ next))
enter_last_iff absent next out =
    (λ h. (λ e. ground arith, λ e. ground arith, ground arith), λ h. ground arith)
enter_last_iff lstat_failed next out = (λ h. ground arith, λ h. ground (arith, h.1 refl))
enter_last_iff (present symlink) next out = (λ h. ground arith, λ h. ground (arith, h.0 refl))
enter_last_iff (present directory) next out =
    (λ h. (λ e. ground arith, λ e. ground arith, ground arith), λ h. ground arith)
enter_last_iff (present other) next out =
    (λ h. (λ e. ground arith, λ e. ground arith, ground arith), λ h. ground arith)

enter_first_iff :
    (answer : Lstat) (next : List String) (rest : List String ⊎ PathError) (out : List String)
    → (enter answer false next rest ≡ inl out) ↔ ((answer ≡ present directory) × (rest ≡ inl out))
enter_first_iff absent next rest out = (λ h. ground arith, λ h. ground arith)
enter_first_iff lstat_failed next rest out = (λ h. ground arith, λ h. ground arith)
enter_first_iff (present symlink) next rest out = (λ h. ground arith, λ h. ground arith)
enter_first_iff (present directory) next rest out = (λ h. (refl, h), λ h. h.1)
enter_first_iff (present other) next rest out = (λ h. ground arith, λ h. ground arith)

-- A text without `..` among its components, with no mark of a network or device path, and no NUL.
abbrev pub IsPlain : String → Type 0
IsPlain path =
    ((path == "") ≡ false)
    × (starts_with path "\\\\" || starts_with path "//" ≡ false)
    × (starts_with path "\\\\?\\" || starts_with path "\\??\\" ≡ false)
    × (contains ".." (path_parts (slashed path)) ≡ false)
    × (has_code 0 path ≡ false)

normalize_user_path_iff :
    (path norm : String)
    → (normalize_user_path path ≡ inl norm) ↔ (IsPlain path × (norm ≡ slashed path))
unfolding normalize_user_path
normalize_user_path_iff path norm = (
  λ h.
      let (a, h1) = guard-inl (path == "") path_invalid _ norm h in
      let (b, h2) =
        guard-inl (starts_with path "\\\\" || starts_with path "//") path_traversal _ norm h1 in
      let (c, h3) =
        guard-inl (starts_with path "\\\\?\\" || starts_with path "\\??\\") path_traversal _ norm
          h2 in
      let (d, h4) =
        guard-inl (contains ".." (path_parts (slashed path))) path_traversal _ norm h3 in
      let (e, h5) = guard-inl (has_code 0 path) path_invalid _ norm h4 in
      ((a, b, c, d, e), sym (ap (from_inl norm) h5)),
  λ h. let ((a, b, c, d, e), same) = h in rw (a, b, c, d, e) (ap inl (sym same)),
)

kept_parts-contains :
    (ps : List String) → contains ".." ps ≡ false → contains ".." (kept_parts ps) ≡ false
unfolding kept_parts
kept_parts-contains [] h = refl
kept_parts-contains (p ∷ ps) h = ground (arith, kept_parts-contains ps)

module _ {W : Type 0} (system : System W) (w : W) where
  -- From one directory down the components: all but the last are directories, and the last is there
  -- and no symbolic link, or is not there.
  abbrev pub IsWalked : List String → List String → Type 0
  IsWalked current [] = Unit
  IsWalked current (p ∷ []) =
      (system.lstat w (current ++ p ∷ []) ≢ present symlink)
      × (system.lstat w (current ++ p ∷ []) ≢ lstat_failed)
  IsWalked current (p ∷ q ∷ parts) =
      (system.lstat w (current ++ p ∷ []) ≡ present directory)
      × IsWalked (current ++ p ∷ []) (q ∷ parts)

  walk_iff :
      (current parts out : List String)
      → (walk system w current parts ≡ inl out)
        ↔ (IsWalked current parts × (out ≡ current ++ parts))
  unfolding walk
  walk_iff current [] out =
      (λ h. (tt, ground (arith, append_nil current)), λ h. ground (arith, h.1, append_nil current))
  walk_iff current (p ∷ []) out =
      let (enters, entered) =
        enter_last_iff (system.lstat w (current ++ p ∷ [])) (current ++ p ∷ []) out in
      (λ h. let (a, b, e) = enters h in ((a, b), e), λ h. entered (h.0.0, h.0.1, h.1))
  walk_iff current (p ∷ q ∷ parts) out =
      let next = current ++ p ∷ [] in
      let (enters, entered) =
        enter_first_iff (system.lstat w next) next (walk system w next (q ∷ parts)) out in
      let (walks, walked) = walk_iff next (q ∷ parts) out in
      let joined = append_cons current p (q ∷ parts) in
      (
        λ h. let (d, rest) = enters h in let (good, e) = walks rest in ((d, good), e ∙ joined),
        λ h. entered (h.0.0, walked (h.0.1, h.1 ∙ sym joined)),
      )

  -- The components that a text names below the root: those of the text itself, without empty ones
  -- and `.`; or, where it looks absolute, what is left of the path it resolves to below the root.
  abbrev pub Names : List String → String → List String → Type 0
  Names root path parts =
      ((looks_absolute system (slashed path) ≡ false)
        × (parts ≡ kept_parts (path_parts (slashed path))))
      ⊎ ((looks_absolute system (slashed path) ≡ true)
          × (rel : List String) × (relative_to (system.resolve w (slashed path)) root ≡ some rel)
          × (parts ≡ kept_parts rel))

  parts_under-Names :
      (root : List String) (path : String) (parts : List String)
      → contains ".." (kept_parts (path_parts (slashed path))) ≡ false
      → Names root path parts
      → parts_under system w root (slashed path) ≡ inl parts
  unfolding parts_under
  parts_under-Names root path parts clean (inl (r, e)) = ground arith
  parts_under-Names root path parts clean (inr (a, rel, inside, e)) = ground arith

  parts_under_iff :
      (root : List String) (path : String) (parts : List String)
      → contains ".." (path_parts (slashed path)) ≡ false
      → (parts_under system w root (slashed path) ≡ inl parts) ↔ Names root path parts
  unfolding parts_under
  parts_under_iff root path parts d =
      let clean = kept_parts-contains (path_parts (slashed path)) d in
      elim (Bool-cases (looks_absolute system (slashed path))) [
        | inl a ↦ elim (Option-cases (relative_to (system.resolve w (slashed path)) root)) [
          | inl outside ↦ (λ h. ground arith, λ h. parts_under-Names root path parts clean h)
          | inr (rel, inside) ↦ (
            λ h. inr (a, rel, inside, ground arith),
            λ h. parts_under-Names root path parts clean h,
          )
        ]
        | inr r ↦ (λ h. inl (r, ground arith), λ h. parts_under-Names root path parts clean h)
      ]

  -- `walk_under` gives a path exactly if the text is not empty, has no component `..`, no mark of a
  -- network or device path and no NUL, names components below the root, all of these but the last
  -- are directories, and the last is missing, or can be read by lstat and is no symbolic link; the
  -- path is then the root with these components.
  pub walk_under_iff :
      (root : List String) (path : String) (out : List String)
      → (walk_under system w root path ≡ inl out) ↔ (
          (parts : List String) × IsPlain path
          × Names root path parts
          × IsWalked root parts
          × (out ≡ root ++ parts))
  unfolding walk_under
  walk_under_iff root path out =
      let start = normalize_user_path path in
      (
        λ h.
            let (norm, n, h') =
              bind-inl start
                (λ norm. elim (parts_under system w root norm) [
                  | inr e ↦ inr e
                  | inl parts ↦ walk system w root parts
                ])
                out h in
            let (plain, same) = (normalize_user_path_iff path norm).0 n in
            let (parts, k, h'') =
              bind-inl (parts_under system w root norm) (walk system w root) out h' in
            let (good, e) = (walk_iff root parts out).0 h'' in
            let k' : parts_under system w root (slashed path) ≡ inl parts =
              ap (parts_under system w root) (sym same) ∙ k in
            (parts, plain, (parts_under_iff root path parts plain.3).0 k', good, e),
        λ h.
            let (parts, plain, names, good, e) = h in
            let n = (normalize_user_path_iff path (slashed path)).1 (plain, refl) in
            let k = (parts_under_iff root path parts plain.3).1 names in
            ap
              (λ x. elim x as (λ y. List String ⊎ PathError) [
                | inr e ↦ inr e
                | inl norm ↦
                    elim (parts_under system w root norm) as (λ y. List String ⊎ PathError) [
                      | inr e ↦ inr e
                      | inl parts ↦ walk system w root parts
                    ]
              ])
              n
            ∙ ap
                (λ x. elim x as (λ y. List String ⊎ PathError) [
                  | inr e ↦ inr e
                  | inl parts ↦ walk system w root parts
                ])
                k
            ∙ (walk_iff root parts out).1 (good, e),
      )
