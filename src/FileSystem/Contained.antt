-- ===== src/FileSystem/Contained.antt =====
-- windows_os_api/os/filesystem/paths.py: where `write_bytes_nofollow` writes and
-- `read_bytes_nofollow` reads.
use win_os_layer.Common.{
  ℕ, String, ◌≡◌, refl, ap, ◌⊎◌, inl, inr, Bool, true, false, not, Option, none, some, List, ◌∷◌,
  arith, if_rule, if_split,
}
use win_os_layer.Processes.Launch.{is_under}
use win_os_layer.FileSystem.{
  Lstat, absent, lstat_failed, present, symlink, directory, other, PathError, os_error, Opened,
  descriptor, link_met, open_failed, System, walk_under, fd_still_under, write_descriptor,
  write_opened, write_checked, write_made, write_target, write_bytes_nofollow, read_content,
  read_opened, read_target, read_bytes_nofollow,
}

-- A call of os.write: where its descriptor led at that time, and the data.
pub record Written : Type 0 where
  pub place : Option (List String)
  pub content : String

-- The file system with a list of the calls of os.write, the last one first.
unfoldable pub watched : {W : Type 0} → System W → System (W × List Written)
watched system = record {
  lstat = λ w path. system.lstat w.0 path;
  resolve = λ w path. system.resolve w.0 path;
  is_alpha = system.is_alpha;
  make_parents = λ w path. let (v, raised) = system.make_parents w.0 path in ((v, w.1), raised);
  exists = λ w path. system.exists w.0 path;
  open_nofollow =
      λ w path writes. let (v, opened) = system.open_nofollow w.0 path writes in ((v, w.1), opened);
  fd_path = λ w fd. system.fd_path w.0 fd;
  read = λ w fd n. system.read w.0 fd n;
  write = λ w fd content.
      let (v, raised) = system.write w.0 fd content in
      let x : Written = record { place = system.fd_path w.0 fd; content = content } in
      ((v, x ∷ w.1), raised);
  close = λ w fd. (system.close w.0 fd, w.1);
}

fd_still_under-IsUnder :
    (root : List String) (found : Option (List String))
    → elim found as (λ f. Bool) [ none ↦ false | some path ↦ is_under path root ] ≡ true
    → (p : List String) × (found ≡ some p) × (is_under p root ≡ true)
fd_still_under-IsUnder root none h = ground arith
fd_still_under-IsUnder root (some p) h = (p, refl, h)

module _ {W : Type 0} (system : System W) (root : List String) (content : String) where
  -- A call of os.write with this content, through a descriptor that leads below the root.
  abbrev pub IsContained : Written → Type 0
  IsContained x =
      (x.content ≡ content) × (p : List String) × (x.place ≡ some p) × (is_under p root ≡ true)

  -- The calls of os.write: on success one, below the root, and the answer is the path that was walked
  -- to; on an error none, or one below the root that raised.
  abbrev pub Writes :
      W × List Written → String → (W × List Written) × (List String ⊎ PathError) → Type 0
  Writes w path (w', inl out) =
      (x : Written) × (w'.1 ≡ x ∷ w.1)
      × IsContained x
      × (walk_under (watched system) w root path ≡ inl out)
  Writes w path (w', inr e) =
      (w'.1 ≡ w.1) ⊎ ((e ≡ os_error) × (x : Written) × (w'.1 ≡ x ∷ w.1) × IsContained x)

  write_descriptor-Writes :
      (v : W × List Written) (path : String) (target : List String) (w : W × List Written)
      (x : Written) (fd : ℕ) (raised : Bool)
      → walk_under (watched system) v root path ≡ inl target
      → w.1 ≡ x ∷ v.1
      → IsContained x
      → Writes v path (write_descriptor (watched system) target fd (w, raised))
  unfolding watched
  write_descriptor-Writes v path target w x fd true t e c = inr (refl, x, e, c)
  write_descriptor-Writes v path target w x fd false t e c = (x, e, c, t)

  write_opened-Writes :
      (v : W × List Written) (path : String) (target : List String) (w : W × List Written)
      (opened : Opened)
      → walk_under (watched system) v root path ≡ inl target
      → w.1 ≡ v.1
      → Writes v path (write_opened (watched system) root target content (w, opened))
  unfolding watched fd_still_under
  write_opened-Writes v path target w link_met t e = inl e
  write_opened-Writes v path target w open_failed t e = inl e
  write_opened-Writes v path target w (descriptor fd) t e =
      if_split (Writes v path) (fd_still_under (watched system) w fd root) _ _
        (λ h.
          let placed = fd_still_under-IsUnder root (system.fd_path w.0 fd) h in
          let x : Written = record { place = system.fd_path w.0 fd; content = content } in
          let (after, raised) = (watched system).write w fd content in
          write_descriptor-Writes v path target after x fd raised t (ap (λ log. x ∷ log) e)
            (refl, placed.0, placed.1, placed.2))
        (λ h. inl e)

  write_checked-Writes :
      (v : W × List Written) (path : String) (target : List String) (w : W × List Written)
      (found : Lstat)
      → walk_under (watched system) v root path ≡ inl target
      → w.1 ≡ v.1
      → Writes v path (write_checked (watched system) root target content w found)
  unfolding watched
  write_checked-Writes v path target w lstat_failed t e = inl e
  write_checked-Writes v path target w (present symlink) t e = inl e
  write_checked-Writes v path target w (present directory) t e =
      let (u, opened) = (watched system).open_nofollow w target true in
      write_opened-Writes v path target u opened t e
  write_checked-Writes v path target w (present other) t e =
      let (u, opened) = (watched system).open_nofollow w target true in
      write_opened-Writes v path target u opened t e
  write_checked-Writes v path target w absent t e =
      let (u, opened) = (watched system).open_nofollow w target true in
      write_opened-Writes v path target u opened t e

  write_made-Writes :
      (v : W × List Written) (path : String) (target : List String) (w : W × List Written)
      (raised : Bool)
      → walk_under (watched system) v root path ≡ inl target
      → w.1 ≡ v.1
      → Writes v path (write_made (watched system) root target content (w, raised))
  write_made-Writes v path target w true t e = inl e
  write_made-Writes v path target w false t e =
      write_checked-Writes v path target w ((watched system).lstat w target) t e

  write_target-Writes :
      (w : W × List Written) (path : String) (found : List String ⊎ PathError)
      → walk_under (watched system) w root path ≡ found
      → Writes w path (write_target (watched system) w root content found)
  unfolding watched
  write_target-Writes w path (inr e) h = inl refl
  write_target-Writes w path (inl target) h =
      let (v, raised) = (watched system).make_parents w target in
      write_made-Writes w path target v raised h refl

  -- write_bytes_nofollow calls os.write at most once, with the data, through a descriptor that at that
  -- time leads below the root: exactly once when it succeeds, and then it answers the path that
  -- walk_under gave; on an error not at all, unless the error is an OSError of the system. What mkdir
  -- and the opening do before that test is not stated.
  pub write_bytes_nofollow-Writes :
      (w : W × List Written) (path : String)
      → Writes w path (write_bytes_nofollow (watched system) w root path content)
  unfolding write_bytes_nofollow
  write_bytes_nofollow-Writes w path =
      write_target-Writes w path (walk_under (watched system) w root path) refl

module _ {W : Type 0} (system : System W) (root : List String) (max_bytes : ℕ) where
  -- What a read gave: on success the path that was walked to, and what was read from a descriptor that
  -- led below the root at that time.
  abbrev pub Reads : W → String → W × ((List String × String) ⊎ PathError) → Type 0
  Reads w path (w', inl (out, content)) =
      (v : W) × (fd : ℕ) × (p : List String) × (system.read v fd max_bytes ≡ some content)
      × (system.fd_path v fd ≡ some p)
      × (is_under p root ≡ true)
      × (walk_under system w root path ≡ inl out)
  Reads w path (w', inr e) = Unit

  read_content-Reads :
      (w : W) (path : String) (target : List String) (v v' : W) (fd : ℕ) (p : List String)
      (found : Option String)
      → system.read v fd max_bytes ≡ found
      → system.fd_path v fd ≡ some p
      → is_under p root ≡ true
      → walk_under system w root path ≡ inl target
      → Reads w path (v', read_content system target found)
  read_content-Reads w path target v v' fd p none r q u t = tt
  read_content-Reads w path target v v' fd p (some content) r q u t = (v, fd, p, r, q, u, t)

  read_opened-Reads :
      (w : W) (path : String) (target : List String) (v : W) (opened : Opened)
      → walk_under system w root path ≡ inl target
      → Reads w path (read_opened system root target max_bytes (v, opened))
  unfolding fd_still_under
  read_opened-Reads w path target v link_met t = tt
  read_opened-Reads w path target v open_failed t = tt
  read_opened-Reads w path target v (descriptor fd) t =
      if_split (Reads w path) (fd_still_under system v fd root) _ _
        (λ h.
          let placed = fd_still_under-IsUnder root (system.fd_path v fd) h in
          read_content-Reads w path target v (system.close v fd) fd placed.0
            (system.read v fd max_bytes) refl placed.1 placed.2 t)
        (λ h. tt)

  read_target-Reads :
      (w : W) (path : String) (found : List String ⊎ PathError)
      → walk_under system w root path ≡ found
      → Reads w path (read_target system w root max_bytes found)
  read_target-Reads w path (inr e) h = tt
  read_target-Reads w path (inl target) h =
      let (v, opened) = system.open_nofollow w target false in
      if_rule (Reads w path) (not (system.exists w target)) _ _ tt
        (read_opened-Reads w path target v opened h)

  -- What read_bytes_nofollow returns was read from a descriptor that at that time leads below
  -- the root, with the path that walk_under gave.
  pub read_bytes_nofollow-Reads :
      (w : W) (path : String) → Reads w path (read_bytes_nofollow system w root path max_bytes)
  unfolding read_bytes_nofollow
  read_bytes_nofollow-Reads w path = read_target-Reads w path (walk_under system w root path) refl
