-- ===== src/FileSystem/Tests.antt =====
-- Runs of the file system guard.
use win_os_layer.Common.{
  String, ◌≡◌, refl, inl, inr, true, false, some, List, [], ◌∷◌, ◌++◌, ◌==◌, if◌then◌else◌,
}
use win_os_layer.Processes.Launch.{path_parts, has_code, is_absolute, is_under}
use win_os_layer.FileSystem.{
  Lstat, absent, present, symlink, directory, path_traversal, path_symlink_refused,
  path_outside_sandbox, descriptor, System, slashed, starts_with, normalize_user_path, kept_parts,
  relative_to, looks_absolute, parts_under, walk, walk_under, fd_still_under, write_bytes_nofollow,
  read_bytes_nofollow,
}
use win_os_layer.FileSystem.Walk.{IsPlain, IsWalked, Names, walk_under_iff}
use win_os_layer.FileSystem.Contained.{
  watched, Writes, write_bytes_nofollow-Writes, Reads, read_bytes_nofollow-Reads,
}

abbrev kind_of : List String → Lstat
kind_of [] = absent
kind_of (sand ∷ []) = absent
kind_of (sand ∷ name ∷ []) =
    if name == "docs" then present directory else if name == "link" then present symlink else absent
kind_of (sand ∷ name ∷ more ∷ path) = absent

-- A world of texts that were written. Descriptors lead to the given path.
abbrev files : List String → System (List String)
files leads = record {
  lstat = λ w path. kind_of path;
  resolve = λ w path. "etc" ∷ [];
  is_alpha = λ c. true;
  make_parents = λ w path. (w, false);
  exists = λ w path. true;
  open_nofollow = λ w path writes. (w, descriptor 3);
  fd_path = λ w fd. some leads;
  read = λ w fd n. some "text";
  write = λ w fd content. (content ∷ w, false);
  close = λ w fd. w;
}

abbrev sandbox : List String
sandbox = "sand" ∷ []

abbrev quiet : System (List String)
quiet = files ("sand" ∷ "docs" ∷ "new" ∷ [])

link_refused : walk_under quiet [] sandbox "./link/x" ≡ inr path_symlink_refused
unfolding walk_under normalize_user_path starts_with slashed path_parts has_code parts_under
    looks_absolute is_absolute kept_parts walk
link_refused = refl

traversal_refused : walk_under quiet [] sandbox "docs\\..\\..\\etc" ≡ inr path_traversal
unfolding walk_under normalize_user_path starts_with slashed path_parts
traversal_refused = refl

absolute_refused : walk_under quiet [] sandbox "/etc/shadow" ≡ inr path_outside_sandbox
unfolding walk_under normalize_user_path starts_with slashed path_parts has_code parts_under
    looks_absolute is_absolute relative_to
absolute_refused = refl

-- The descriptor leads elsewhere, and nothing is written.
swapped_refused :
    write_bytes_nofollow (files ("etc" ∷ [])) [] sandbox "link2" "x"
    ≡ ([], inr path_outside_sandbox)
unfolding write_bytes_nofollow walk_under normalize_user_path starts_with slashed path_parts
    has_code parts_under looks_absolute is_absolute kept_parts walk fd_still_under is_under
swapped_refused = refl

new_file : walk_under quiet [] sandbox "docs//new" ≡ inl ("sand" ∷ "docs" ∷ "new" ∷ [])
unfolding walk_under normalize_user_path starts_with slashed path_parts has_code parts_under
    looks_absolute is_absolute kept_parts walk
new_file = refl

walk_under_iff_example :
    (parts : List String) × IsPlain "docs//new"
    × Names quiet [] sandbox "docs//new" parts
    × IsWalked quiet [] sandbox parts
    × (("sand" ∷ "docs" ∷ "new" ∷ []) ≡ sandbox ++ parts)
walk_under_iff_example =
    (walk_under_iff quiet [] sandbox "docs//new" ("sand" ∷ "docs" ∷ "new" ∷ [])).0 new_file

write_bytes_nofollow-Writes_example :
    Writes quiet sandbox "x"
      ([], [])
      "docs"
      (write_bytes_nofollow (watched quiet) ([], []) sandbox "docs" "x")
write_bytes_nofollow-Writes_example = write_bytes_nofollow-Writes quiet sandbox "x" ([], []) "docs"

read_bytes_nofollow-Reads_example :
    Reads quiet sandbox 10 [] "docs" (read_bytes_nofollow quiet [] sandbox "docs" 10)
read_bytes_nofollow-Reads_example = read_bytes_nofollow-Reads quiet sandbox 10 [] "docs"
