-- ===== src/Processes/Launch/Tests.antt =====
-- Runs of the launch policy.
use win_os_layer.Common.{
  String, ◌≡◌, refl, inr, true, none, some, List, [], ◌∷◌, ◌==◌, if◌then◌else◌,
}
use win_os_layer.Common.Dict.{lookup}
use win_os_layer.Common.Text.{strip}
use win_os_layer.Processes.Launch.{
  Host, executable_path_invalid, executable_location_forbidden, interpreter_inline_code_forbidden,
  arg, no_args, arg_list, has_code, path_parts, is_absolute, is_under, clean_args, validate_args,
  without_exe, without_version, interpreter_stem, flags_of, has_inline_code, is_volatile,
  resolved_roots, volatile_roots, locate, resolve_file, resolve_executable, permit, authorize,
}
use win_os_layer.Common.Text.{lower}

-- A host whose links lead nowhere else, on which everything is a file and `bash` is installed.
abbrev host : Host
host = record {
  which = λ name. if name == "bash" then some "/bin/bash" else none;
  resolve = λ path. some (elim (path_parts path) [ [] ↦ [] | root ∷ parts ↦ parts ]);
  is_file = λ path. true;
  temp_dir = "";
  env_temp = "";
  env_tmp = "";
  home = "root" ∷ [];
}

abbrev bash : List String
bash = "bin" ∷ "bash" ∷ []

inline_refused :
    authorize host (some "bash") (arg_list (arg "-C" ∷ arg "id" ∷ []))
    ≡ inr interpreter_inline_code_forbidden
unfolding authorize validate_args clean_args resolve_executable locate resolve_file permit
    is_volatile resolved_roots volatile_roots is_under has_inline_code flags_of interpreter_stem
    without_exe without_version has_code path_parts lower strip lookup
inline_refused = refl

versioned_refused :
    authorize host (some "/usr/bin/Python3.11.exe") (arg_list (arg "-c" ∷ []))
    ≡ inr interpreter_inline_code_forbidden
unfolding authorize validate_args clean_args resolve_executable locate resolve_file permit
    is_volatile resolved_roots volatile_roots is_under has_inline_code flags_of interpreter_stem
    without_exe without_version has_code path_parts is_absolute lower strip lookup
versioned_refused = refl

volatile_refused : authorize host (some " /tmp/tool ") no_args ≡ inr executable_location_forbidden
unfolding authorize validate_args resolve_executable locate resolve_file permit is_volatile
    resolved_roots volatile_roots is_under has_code path_parts is_absolute strip
volatile_refused = refl

parent_refused : authorize host (some "/opt/../tmp/x") no_args ≡ inr executable_path_invalid
unfolding authorize validate_args resolve_executable locate has_code path_parts strip
parent_refused = refl
