-- ===== src/Processes/Launch/Policy.antt =====
-- What an authorized start is.
use win_os_layer.Common.{
  ◌≤◌, ◌||◌, sym, ◌∙◌, String, ◌≡◌, ◌≢◌, Bool-cases, Option-cases, eq_iff, ◌++◌, refl, ap, subst,
  from_inl, guard-inl, bind-inl, ◌⊎◌, inl, inr, Bool, true, false, Option, none, some, List, [],
  ◌∷◌, arith, ◌==◌, ltb, if◌then◌else◌, length, All, contains, ltb_false→le,
}
use win_os_layer.Common.Text.{strip}
use win_os_layer.Processes.Launch.{
  Host, LaunchError, executable_path_invalid, executable_location_forbidden,
  interpreter_inline_code_forbidden, args_invalid, RawArg, arg, not_text, RawArgs, no_args,
  not_a_list, arg_list, max_args, max_arg_len, has_code, is_under, clean_args, validate_args,
  interpreter_stem, file_name, flags_of, has_inline_code, is_volatile, resolved_roots,
  volatile_roots, locate, resolve_file, resolve_executable, permit, authorize_with, authorize,
}
use win_os_layer.Common.Text.{lower, text_length}

abbrev pub IsGoodArg : String → Type 0
IsGoodArg a = (has_code 0 a ≡ false) × (text_length a ≤ max_arg_len)

-- The arguments as they were given.
abbrev pub raw_texts : List String → List RawArg
raw_texts [] = []
raw_texts (a ∷ rest) = arg a ∷ raw_texts rest

abbrev pub GivenArgs : RawArgs → List String → Type 0
GivenArgs no_args args = args ≡ []
GivenArgs not_a_list args = ⊥
GivenArgs (arg_list raw) args = raw ≡ raw_texts args

-- None of the temporary places, where they are set and resolve, begins the path, and none of the
-- two folders of downloads.
abbrev pub Outside : Host → List String → Type 0
Outside host exe =
    ((place : String) (root : List String)
      → contains place
          (host.temp_dir ∷ "/tmp" ∷ "/var/tmp" ∷ "/dev/shm" ∷ host.env_temp ∷ host.env_tmp ∷ [])
        ≡ true
      → place ≢ ""
      → host.resolve place ≡ some root
      → is_under exe root ≡ false)
    × (is_under exe (host.home ++ "Downloads" ∷ []) ≡ false)
    × (is_under exe (host.home ++ "Scaricati" ∷ []) ≡ false)

abbrev pub NoFlag : List String → List String → Type 0
NoFlag flags args = All (λ a. contains (lower a) flags ≡ false) args

-- What the policy asks of a start: the arguments are those given, few, short and without NUL; the
-- path is a file that the resolution of an absolute path without `..`, or of what the search path has
-- for a bare name, gives; it lies outside the temporary places and the downloads; and no argument as a
-- whole is, in lower case, a flag that the table has for this interpreter.
pub record IsAuthorized (host : Host) (command : String) (raw : RawArgs) (exe args : List String)
    : Type 0 where
  pub given : GivenArgs raw args
  pub few : length args ≤ max_args
  pub good : All IsGoodArg args
  pub path : String
  pub located : locate host (strip command) ≡ inl path
  pub resolved : host.resolve path ≡ some exe
  pub file : host.is_file exe ≡ true
  pub outside : Outside host exe
  pub no_inline_code : NoFlag (flags_of (interpreter_stem (file_name exe))) args

length-raw_texts : (args : List String) → length (raw_texts args) ≡ length args
length-raw_texts [] = refl
length-raw_texts (a ∷ rest) = omega (arith, length-raw_texts rest)

arg_guards :
    (nul long : Bool) (rest : List String ⊎ LaunchError) (a : String) (args : List String)
    → (if nul
        then inr args_invalid
        else if long
        then inr args_invalid
        else elim rest [ inl later ↦ inl (a ∷ later) | inr e ↦ inr e ])
      ≡ inl args
    → (nul ≡ false)
      × (long ≡ false)
      × (later : List String) × (rest ≡ inl later)
      × (args ≡ a ∷ later)
arg_guards true long rest a args h = absurd cc
arg_guards false true rest a args h = absurd cc
arg_guards false false (inl later) a args h = (refl, refl, later, refl, sym (ap (from_inl args) h))
arg_guards false false (inr e) a args h = absurd cc

clean_args-inl :
    (raw : List RawArg) (args : List String)
    → clean_args raw ≡ inl args
    → (raw ≡ raw_texts args) × All IsGoodArg args
unfolding clean_args
clean_args-inl [] args h =
    subst (λ (l : List String). ([] ≡ raw_texts l) × All IsGoodArg l) (ap (from_inl args) h)
      (refl, tt)
clean_args-inl (not_text ∷ raw) args h = absurd cc
clean_args-inl (arg a ∷ raw) args h =
    let (n, l, later, e, f) =
      arg_guards (has_code 0 a) (ltb max_arg_len (text_length a)) (clean_args raw) a args h in
    let (g, good) = clean_args-inl raw later e in
    subst (λ (l : List String). (arg a ∷ raw ≡ raw_texts l) × All IsGoodArg l) (sym f)
      (ap (λ r. arg a ∷ r) g, ((n, ltb_false→le max_arg_len (text_length a) l), good))

validate_args-inl :
    (raw : RawArgs) (args : List String)
    → validate_args raw ≡ inl args
    → GivenArgs raw args × (length args ≤ max_args) × All IsGoodArg args
unfolding validate_args
validate_args-inl no_args args h =
    subst (λ (l : List String). (l ≡ []) × (length l ≤ max_args) × All IsGoodArg l)
      (ap (from_inl args) h) (refl, omega arith, tt)
validate_args-inl not_a_list args h = absurd cc
validate_args-inl (arg_list raw) args h =
    let (few, ok) = guard-inl (ltb max_args (length raw)) args_invalid (clean_args raw) args h in
    let (g, good) = clean_args-inl raw args ok in
    (g, ground (arith, ap length g, length-raw_texts args), good)

has_inline_code-NoFlag :
    (flags args : List String) → has_inline_code flags args ≡ false → NoFlag flags args
unfolding has_inline_code
has_inline_code-NoFlag flags [] h = tt
has_inline_code-NoFlag flags (a ∷ args) h =
    (ground arith, has_inline_code-NoFlag flags args (ground arith))

module _ (host : Host) where
  resolved_roots-outside :
      (exe : List String) (places : List String) (more : List (List String))
      → is_volatile exe (resolved_roots host places ++ more) ≡ false
      → ((place : String) (root : List String)
          → contains place places ≡ true
          → place ≢ ""
          → host.resolve place ≡ some root
          → is_under exe root ≡ false)
        × (is_volatile exe more ≡ false)
  unfolding resolved_roots is_volatile
  resolved_roots-outside exe [] more h = (λ p r c n e. absurd cc, h)
  resolved_roots-outside exe (place ∷ places) more h = elim (Bool-cases (place == "")) [
    | inl b ↦
        let (rest, last) = resolved_roots-outside exe places more (rw b at h) in
        (λ p r c n e. ground (arith, rest p r, eq_iff place p, eq_iff place "", n), last)
    | inr b ↦ elim (Option-cases (host.resolve place)) [
      | inl missing ↦
          let (rest, last) = resolved_roots-outside exe places more (rw (b, missing) at h) in
          (
            λ p r c n e. elim (Bool-cases (place == p)) [
              | inl same ↦
                  let met : none ≡ some r =
                    sym missing ∙ (ap host.resolve ((eq_iff place p).0 same) ∙ e) in
                  ground arith
              | inr differs ↦ rest p r (ground arith) n e
            ],
            last,
          )
      | inr (root, found) ↦
          let h' : is_under exe root || is_volatile exe (resolved_roots host places ++ more)
              ≡ false =
            rw (b, found) at h in
          let (rest, last) = resolved_roots-outside exe places more (ground arith) in
          (
            λ p r c n e. elim (Bool-cases (place == p)) [
              | inl same ↦
                  let met : some root ≡ some r =
                    sym found ∙ (ap host.resolve ((eq_iff place p).0 same) ∙ e) in
                  ground arith
              | inr differs ↦ rest p r (ground arith) n e
            ],
            last,
          )
    ]
  ]

  volatile_roots-Outside :
      (exe : List String) → is_volatile exe (volatile_roots host) ≡ false → Outside host exe
  unfolding volatile_roots is_volatile
  volatile_roots-Outside exe h =
      let (temporary, downloads) = resolved_roots-outside exe _ _ h in
      (temporary, ground arith, ground arith)

  resolve_file-inl :
      (path : String) (exe : List String)
      → resolve_file host path ≡ inl exe
      → (host.resolve path ≡ some exe) × (host.is_file exe ≡ true)
  unfolding resolve_file
  resolve_file-inl path exe h = ground arith

  resolve_executable-inl :
      (command : Option String) (exe : List String)
      → resolve_executable host command ≡ inl exe
      → (text : String) × (path : String) × (command ≡ some text)
        × (locate host (strip text) ≡ inl path)
        × (resolve_file host path ≡ inl exe)
  unfolding resolve_executable
  resolve_executable-inl none exe h = absurd cc
  resolve_executable-inl (some command) exe h =
      let raw = strip command in
      let found = bind-inl (locate host raw) (resolve_file host) exe in
      let (a, h') = guard-inl (raw == "") executable_path_invalid _ exe h in
      let (b, h'') = guard-inl (has_code 0 raw) executable_path_invalid _ exe h' in
      let (path, e, r) = found h'' in (command, path, refl, e, r)

  permit-inl :
      (exe args exe' args' : List String)
      → permit host exe args ≡ inl (exe', args')
      → (exe ≡ exe')
        × (args ≡ args')
        × Outside host exe
        × NoFlag (flags_of (interpreter_stem (file_name exe))) args
  unfolding permit
  permit-inl exe args exe' args' h =
      let flags = flags_of (interpreter_stem (file_name exe)) in
      let (a, h') =
        guard-inl (is_volatile exe (volatile_roots host)) executable_location_forbidden _
          (exe', args') h in
      let (b, h'') =
        guard-inl (has_inline_code flags args) interpreter_inline_code_forbidden _ (exe', args')
          h' in
      (
        ap (λ (r : (List String × List String) ⊎ LaunchError). (from_inl (exe', args') r).0) h'',
        ap (λ (r : (List String × List String) ⊎ LaunchError). (from_inl (exe', args') r).1) h'',
        volatile_roots-Outside exe a,
        has_inline_code-NoFlag flags args b,
      )

  authorize_with-inl :
      (args exe : List String ⊎ LaunchError) (x : List String × List String)
      → authorize_with host args exe ≡ inl x
      → (as' : List String) × (exe' : List String) × (args ≡ inl as')
        × (exe ≡ inl exe')
        × (permit host exe' as' ≡ inl x)
  authorize_with-inl (inr e) exe x h = absurd cc
  authorize_with-inl (inl args) (inr e) x h = absurd cc
  authorize_with-inl (inl args) (inl exe) x h = (args, exe, refl, refl, h)

  pub authorize-IsAuthorized :
      (command : Option String) (raw : RawArgs) (exe args : List String)
      → authorize host command raw ≡ inl (exe, args)
      → (text : String) × (command ≡ some text) × IsAuthorized host text raw exe args
  unfolding authorize
  authorize-IsAuthorized command raw exe args h =
      let (args', exe', v, r, p) =
        authorize_with-inl (validate_args raw) (resolve_executable host command) (exe, args) h in
      let (text, path, c, l, f) = resolve_executable-inl command exe' r in
      let (g, few, good) = validate_args-inl raw args' v in
      let (at_path, file) = resolve_file-inl path exe' f in
      let (e, a, outside, clean) = permit-inl exe' args' exe args p in
      let safe : IsAuthorized host text raw exe' args' = record {
        given = g;
        few = few;
        good = good;
        path = path;
        located = l;
        resolved = at_path;
        file = file;
        outside = outside;
        no_inline_code = clean;
      } in
      (
        text,
        c,
        subst (λ x. IsAuthorized host text raw x args) e
            (subst (IsAuthorized host text raw exe') a safe),
      )
