-- ===== src/Audit/Chain.antt =====
-- What the chain fixes, what it leaves open, and a logger that is opened over its own file.
use win_os_layer.Common.{
  ℕ, suc, String, ◌≡◌, refl, sym, ap, ◌∙◌, ◌≢◌, inl, inr, true, Option, none, some, List, [], ◌∷◌,
  ◌++◌, arith, ◌==◌, eq_iff, Bool-cases, Option-cases, All, get_or,
}
use win_os_layer.Common.Text.{text_length}
use win_os_layer.Audit.{
  Payload, Entry, Line, blank, bad_json, non_object, object, genesis, or_genesis, IntegrityReport,
  AuditLogger, verify_lines, last_hmac, open_logger,
}
use win_os_layer.Audit.Integrity.{
  Verifies, verify_lines_of_Verifies, Verifies-of_verify_lines, IsSound,
}

-- The objects of a file, the newest first, in front of others.
abbrev pub newest_first : List Line → List Entry → List Entry
newest_first [] acc = acc
newest_first (object e ∷ lines) acc = newest_first lines (e ∷ acc)
newest_first (blank ∷ lines) acc = newest_first lines acc
newest_first (bad_json ∷ lines) acc = newest_first lines acc
newest_first (non_object ∷ lines) acc = newest_first lines acc

-- The hash of the newest object; the genesis hash where there is none.
abbrev pub newest_hash : List Entry → String
newest_hash [] = genesis
newest_hash (e ∷ es) = get_or "" e.hmac

none-ne-some : {A : Type 0} {o : Option A} {a : A} → o ≡ some a → o ≡ none → ⊥
none-ne-some e h = cc

non_empty_hash : (h : String) → text_length h ≡ 64 → or_genesis (some h) ≡ h
non_empty_hash h len = elim (Bool-cases (h == "")) [
  | inl e ↦ absurd (omega (arith, ap text_length ((eq_iff h "").0 e)))
  | inr e ↦ rw e refl
]

module _ (compute_hmac : Payload → String) where
  -- A chain read from its last hash backwards.
  abbrev Leads : List Entry → String → Type 0
  Leads [] h = h ≡ genesis
  Leads (e ∷ es) h =
      (g : String) × (e.hmac ≡ some h)
      × (compute_hmac e.payload ≡ h)
      × (e.payload.prev_hash ≡ some g)
      × Leads es g

  Verifies-Leads :
      (prev last : String) (n : ℕ) (lines : List Line) (acc : List Entry)
      → Verifies compute_hmac prev lines n last
      → Leads acc prev
      → Leads (newest_first lines acc) last
  Verifies-Leads prev last n [] acc (en, el) a = rw el a
  Verifies-Leads prev last n (blank ∷ lines) acc v a = Verifies-Leads prev last n lines acc v a
  Verifies-Leads prev last n (bad_json ∷ lines) acc v a = absurd v
  Verifies-Leads prev last n (non_object ∷ lines) acc v a = absurd v
  Verifies-Leads prev last n (object e ∷ lines) acc (m, en, h, eh, len, ep, em, v) a =
      Verifies-Leads h last m lines (e ∷ acc) v (prev, eh, em, ep, a)

  -- No two different payloads of these objects have the same HMAC, and none has the genesis hash.
  abbrev pub HasNoCollision : List Entry → List Entry → Type 0
  HasNoCollision xs ys =
      All
        (λ x. All (λ y. compute_hmac x.payload ≡ compute_hmac y.payload → x.payload ≡ y.payload) ys)
        xs

  abbrev pub AvoidsGenesis : List Entry → Type 0
  AvoidsGenesis = All (λ e. compute_hmac e.payload ≢ genesis)

  HasNoCollision-tail :
      (xs ys : List Entry) (y : Entry) → HasNoCollision xs (y ∷ ys) → HasNoCollision xs ys
  HasNoCollision-tail [] ys y c = tt
  HasNoCollision-tail (x ∷ xs) ys y (c, cs) = (c.1, HasNoCollision-tail xs ys y cs)

  Leads-unique :
      (xs ys : List Entry) (h : String)
      → HasNoCollision xs ys
      → AvoidsGenesis xs
      → AvoidsGenesis ys
      → Leads xs h
      → Leads ys h
      → xs ≡ ys
  Leads-unique [] [] h c n m a b = refl
  Leads-unique [] (y ∷ ys) h c n (m, ms) a (g, eh, em, ep, b) = absurd (m (em ∙ a))
  Leads-unique (x ∷ xs) [] h c (n, ns) m (g, eh, em, ep, a) b = absurd (n (em ∙ b))
  Leads-unique (x ∷ xs) (y ∷ ys) h (c, cs) (n, ns) (m, ms) (g, eh, em, ep, a)
        (g', eh', em', ep', b) =
      let same : x.payload ≡ y.payload = c.0 (em ∙ sym em') in
      let hash : g' ≡ g = cc (same, ep, ep') in
      let b' : Leads ys g = rw hash at b in
      ground
        (arith, same, eh, eh', Leads-unique xs ys g (HasNoCollision-tail xs ys y cs) ns ms a b')

  Verifies-newest_hash :
      (prev last : String) (n : ℕ) (lines : List Line) (acc : List Entry)
      → Verifies compute_hmac prev lines n last
      → newest_hash acc ≡ prev
      → newest_hash (newest_first lines acc) ≡ last
  Verifies-newest_hash prev last n [] acc (en, el) a = a ∙ sym el
  Verifies-newest_hash prev last n (blank ∷ lines) acc v a =
      Verifies-newest_hash prev last n lines acc v a
  Verifies-newest_hash prev last n (bad_json ∷ lines) acc v a = absurd v
  Verifies-newest_hash prev last n (non_object ∷ lines) acc v a = absurd v
  Verifies-newest_hash prev last n (object e ∷ lines) acc (m, en, h, eh, len, ep, em, v) a =
      Verifies-newest_hash h last m lines (e ∷ acc) v (ap (get_or "") eh)

  -- Two files that pass the integrity check and end in objects with the same hash, or in none, with no
  -- collision of HMACs between their objects and no object that has the genesis hash, hold the same
  -- objects in the same order.
  pub verified_files_equal :
      (xs ys : List Line)
      → HasNoCollision (newest_first xs []) (newest_first ys [])
      → AvoidsGenesis (newest_first xs [])
      → AvoidsGenesis (newest_first ys [])
      → (verify_lines compute_hmac genesis 0 1 xs).passed ≡ true
      → (verify_lines compute_hmac genesis 0 1 ys).passed ≡ true
      → newest_hash (newest_first xs []) ≡ newest_hash (newest_first ys [])
      → newest_first xs [] ≡ newest_first ys []
  verified_files_equal xs ys c g g' px py same =
      let (n, h, v) = Verifies-of_verify_lines compute_hmac genesis 0 1 xs px in
      let (m, k, w) = Verifies-of_verify_lines compute_hmac genesis 0 1 ys py in
      let hx = Verifies-newest_hash genesis h n xs [] v refl in
      let ky = Verifies-newest_hash genesis k m ys [] w refl in
      let ends : k ≡ h = sym ky ∙ sym same ∙ hx in
      let w' : Verifies compute_hmac genesis ys m h = rw ends at w in
      Leads-unique _ _ h c g g' (Verifies-Leads genesis h n xs [] v refl)
        (Verifies-Leads genesis h m ys [] w' refl)

  Verifies-prefix :
      (prev last : String) (n : ℕ) (xs ys : List Line)
      → Verifies compute_hmac prev (xs ++ ys) n last
      → (m : ℕ) × (mid : String) × Verifies compute_hmac prev xs m mid
  Verifies-prefix prev last n [] ys v = (0, prev, (refl, refl))
  Verifies-prefix prev last n (blank ∷ xs) ys v = Verifies-prefix prev last n xs ys v
  Verifies-prefix prev last n (bad_json ∷ xs) ys v = absurd v
  Verifies-prefix prev last n (non_object ∷ xs) ys v = absurd v
  Verifies-prefix prev last n (object e ∷ xs) ys (k, en, h, eh, len, ep, em, v) =
      let (m, mid, w) = Verifies-prefix h last k xs ys v in
      (suc m, mid, (m, refl, h, eh, len, ep, em, w))

  -- A file that was cut off behind any of its lines still passes the check: without the last
  -- hash, truncation at the end is not seen.
  pub truncation_verifies :
      (xs ys : List Line)
      → (verify_lines compute_hmac genesis 0 1 (xs ++ ys)).passed ≡ true
      → (verify_lines compute_hmac genesis 0 1 xs).passed ≡ true
  truncation_verifies xs ys h =
      let (n, last, v) = Verifies-of_verify_lines compute_hmac genesis 0 1 (xs ++ ys) h in
      let (m, mid, w) = Verifies-prefix genesis last n xs ys v in
      ap (λ (r : IntegrityReport). r.passed)
        (verify_lines_of_Verifies compute_hmac genesis mid m 0 1 xs w)

  last_hmac_of_Verifies :
      (prev last : String) (n : ℕ) (lines : List Line) (l : Option String)
      → Verifies compute_hmac prev lines n last
      → or_genesis l ≡ prev
      → (l' : Option String) × (last_hmac compute_hmac l lines ≡ some l') × (or_genesis l' ≡ last)
  unfolding last_hmac
  last_hmac_of_Verifies prev last n [] l (en, el) e = (l, refl, e ∙ sym el)
  last_hmac_of_Verifies prev last n (blank ∷ lines) l v e =
      last_hmac_of_Verifies prev last n lines l v e
  last_hmac_of_Verifies prev last n (bad_json ∷ lines) l v e = absurd v
  last_hmac_of_Verifies prev last n (non_object ∷ lines) l v e = absurd v
  last_hmac_of_Verifies prev last n (object o ∷ lines) l (m, en, h, eh, len, ep, em, v) e =
      last_hmac_of_Verifies h last m lines o.hmac v (rw eh (non_empty_hash h len))

  -- A logger that is opened over the file of a sound one goes on where that one stopped.
  pub open_logger_resumes :
      (max_bytes max_entries : ℕ) (max_age : Option ℕ) (a : AuditLogger)
      → IsSound compute_hmac a
      → a.unavailable_reason ≡ none
      → (b : AuditLogger) × (open_logger compute_hmac max_bytes max_entries max_age a.file ≡ some b)
        × (b.file ≡ a.file)
        × (b.prev_hash ≡ a.prev_hash)
        × (b.entry_count ≡ a.entry_count)
  open_logger_resumes max_bytes max_entries max_age a sound up = elim (Option-cases a.file) [
    | inl missing ↦
        let (zero_count, at_genesis) = rw missing at (sound up) in
        unfold open_logger in
        rw (missing, open_logger) (_, refl, missing, sym at_genesis, sym zero_count)
    | inr (lines, found) ↦
        let v = rw found at (sound up) in
        let (last, read, same) =
          last_hmac_of_Verifies genesis a.prev_hash a.entry_count lines none v refl in
        let checks =
          verify_lines_of_Verifies compute_hmac genesis a.prev_hash a.entry_count 0 1 lines v in
        unfold open_logger in
        rw (found, read, checks, open_logger) (_, refl, found, same, omega arith)
  ]
