-- ===== src/Audit/Integrity.antt =====
-- The chain that the logger writes is the chain that it verifies.
use win_os_layer.Common.{
  ℕ, suc, ◌+◌, String, ◌≡◌, refl, sym, ap, inl, inr, true, Option, none, some, List, [], ◌∷◌, ◌++◌,
  arith, eq_iff, eq_refl, Bool-cases, Option-cases, get_or,
}
use win_os_layer.Common.Text.{text_length}
use win_os_layer.Audit.{
  Payload, Entry, Line, blank, bad_json, non_object, object, genesis, Reason, is_some_text,
  AuditLogger, Io, needs_rotation, rotate_if_needed, verify_lines, verify_integrity, signed, log,
}

is_some_text-true : (o : Option String) (prev : String) → is_some_text o prev ≡ true → o ≡ some prev
is_some_text-true none prev h = cc
is_some_text-true (some t) prev h = ap some ((eq_iff t prev).0 h)

module _ (compute_hmac : Payload → String) where
  -- The lines form a chain of `n` objects from the hash `prev` to the hash `last`.
  abbrev pub Verifies : String → List Line → ℕ → String → Type 0
  Verifies prev [] n last = (n ≡ 0) × (last ≡ prev)
  Verifies prev (blank ∷ lines) n last = Verifies prev lines n last
  Verifies prev (bad_json ∷ lines) n last = ⊥
  Verifies prev (non_object ∷ lines) n last = ⊥
  Verifies prev (object e ∷ lines) n last =
      (m : ℕ) × (n ≡ suc m)
      × (h : String) × (e.hmac ≡ some h)
      × (text_length h ≡ 64)
      × (e.payload.prev_hash ≡ some prev)
      × (compute_hmac e.payload ≡ h)
      × Verifies h lines m last

  pub verify_lines_of_Verifies :
      (prev last : String) (n checked lineno : ℕ) (lines : List Line)
      → Verifies prev lines n last
      → verify_lines compute_hmac prev checked lineno lines ≡ record {
        passed = true;
        entries_checked = checked + n;
        reason = Reason.verified;
        available = true;
      }
  unfolding verify_lines
  verify_lines_of_Verifies prev last n checked lineno [] v = ground arith
  verify_lines_of_Verifies prev last n checked lineno (blank ∷ lines) v =
      verify_lines_of_Verifies prev last n checked (lineno + 1) lines v
  verify_lines_of_Verifies prev last n checked lineno (bad_json ∷ lines) v = absurd v
  verify_lines_of_Verifies prev last n checked lineno (non_object ∷ lines) v = absurd v
  verify_lines_of_Verifies prev last n checked lineno (object e ∷ lines)
        (m, en, h, eh, len, ep, em, v) =
      let rest = verify_lines_of_Verifies h last m (checked + 1) (lineno + 1) lines v in
      ground (arith, rest, eq_refl prev, eq_refl h)

  object_accepted :
      (prev : String) (checked lineno : ℕ) (e : Entry) (lines : List Line)
      → (verify_lines compute_hmac prev checked lineno (object e ∷ lines)).passed ≡ true
      → (e.hmac ≡ some (get_or "" e.hmac))
        × (text_length (get_or "" e.hmac) ≡ 64)
        × (e.payload.prev_hash ≡ some prev)
        × (compute_hmac e.payload ≡ get_or "" e.hmac)
        × ((verify_lines compute_hmac (get_or "" e.hmac) (checked + 1) (lineno + 1) lines).passed
            ≡ true)
  unfolding verify_lines
  object_accepted prev checked lineno e lines h = (
    ground arith,
    ground arith,
    is_some_text-true e.payload.prev_hash prev (ground arith),
    (eq_iff _ _).0 (ground arith),
    ground arith,
  )

  pub Verifies-of_verify_lines :
      (prev : String) (checked lineno : ℕ) (lines : List Line)
      → (verify_lines compute_hmac prev checked lineno lines).passed ≡ true
      → (n : ℕ) × (last : String) × Verifies prev lines n last
  unfolding verify_lines
  Verifies-of_verify_lines prev checked lineno [] h = (0, prev, (refl, refl))
  Verifies-of_verify_lines prev checked lineno (blank ∷ lines) h =
      Verifies-of_verify_lines prev checked (lineno + 1) lines h
  Verifies-of_verify_lines prev checked lineno (bad_json ∷ lines) h = cc
  Verifies-of_verify_lines prev checked lineno (non_object ∷ lines) h = cc
  Verifies-of_verify_lines prev checked lineno (object e ∷ lines) h =
      let accepted = object_accepted prev checked lineno e lines h in
      let (n, last, v) =
        Verifies-of_verify_lines (get_or "" e.hmac) (checked + 1) (lineno + 1) lines accepted.4 in
      (suc n, last, (n, refl, get_or "" e.hmac, accepted.0, accepted.1, accepted.2, accepted.3, v))

  Verifies-append :
      (prev last : String) (n : ℕ) (lines : List Line) (p : Payload)
      → Verifies prev lines n last
      → text_length (compute_hmac (signed compute_hmac p last).payload) ≡ 64
      → Verifies prev
          (lines ++ object (signed compute_hmac p last) ∷ [])
          (n + 1)
          (compute_hmac (signed compute_hmac p last).payload)
  Verifies-append prev last n [] p (en, el) len =
      (0, omega arith, _, refl, len, ap some el, refl, (refl, refl))
  Verifies-append prev last n (blank ∷ lines) p v len = Verifies-append prev last n lines p v len
  Verifies-append prev last n (bad_json ∷ lines) p v len = absurd v
  Verifies-append prev last n (non_object ∷ lines) p v len = absurd v
  Verifies-append prev last n (object e ∷ lines) p (m, en, h, eh, l, ep, em, v) len =
      (m + 1, omega arith, h, eh, l, ep, em, Verifies-append h last m lines p v len)

  -- The state of the logger agrees with its file: the file verifies, and the logger remembers how
  -- many objects it holds and the hash of the last one.
  abbrev pub Agrees : Option (List Line) → ℕ → String → Type 0
  Agrees none n last = (n ≡ 0) × (last ≡ genesis)
  Agrees (some lines) n last = Verifies genesis lines n last

  -- A logger that is available agrees with its file.
  abbrev pub IsSound : AuditLogger → Type 0
  IsSound a = a.unavailable_reason ≡ none → Agrees a.file a.entry_count a.prev_hash

  rotate-Agrees :
      (a : AuditLogger) (io : Io)
      → Agrees a.file a.entry_count a.prev_hash
      → Verifies genesis
          (get_or [] (rotate_if_needed a io).file)
          (rotate_if_needed a io).entry_count
          (rotate_if_needed a io).prev_hash
  rotate-Agrees a io v = elim (Option-cases a.file) [
    | inl missing ↦
        unfold rotate_if_needed in rw (missing, rotate_if_needed) (rw missing (rw missing at v))
    | inr (lines, found) ↦ elim (Bool-cases (needs_rotation a io)) [
      | inl due ↦ unfold rotate_if_needed in rw (found, due, rotate_if_needed) (refl, refl)
      | inr not_due ↦
          unfold rotate_if_needed in
          rw (found, not_due, rotate_if_needed) (rw found (rw found at v))
    ]
  ]

  module _ (length_hmac : (p : Payload) → text_length (compute_hmac p) ≡ 64) where
    -- Every call of `log`, refused, failing or rotating the file, keeps the logger sound.
    pub log-IsSound :
        (a : AuditLogger) (io : Io) (p : Payload) → IsSound a → IsSound (log compute_hmac a io p).0
    log-IsSound a io p sound = elim (Option-cases a.unavailable_reason) [
      | inr (reason, gone) ↦ unfold log in rw (gone, log) sound
      | inl up ↦ elim (Option-cases io.failure) [
        | inr ((reason, leftover), failing) ↦ unfold log in rw (up, failing, log) (λ h. cc)
        | inl fine ↦
            let v = rotate-Agrees a io (sound up) in
            unfold log in
            rw (up, fine, log)
              (λ _.
                Verifies-append genesis _ _ (get_or [] (rotate_if_needed a io).file) p v
                  (length_hmac _))
      ]
    ]

  -- A sound logger that is available passes its own integrity check, with the number of entries
  -- that it counted.
  pub verify_integrity_of_IsSound :
      (a : AuditLogger)
      → IsSound a
      → a.unavailable_reason ≡ none
      → ((verify_integrity compute_hmac a).passed ≡ true)
        × ((verify_integrity compute_hmac a).entries_checked ≡ a.entry_count)
  verify_integrity_of_IsSound a sound up = elim (Option-cases a.file) [
    | inl missing ↦
        unfold verify_integrity in
        rw (up, missing, verify_integrity) (refl, sym (rw missing at (sound up)).0)
    | inr (lines, found) ↦
        let checks =
          verify_lines_of_Verifies genesis a.prev_hash a.entry_count 0 1 lines
            (rw found at (sound up)) in
        unfold verify_integrity in rw (up, found, verify_integrity) (rw checks (refl, omega arith))
  ]
