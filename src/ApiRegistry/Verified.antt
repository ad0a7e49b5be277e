-- ===== src/ApiRegistry/Verified.antt =====
-- What a record with the status VERIFIED says about the proofs that were issued.
use win_os_layer.Common.{
  ℕ, zero, suc, ◌+◌, ◌-◌, ◌≤◌, String, ◌≡◌, refl, sym, ap, ◌∙◌, subst, ◌⊎◌, inl, inr, true, false,
  Option, none, some, List, [], ◌∷◌, arith, ◌==◌, if◌then◌else◌, Bool-cases, get_or, contains,
}
use win_os_layer.Common.Dict.{lookup, insert, lookup-insert}
use win_os_layer.ApiRegistry.Model.{
  Epoch, not_a_number, endless_past, endless_future, before_epoch, since_epoch, is_future, is_stale,
  ApiStatus, verified, partial, restricted, unsupported, error, disabled, RawId, no_id, false_id,
  zero_id, id_text, Payload, ApiRecord, ApiRegistry, Rejection, coerce_status, requested_status,
  kept_id, evidence_id, authorize_verified_status, last_gate,
}
use win_os_layer.ApiRegistry.Operations.{
  positive, reparsed, issue_verification_proof, parse_epoch, lacks_field, id_of, new_record, store,
  register, register_with, set_status_with, restamped, set_status,
}

-- A time that is NaN, or neither in the future nor too old.
abbrev pub IsAccepted : ℕ → ℕ → Epoch → Type 0
IsAccepted now max_age not_a_number = Unit
IsAccepted now max_age endless_past = ⊥
IsAccepted now max_age endless_future = ⊥
IsAccepted now max_age (before_epoch n) = now + n ≤ max_age
IsAccepted now max_age (since_epoch n) = (n ≤ now) × (now - n ≤ max_age)

-- The evidence behind a status that is VERIFIED: an id that was issued as a proof, and a time of
-- verification, which is NaN, or not in the future and not too old when the record was written.
abbrev pub Evidence : List String → ℕ → Option String → Option Epoch → ℕ → Type 0
Evidence issued max_age vid ts now =
    (v : String) × (t : Epoch) × (vid ≡ some v)
    × (contains v issued ≡ true)
    × (ts ≡ some t)
    × IsAccepted now max_age t

pub record IsProven {J : Type 0} (r : ApiRegistry J) (rec : ApiRecord J) : Type 0 where
  pub proof :
      rec.status ≡ verified
      → Evidence r.issued r.max_age rec.verification_id rec.last_verified_at rec.updated_at

pub IsSound : {J : Type 0} → ApiRegistry J → Type 0
IsSound r = (id : String) (rec : ApiRecord _) → lookup id r.by_id ≡ some rec → IsProven r rec

positive-some : (t u : Epoch) → positive t ≡ some u → t ≡ u
positive-some not_a_number u h = ap (get_or not_a_number) h
positive-some endless_past u h = absurd cc
positive-some endless_future u h = ap (get_or endless_future) h
positive-some (before_epoch n) u h = absurd cc
positive-some (since_epoch zero) u h = absurd cc
positive-some (since_epoch (suc n)) u h = ap (get_or (since_epoch (suc n))) h

reparsed-some : (o : Option Epoch) (t : Epoch) → reparsed o ≡ some t → o ≡ some t
reparsed-some none t h = h
reparsed-some (some s) t h = ap some (positive-some s t h)

fresh-IsAccepted :
    (now max_age : ℕ) (t : Epoch)
    → is_future now t ≡ false
    → is_stale now t max_age ≡ false
    → IsAccepted now max_age t
fresh-IsAccepted now max_age not_a_number f s = tt
fresh-IsAccepted now max_age endless_past f s = cc
fresh-IsAccepted now max_age endless_future f s = cc
fresh-IsAccepted now max_age (before_epoch n) f s = ground arith
fresh-IsAccepted now max_age (since_epoch n) f s = (ground arith, ground arith)

authorize_verified_status-Evidence :
    (issued : List String) (asked : ApiStatus) (vid : Option String) (ts : Option Epoch)
    (now max_age : ℕ)
    → authorize_verified_status issued asked vid ts now max_age ≡ verified
    → Evidence issued max_age vid ts now
unfolding authorize_verified_status
authorize_verified_status-Evidence issued verified (some v) (some t) now max_age h =
    elim (Bool-cases (contains v issued)) [
      | inl c ↦ (v, t, refl, c, refl, fresh-IsAccepted now max_age t (ground arith) (ground arith))
      | inr c ↦ absurd (ground arith)
    ]
authorize_verified_status-Evidence issued verified (some v) none now max_age h = absurd cc
authorize_verified_status-Evidence issued verified none ts now max_age h = absurd cc
authorize_verified_status-Evidence issued partial vid ts now max_age h = absurd cc
authorize_verified_status-Evidence issued restricted vid ts now max_age h = absurd cc
authorize_verified_status-Evidence issued unsupported vid ts now max_age h = absurd cc
authorize_verified_status-Evidence issued error vid ts now max_age h = absurd cc
authorize_verified_status-Evidence issued disabled vid ts now max_age h = absurd cc

last_gate-verified :
    (s : ApiStatus) (vid : Option String) (ts : Option Epoch)
    → last_gate s vid ts ≡ verified
    → s ≡ verified
unfolding last_gate
last_gate-verified verified vid ts h = refl
last_gate-verified partial vid ts h = absurd cc
last_gate-verified restricted vid ts h = absurd cc
last_gate-verified unsupported vid ts h = absurd cc
last_gate-verified error vid ts h = absurd cc
last_gate-verified disabled vid ts h = absurd cc

kept_id-evidence_id : (i : RawId) (v : String) → evidence_id i ≡ some v → kept_id i ≡ some v
unfolding kept_id evidence_id
kept_id-evidence_id no_id v h = absurd cc
kept_id-evidence_id false_id v h = absurd cc
kept_id-evidence_id zero_id v h = absurd cc
kept_id-evidence_id (id_text t) v h = h

module _ {J : Type 0} where
  -- The registry after an operation, which changes nothing when it raises.
  abbrev pub after : ApiRegistry J → (ApiRegistry J × ApiRecord J) ⊎ Rejection → ApiRegistry J
  after r (inl (r', rec)) = r'
  after r (inr rejection) = r

  insert-IsSound :
      (r : ApiRegistry J) (key : String) (rec : ApiRecord J)
      → IsSound r
      → IsProven r rec
      → IsSound (record r { by_id = insert key rec r.by_id })
  unfolding IsSound
  insert-IsSound r key rec s p id found h = elim (Bool-cases (key == id)) [
    | inl e ↦
        subst (IsProven (record r { by_id = insert key rec r.by_id }))
          (ap (get_or rec) (
            sym (ap (λ b. if b then some rec else lookup id r.by_id) e)
            ∙ sym (lookup-insert key id rec r.by_id)
            ∙ h))
          (record { proof = p.proof })
    | inr e ↦ record {
      proof =
          (s id found (
            sym (ap (λ b. if b then some rec else lookup id r.by_id) e)
            ∙ sym (lookup-insert key id rec r.by_id)
            ∙ h)).proof;
    }
  ]

  restamped-IsProven :
      (r : ApiRegistry J) (old : ApiRecord J) (asked : ApiStatus) (now : ℕ)
      → IsProven r (restamped r old asked now)
  unfolding restamped
  restamped-IsProven r old asked now = record {
    proof = λ h.
        let (v, t, a, b, c, d) =
          authorize_verified_status-Evidence r.issued asked old.verification_id
            (reparsed old.last_verified_at) now r.max_age h in
        (v, t, a, b, reparsed-some old.last_verified_at t c, d);
  }

  set_status_with-IsSound :
      (r : ApiRegistry J) (id : String) (now : ℕ) (asked : Option ApiStatus)
      (old : Option (ApiRecord J))
      → IsSound r
      → IsSound (after r (set_status_with r id now asked old))
  set_status_with-IsSound r id now none old s = s
  set_status_with-IsSound r id now (some asked) none s = s
  set_status_with-IsSound r id now (some asked) (some old) s =
      insert-IsSound r id (restamped r old asked now) s (restamped-IsProven r old asked now)

  issue_verification_proof-IsSound :
      (r : ApiRegistry J) (wanted : Option String) (fresh : String)
      → IsSound r
      → IsSound (issue_verification_proof r wanted fresh).0
  unfolding IsSound issue_verification_proof
  issue_verification_proof-IsSound r wanted fresh s id rec h = record {
    proof = λ e. let (v, t, a, b, c, d) = (s id rec h).proof e in (v, t, a, ground arith, c, d);
  }

  module _ (parse_date : String → Option Epoch) where
    new_record-IsProven :
        (r : ApiRegistry J) (p : Payload J) (id : String) (asked : ApiStatus) (now : ℕ)
        → IsProven r (new_record parse_date r p id asked now)
    unfolding new_record
    new_record-IsProven r p id asked now = record {
      proof = λ h.
          let stamp = parse_epoch parse_date p.last_verified_at in
          let gated =
            authorize_verified_status r.issued asked (evidence_id p.verification_id) stamp now
              r.max_age in
          let (v, t, a, b, c, d) =
            authorize_verified_status-Evidence r.issued asked (evidence_id p.verification_id) stamp
              now r.max_age (last_gate-verified gated (kept_id p.verification_id) stamp h) in
          (v, t, kept_id-evidence_id p.verification_id v a, b, c, d);
    }

    register_with-IsSound :
        (r : ApiRegistry J) (p : Payload J) (now : ℕ) (id : Option String)
        (asked : Option ApiStatus)
        → IsSound r
        → IsSound (after r (register_with parse_date r p now id asked))
    unfolding store
    register_with-IsSound r p now none asked s = s
    register_with-IsSound r p now (some id) none s = s
    register_with-IsSound r p now (some id) (some asked) s =
        let rec = new_record parse_date r p id asked now in
        insert-IsSound r rec.id rec s (new_record-IsProven r p id asked now)

abbrev pub empty_registry : {J : Type 0} → ℕ → ApiRegistry J
empty_registry max_age = record { by_id = []; issued = []; max_age = max_age }

empty_registry-IsSound : (J : Type 0) (max_age : ℕ) → IsSound {J = J} (empty_registry max_age)
unfolding IsSound lookup
empty_registry-IsSound J max_age id rec h = absurd cc

-- What is asked of the registry, each request at its time.
pub data Request (J : Type 0) : Type 0 where
  register_api : Payload J → Option String → ℕ → Request J
  set_api_status : (id status : String) → ℕ → Request J
  issue_proof : Option String → String → Request J

module _ {J : Type 0} (digest : String → String) (parse_date : String → Option Epoch) where
  unfoldable pub serve : ApiRegistry J → Request J → ApiRegistry J
  serve r (register_api p force_id now) = after r (register digest parse_date r p force_id now)
  serve r (set_api_status id status now) = after r (set_status r id status now)
  serve r (issue_proof wanted fresh) = (issue_verification_proof r wanted fresh).0

  unfoldable pub serve_all : ApiRegistry J → List (Request J) → ApiRegistry J
  serve_all r [] = r
  serve_all r (q ∷ qs) = serve_all (serve r q) qs

  register-IsSound :
      (r : ApiRegistry J) (p : Payload J) (force_id : Option String) (now : ℕ)
      → IsSound r
      → IsSound (after r (register digest parse_date r p force_id now))
  unfolding register
  register-IsSound r p force_id now s = elim (Bool-cases (lacks_field p)) [
    | inl h ↦ rw h s
    | inr h ↦ rw h (
        register_with-IsSound parse_date r p now (id_of digest p force_id)
          (requested_status p.status p.lifecycle p.d3) s)
  ]

  serve-IsSound : (r : ApiRegistry J) (q : Request J) → IsSound r → IsSound (serve r q)
  unfolding serve set_status
  serve-IsSound r (register_api p force_id now) s = register-IsSound r p force_id now s
  serve-IsSound r (set_api_status id status now) s =
      set_status_with-IsSound r id now (coerce_status status) (lookup id r.by_id) s
  serve-IsSound r (issue_proof wanted fresh) s = issue_verification_proof-IsSound r wanted fresh s

  serve_all-IsSound_from :
      (r : ApiRegistry J) (qs : List (Request J)) → IsSound r → IsSound (serve_all r qs)
  unfolding serve_all
  serve_all-IsSound_from r [] s = s
  serve_all-IsSound_from r (q ∷ qs) s = serve_all-IsSound_from (serve r q) qs (serve-IsSound r q s)

  -- Whatever a new registry is asked, a record that it calls VERIFIED carries the id of a proof that
  -- was issued, and a time of verification that is NaN, or was neither in the future nor older than
  -- the maximal age when the record was written.
  pub serve_all-IsSound :
      (max_age : ℕ) (qs : List (Request J)) → IsSound (serve_all (empty_registry max_age) qs)
  serve_all-IsSound max_age qs =
      serve_all-IsSound_from (empty_registry max_age) qs (empty_registry-IsSound J max_age)
