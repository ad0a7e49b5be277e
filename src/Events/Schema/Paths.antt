-- ===== src/Events/Schema/Paths.antt =====
-- What a redacted payload holds, path by path.
use win_os_layer.Common.{
  String, ◌≡◌, refl, sym, ap, subst, ◌↔◌, ◌⊎◌, inl, inr, false, List, [], ◌∷◌, Bool-cases,
}
use win_os_layer.Events.Schema.{
  Json, null, boolean, number, text, array, object, Items, nil, cons, Fields, end, field,
  is_secret_key, redact_secrets, redact_items, redact_fields,
}

-- A path of keys leads from a value to a value inside it; it passes into every item of an array.
mutual
  pub Leads : Json → List String → Json → Type 0
  Leads null p u = (p ≡ []) × (u ≡ null)
  Leads (boolean b) p u = (p ≡ []) × (u ≡ boolean b)
  Leads (number n) p u = (p ≡ []) × (u ≡ number n)
  Leads (text t) p u = (p ≡ []) × (u ≡ text t)
  Leads (array xs) p u = ((p ≡ []) × (u ≡ array xs)) ⊎ LeadsItems xs p u
  Leads (object fs) p u = ((p ≡ []) × (u ≡ object fs)) ⊎ LeadsFields fs p u

  pub LeadsItems : Items → List String → Json → Type 0
  LeadsItems nil p u = ⊥
  LeadsItems (cons x xs) p u = Leads x p u ⊎ LeadsItems xs p u

  pub LeadsFields : Fields → List String → Json → Type 0
  LeadsFields end p u = ⊥
  LeadsFields (field k v fs) p u =
      ((q : List String) × (p ≡ k ∷ q) × Leads v q u) ⊎ LeadsFields fs p u

-- No key of the path is a secret one.
abbrev pub IsOpen : List String → Type 0
IsOpen [] = Unit
IsOpen (k ∷ p) = (is_secret_key k ≡ false) × IsOpen p

IsOpen-nil : (p : List String) → p ≡ [] → IsOpen p
IsOpen-nil p e = subst IsOpen (sym e) tt

IsOpen-cons :
    (p q : List String) (k : String) → p ≡ k ∷ q → is_secret_key k ≡ false → IsOpen q → IsOpen p
IsOpen-cons p q k e h o = subst IsOpen (sym e) (h, o)

-- What a path finds in a redacted value comes from what it finds in the value.
abbrev FromValue : Json → Type 0
FromValue v =
    (p : List String) (u : Json)
    → Leads (redact_secrets v) p u
    → (w : Json) × Leads v p w × (u ≡ redact_secrets w) × IsOpen p

abbrev FromFields : Fields → Type 0
FromFields fs =
    (p : List String) (u : Json)
    → LeadsFields (redact_fields fs) p u
    → (w : Json) × LeadsFields fs p w × (u ≡ redact_secrets w) × IsOpen p

from_field :
    (k : String) (v : Json) (fs : Fields)
    → FromValue v
    → FromFields fs
    → is_secret_key k ≡ false
    → (p : List String) (u : Json)
    → ((q : List String) × (p ≡ k ∷ q) × Leads (redact_secrets v) q u)
      ⊎ LeadsFields (redact_fields fs) p u
    → (w : Json) × LeadsFields (field k v fs) p w × (u ≡ redact_secrets w) × IsOpen p
unfolding Leads
from_field k v fs from_v from_fs s p u (inl (q, e, h)) =
    let (w, l, f, o) = from_v q u h in (w, inl (q, e, l), f, IsOpen-cons p q k e s o)
from_field k v fs from_v from_fs s p u (inr h) =
    let (w, l, e, o) = from_fs p u h in (w, inr l, e, o)

mutual
  unfolding redact_secrets Leads

  from_redacted :
      (v : Json) (p : List String) (u : Json)
      → Leads (redact_secrets v) p u
      → (w : Json) × Leads v p w × (u ≡ redact_secrets w) × IsOpen p
  from_redacted null p u (e, f) = (null, (e, refl), f, IsOpen-nil p e)
  from_redacted (boolean b) p u (e, f) = (boolean b, (e, refl), f, IsOpen-nil p e)
  from_redacted (number n) p u (e, f) = (number n, (e, refl), f, IsOpen-nil p e)
  from_redacted (text t) p u (e, f) = (text t, (e, refl), f, IsOpen-nil p e)
  from_redacted (array xs) p u (inl (e, f)) = (array xs, inl (e, refl), f, IsOpen-nil p e)
  from_redacted (array xs) p u (inr h) = let (w, l, e, o) = from_items xs p u h in (w, inr l, e, o)
  from_redacted (object fs) p u (inl (e, f)) = (object fs, inl (e, refl), f, IsOpen-nil p e)
  from_redacted (object fs) p u (inr h) =
      let (w, l, e, o) = from_fields fs p u h in (w, inr l, e, o)

  from_items :
      (xs : Items) (p : List String) (u : Json)
      → LeadsItems (redact_items xs) p u
      → (w : Json) × LeadsItems xs p w × (u ≡ redact_secrets w) × IsOpen p
  from_items nil p u h = absurd h
  from_items (cons x xs) p u (inl h) = let (w, l, e, o) = from_redacted x p u h in (w, inl l, e, o)
  from_items (cons x xs) p u (inr h) = let (w, l, e, o) = from_items xs p u h in (w, inr l, e, o)

  from_fields :
      (fs : Fields) (p : List String) (u : Json)
      → LeadsFields (redact_fields fs) p u
      → (w : Json) × LeadsFields fs p w × (u ≡ redact_secrets w) × IsOpen p
  from_fields end p u h = absurd h
  from_fields (field k v fs) p u h = elim (Bool-cases (is_secret_key k)) [
    | inl s ↦ let (w, l, e, o) = from_fields fs p u (rw s at h) in (w, inr l, e, o)
    | inr s ↦ from_field k v fs (from_redacted v) (from_fields fs) s p u (rw s at h)
  ]

-- What a path finds in a value is found redacted in the redacted value, if no key is secret.
mutual
  unfolding redact_secrets Leads

  to_redacted :
      (v : Json) (p : List String) (w : Json)
      → IsOpen p
      → Leads v p w
      → Leads (redact_secrets v) p (redact_secrets w)
  to_redacted null p w o (e, f) = (e, ap redact_secrets f)
  to_redacted (boolean b) p w o (e, f) = (e, ap redact_secrets f)
  to_redacted (number n) p w o (e, f) = (e, ap redact_secrets f)
  to_redacted (text t) p w o (e, f) = (e, ap redact_secrets f)
  to_redacted (array xs) p w o (inl (e, f)) = inl (e, ap redact_secrets f)
  to_redacted (array xs) p w o (inr h) = inr (to_items xs p w o h)
  to_redacted (object fs) p w o (inl (e, f)) = inl (e, ap redact_secrets f)
  to_redacted (object fs) p w o (inr h) = inr (to_fields fs p w o h)

  to_items :
      (xs : Items) (p : List String) (w : Json)
      → IsOpen p
      → LeadsItems xs p w
      → LeadsItems (redact_items xs) p (redact_secrets w)
  to_items nil p w o h = absurd h
  to_items (cons x xs) p w o (inl h) = inl (to_redacted x p w o h)
  to_items (cons x xs) p w o (inr h) = inr (to_items xs p w o h)

  to_fields :
      (fs : Fields) (p : List String) (w : Json)
      → IsOpen p
      → LeadsFields fs p w
      → LeadsFields (redact_fields fs) p (redact_secrets w)
  to_fields end p w o h = absurd h
  to_fields (field k v fs) p w o (inl (q, e, h)) =
      let open_q = subst IsOpen e o in rw (open_q.0) (inl (q, e, to_redacted v q w open_q.1 h))
  to_fields (field k v fs) p w o (inr h) = elim (Bool-cases (is_secret_key k)) [
    | inl s ↦ rw s (to_fields fs p w o h)
    | inr s ↦ rw s (inr (to_fields fs p w o h))
  ]

-- A path leads to a value in the redacted payload exactly if no key of it is secret and the value is
-- the redaction of one that the path leads to in the payload.
pub Leads-redact_secrets :
    (v : Json) (p : List String) (u : Json)
    → Leads (redact_secrets v) p u ↔ ((w : Json) × Leads v p w × (u ≡ redact_secrets w) × IsOpen p)
Leads-redact_secrets v p u = (
  from_redacted v p u,
  λ found.
      subst (Leads (redact_secrets v) p) (sym found.2) (to_redacted v p found.0 found.3 found.1),
)
