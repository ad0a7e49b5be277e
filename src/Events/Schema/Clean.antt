-- ===== src/Events/Schema/Clean.antt =====
-- What the sanitizer lets pass.
use win_os_layer.Common.{
  ℕ, ◌+◌, ◌≤◌, String, ◌≡◌, refl, sym, subst, ◌⊎◌, inl, inr, Bool, true, not, Option, none, some,
  List, arith, ◌==◌, if◌then◌else◌, contains,
}
use win_os_layer.Common.Text.{strip}
use win_os_layer.Events.Schema.{
  Json, null, boolean, number, text, array, object, Items, nil, cons, Fields, end, field,
  allowed_event_types, allowed_provenance, max_payload_bytes, max_payload_depth, max_payload_keys,
  redact_secrets, redact_items, redact_fields, payload_depth, items_depth, fields_depth, count_keys,
  count_items, count_fields, as_object, check_payload, validate_and_sanitize,
}
use win_os_layer.Events.Schema.Paths.{Leads, IsOpen, Leads-redact_secrets}

-- What subscribers and the history may see: a type and a provenance that are allowed, and an object
-- within the limits, in which no key is secret at any depth.
pub record IsClean (byte_size : Json → ℕ) (event_type : String) (payload : Json)
    (provenance : String) : Type 0 where
  pub known_type : contains event_type allowed_event_types ≡ true
  pub known_provenance : contains provenance allowed_provenance ≡ true
  pub fields : Fields
  pub is_object : payload ≡ object fields
  pub shallow : payload_depth payload 0 ≤ max_payload_depth
  pub few_keys : count_keys payload ≤ max_payload_keys
  pub small : byte_size payload ≤ max_payload_bytes
  pub no_secrets : (p : List String) (u : Json) → Leads payload p u → IsOpen p

mutual
  unfolding redact_secrets payload_depth

  depth-redact_secrets : (v : Json) (d : ℕ) → payload_depth (redact_secrets v) d ≤ payload_depth v d
  depth-redact_secrets null d = omega arith
  depth-redact_secrets (boolean b) d = omega arith
  depth-redact_secrets (number n) d = omega arith
  depth-redact_secrets (text t) d = omega arith
  depth-redact_secrets (array xs) d = depth-redact_items xs d
  depth-redact_secrets (object fs) d = depth-redact_fields fs d

  depth-redact_items : (xs : Items) (d : ℕ) → items_depth (redact_items xs) d ≤ items_depth xs d
  depth-redact_items nil d = omega arith
  depth-redact_items (cons x xs) d =
      omega (arith, depth-redact_secrets x (d + 1), depth-redact_items xs d)

  depth-redact_fields :
      (fs : Fields) (d : ℕ) → fields_depth (redact_fields fs) d ≤ fields_depth fs d
  depth-redact_fields end d = omega arith
  depth-redact_fields (field k v fs) d =
      ground (arith, depth-redact_secrets v (d + 1), depth-redact_fields fs d)

mutual
  unfolding redact_secrets count_keys

  count-redact_secrets : (v : Json) → count_keys (redact_secrets v) ≤ count_keys v
  count-redact_secrets null = omega arith
  count-redact_secrets (boolean b) = omega arith
  count-redact_secrets (number n) = omega arith
  count-redact_secrets (text t) = omega arith
  count-redact_secrets (array xs) = count-redact_items xs
  count-redact_secrets (object fs) = count-redact_fields fs

  count-redact_items : (xs : Items) → count_items (redact_items xs) ≤ count_items xs
  count-redact_items nil = omega arith
  count-redact_items (cons x xs) = omega (arith, count-redact_secrets x, count-redact_items xs)

  count-redact_fields : (fs : Fields) → count_fields (redact_fields fs) ≤ count_fields fs
  count-redact_fields end = omega arith
  count-redact_fields (field k v fs) =
      ground (arith, count-redact_secrets v, count-redact_fields fs)

guards :
    (blank known allowed : Bool) (r : Json ⊎ String) (clean : Json)
    → (if blank
        then inr "type_invalid"
        else if not known
        then inr "type_not_allowed"
        else if not allowed
        then inr "provenance_not_allowed"
        else r)
      ≡ inl clean
    → (known ≡ true) × (allowed ≡ true) × (r ≡ inl clean)
guards blank known allowed r clean h = ground arith

module _ (byte_size : Json → ℕ) where
  -- The limits of the payload, from the tests that were passed.
  check_payload-inl :
      (o : Option Fields) (clean : Json)
      → check_payload byte_size o ≡ inl clean
      → (fs : Fields) × (clean ≡ redact_secrets (object fs))
        × (payload_depth (object fs) 0 ≤ max_payload_depth)
        × (count_keys (object fs) ≤ max_payload_keys)
        × (byte_size (redact_secrets (object fs)) ≤ max_payload_bytes)
  unfolding check_payload
  check_payload-inl none clean h = absurd cc
  check_payload-inl (some fs) clean h = (fs, ground arith, ground arith, ground arith, ground arith)

  passed :
      (event_type : String) (payload : Json) (provenance : String) (clean : Json)
      → validate_and_sanitize byte_size event_type payload provenance ≡ inl clean
      → (contains event_type allowed_event_types ≡ true)
        × (contains provenance allowed_provenance ≡ true)
        × (check_payload byte_size (as_object payload) ≡ inl clean)
  unfolding validate_and_sanitize
  passed event_type payload provenance clean h =
      guards (strip event_type == "") (contains event_type allowed_event_types)
        (contains provenance allowed_provenance) (check_payload byte_size (as_object payload)) clean
        h

  -- Whatever is published, the sanitizer lets it pass only as a clean event.
  pub validate_and_sanitize-IsClean :
      (event_type : String) (payload : Json) (provenance : String) (clean : Json)
      → validate_and_sanitize byte_size event_type payload provenance ≡ inl clean
      → IsClean byte_size event_type clean provenance
  validate_and_sanitize-IsClean event_type payload provenance clean h =
      let (known_type, known_provenance, checked) = passed event_type payload provenance clean h in
      let (fs, e, shallow, few, small) = check_payload-inl (as_object payload) clean checked in
      subst (λ v. IsClean byte_size event_type v provenance) (sym e)
        (record {
          known_type = known_type;
          known_provenance = known_provenance;
          fields = redact_fields fs;
          is_object = unfold redact_secrets in refl;
          shallow = omega (arith, depth-redact_secrets (object fs) 0, shallow);
          few_keys = omega (arith, count-redact_secrets (object fs), few);
          small = small;
          no_secrets = λ p u l. ((Leads-redact_secrets (object fs) p u).0 l).3;
        })
