-- ===== src/ApiRegistry/Operations.antt =====
-- The operations of `ApiRegistry`. `digest` is the shortened SHA-256 of `compute_api_id`, `parse_date`
-- what `float` and `datetime.fromisoformat` make of a text.
use win_os_layer.Common.{
  ℕ, zero, suc, String, ◌⊎◌, inl, inr, Bool, ◌||◌, Option, none, some, ◌∷◌, ◌==◌, if◌then◌else◌,
  get_or,
}
use win_os_layer.Common.Dict.{lookup, insert}
use win_os_layer.Common.Text.{strip, upper, lower}
use win_os_layer.ApiRegistry.Model.{
  ApiStatus, Epoch, not_a_number, endless_past, endless_future, before_epoch, since_epoch, RawTime,
  no_time, false_time, seconds, date_text, Payload, ApiRecord, ApiRegistry, Rejection,
  fields_required, bad_status, bad_force_id, unknown_id, coerce_status, requested_status, kept_id,
  evidence_id, authorize_verified_status, last_gate, or_else,
}
use Prim.Native.String

-- `_parse_epoch` of a number, which is refused up to 0.
abbrev pub positive : Epoch → Option Epoch
positive not_a_number = some not_a_number
positive endless_past = none
positive endless_future = some endless_future
positive (before_epoch n) = none
positive (since_epoch zero) = none
positive (since_epoch (suc n)) = some (since_epoch (suc n))

-- `_parse_epoch` of the time of a record.
abbrev pub reparsed : Option Epoch → Option Epoch
reparsed none = none
reparsed (some t) = positive t

-- `issue_verification_proof`; `fresh` is the minted id.
unfoldable pub issue_verification_proof :
    {J : Type 0} → ApiRegistry J → Option String → String → ApiRegistry J × String
issue_verification_proof r wanted fresh =
    let vid = strip (get_or "" wanted) in
    let issued = if vid == "" then fresh else vid in
    (record r { issued = issued ∷ r.issued }, issued)

module _ (parse_date : String → Option Epoch) where
  -- `_parse_epoch`
  unfoldable pub parse_epoch : RawTime → Option Epoch
  parse_epoch no_time = none
  parse_epoch false_time = none
  parse_epoch (seconds n) = positive n
  parse_epoch (date_text t) = parse_date (strip t)

module _ (digest : String → String) where
  -- `compute_api_id`
  unfoldable pub compute_api_id : (method path application_id capability source : String) → String
  compute_api_id method path application_id capability source = String.◌++◌ "api_" (
      digest (
        String.◌++◌ (upper (strip method)) (
          String.◌++◌ "\n" (
            String.◌++◌ (strip path) (
              String.◌++◌ "\n" (
                String.◌++◌ (strip application_id) (
                  String.◌++◌ "\n" (
                    String.◌++◌ (strip capability) (String.◌++◌ "\n" (lower (strip source)))))))))))

module _ {J : Type 0} where
  -- The test of the fields that a payload must have.
  unfoldable pub lacks_field : Payload J → Bool
  lacks_field p =
      strip p.method == ""
      || strip p.path == ""
      || strip p.name == ""
      || strip p.source == ""
      || strip p.capability == ""

  old_input : Option (ApiRecord J) → Option J
  old_input none = none
  old_input (some old) = old.input_schema

  old_output : Option (ApiRecord J) → Option J
  old_output none = none
  old_output (some old) = old.output_schema

  unfoldable pub store : ApiRegistry J → ApiRecord J → ApiRegistry J
  store r rec = record r { by_id = insert rec.id rec r.by_id }

  -- The record that `set_status` stores.
  unfoldable pub restamped : ApiRegistry J → ApiRecord J → ApiStatus → ℕ → ApiRecord J
  restamped r old asked now = record old {
    status =
        authorize_verified_status r.issued asked old.verification_id (reparsed old.last_verified_at)
          now r.max_age;
    updated_at = now;
  }

  -- `set_status`, for the status and the record that are found; the id of a record was stripped when
  -- it was stored.
  abbrev pub set_status_with :
      ApiRegistry J
      → String
      → ℕ
      → Option ApiStatus
      → Option (ApiRecord J)
      → (ApiRegistry J × ApiRecord J) ⊎ Rejection
  set_status_with r id now none old = inr bad_status
  set_status_with r id now (some asked) none = inr unknown_id
  set_status_with r id now (some asked) (some old) =
      let rec = restamped r old asked now in inl (record r { by_id = insert id rec r.by_id }, rec)

  unfoldable pub set_status :
      ApiRegistry J → String → String → ℕ → (ApiRegistry J × ApiRecord J) ⊎ Rejection
  set_status r id status now = set_status_with r id now (coerce_status status) (lookup id r.by_id)

module _ {J : Type 0} (digest : String → String) where
  -- The id under which a payload is stored, if `force_id` can be used.
  unfoldable pub id_of : Payload J → Option String → Option String
  id_of p none = some (
      compute_api_id digest (upper (strip p.method)) (strip p.path) (strip p.application_id)
        (strip p.capability) (strip p.source))
  id_of p (some force_id) = if strip force_id == "" then none else some (strip force_id)

module _ {J : Type 0} (parse_date : String → Option Epoch) where
  -- The time of creation: that of the old record, else that of the payload, else now.
  unfoldable pub creation_time : Payload J → Option (ApiRecord J) → ℕ → Epoch
  creation_time p (some old) now = old.created_at
  creation_time p none now = get_or (since_epoch now) (parse_epoch parse_date p.created_at)

  -- The record that `register` stores, for the status that was asked for.
  unfoldable pub new_record : ApiRegistry J → Payload J → String → ApiStatus → ℕ → ApiRecord J
  unfolding old_input old_output
  new_record r p id asked now =
      let old = lookup id r.by_id in
      let stamp = parse_epoch parse_date p.last_verified_at in
      let gated =
        authorize_verified_status r.issued asked (evidence_id p.verification_id) stamp now
          r.max_age in
      record {
        id = id;
        name = strip p.name;
        method = upper (strip p.method);
        path = strip p.path;
        description = p.description;
        source = strip p.source;
        application_id = strip p.application_id;
        adapter_id = p.adapter_id;
        capability = strip p.capability;
        status = last_gate gated (kept_id p.verification_id) stamp;
        permissions = p.permissions;
        authentication_required = p.authentication_required;
        created_at = creation_time p old now;
        updated_at = now;
        last_verified_at = stamp;
        verification_id = kept_id p.verification_id;
        input_schema = or_else p.input_schema (old_input old);
        output_schema = or_else p.output_schema (old_output old);
      }

  -- `register`, for the id and the status that are found.
  abbrev pub register_with :
      ApiRegistry J
      → Payload J
      → ℕ
      → Option String
      → Option ApiStatus
      → (ApiRegistry J × ApiRecord J) ⊎ Rejection
  register_with r p now none asked = inr bad_force_id
  register_with r p now (some id) none = inr bad_status
  register_with r p now (some id) (some asked) =
      let rec = new_record r p id asked now in inl (store r rec, rec)

module _ {J : Type 0} (digest : String → String) (parse_date : String → Option Epoch) where
  unfoldable pub register :
      ApiRegistry J → Payload J → Option String → ℕ → (ApiRegistry J × ApiRecord J) ⊎ Rejection
  register r p force_id now =
      if lacks_field p
      then inr fields_required
      else register_with parse_date r p now (id_of digest p force_id)
          (requested_status p.status p.lifecycle p.d3)
