-- ===== src/ApiRegistry/Model.antt =====
-- windows_os_api/apps/api_registry/model.py. The clock is a natural number, and so is the distance of a
-- time of a payload from the epoch, where it is a number; a JSON object is of a
-- parameter type, SHA-256 and the parsing of a date are parameters, `upper` and `lower` change ASCII
-- letters.
use win_os_layer.Common.{
  ℕ, ◌+◌, ◌-◌, String, Bool, true, false, not, ◌||◌, Option, none, some, List, [], ◌∷◌, ◌==◌, ltb,
  if◌then◌else◌, get_or, contains,
}
use win_os_layer.Common.Dict.{Dict, lookup}
use win_os_layer.Common.Text.{strip, upper}

pub data ApiStatus : Type 0 where
  verified partial restricted unsupported error disabled : ApiStatus

-- A float that is a time: NaN, an infinity, or so many seconds before or after the epoch.
pub data Epoch : Type 0 where
  not_a_number endless_past endless_future : Epoch
  before_epoch since_epoch : ℕ → Epoch

-- The payload of `register` under `verification_id` and under `last_verified_at`.
pub data RawId : Type 0 where
  no_id false_id zero_id : RawId
  id_text : String → RawId

pub data RawTime : Type 0 where
  no_time false_time : RawTime
  seconds : Epoch → RawTime
  date_text : String → RawTime

pub data Supported : Type 0 where
  is_supported is_unsupported is_unclear : Supported

-- A D3 envelope; the empty one and what is no mapping is `none` where it stands.
pub record Envelope : Type 0 where
  pub supported : Supported
  pub error_code : String

pub record Payload (J : Type 0) : Type 0 where
  pub name : String
  pub method : String
  pub path : String
  pub description : String
  pub source : String
  pub application_id : String
  pub adapter_id : String
  pub capability : String
  pub status : Option String
  pub lifecycle : Option String
  pub d3 : Option (Option Envelope)
  pub permissions : List String
  pub authentication_required : Bool
  pub created_at : RawTime
  pub last_verified_at : RawTime
  pub verification_id : RawId
  pub input_schema : Option J
  pub output_schema : Option J

pub record ApiRecord (J : Type 0) : Type 0 where
  pub id : String
  pub name : String
  pub method : String
  pub path : String
  pub description : String
  pub source : String
  pub application_id : String
  pub adapter_id : String
  pub capability : String
  pub status : ApiStatus
  pub permissions : List String
  pub authentication_required : Bool
  pub created_at : Epoch
  pub updated_at : ℕ
  pub last_verified_at : Option Epoch
  pub verification_id : Option String
  pub input_schema : Option J
  pub output_schema : Option J

-- `_by_id`, and the ids of the proofs that were issued.
pub record ApiRegistry (J : Type 0) : Type 0 where
  pub by_id : Dict (ApiRecord J)
  pub issued : List String
  pub max_age : ℕ

pub data Rejection : Type 0 where
  fields_required bad_status bad_force_id unknown_id : Rejection

abbrev pub status_of_label : String → Option ApiStatus
status_of_label s =
    if s == "VERIFIED"
    then some verified
    else if s == "PARTIAL"
    then some partial
    else if s == "RESTRICTED"
    then some restricted
    else if s == "UNSUPPORTED"
    then some unsupported
    else if s == "ERROR"
    then some error
    else if s == "DISABLED"
    then some disabled
    else none

abbrev pub lifecycles : Dict ApiStatus
lifecycles =
    ("GENERATED", partial)
    ∷ ("UNKNOWN", partial)
    ∷ ("DISCOVERED", partial)
    ∷ ("PASS", verified)
    ∷ ("FAILED", error)
    ∷ ("FAIL", error)
    ∷ ("BLOCKED", restricted)
    ∷ ("UNSTABLE", partial)
    ∷ ("DENIED", restricted)
    ∷ ("REVOKED", disabled)
    ∷ ("OFF", disabled)
    ∷ ("INACTIVE", disabled)
    ∷ []

-- The label of `map_lifecycle_to_status`, taken for a text.
unfoldable pub map_lifecycle_to_status : String → ApiStatus
map_lifecycle_to_status lifecycle =
    let key = upper (strip lifecycle) in
    elim (status_of_label key) [
      | some status ↦ status
      | none ↦ get_or partial (lookup key lifecycles)
    ]

unfoldable pub map_d3_envelope_to_status : Option Envelope → ApiStatus
map_d3_envelope_to_status none = error
map_d3_envelope_to_status (some e) =
    let code = upper (strip e.error_code) in
    elim e.supported [
      | is_unsupported ↦
          if code == "CAPABILITY_NOT_SUPPORTED"
          then unsupported
          else if code == "CAPABILITY_UNAVAILABLE" || code == "DISCOVERY_FAILED"
          then error
          else unsupported
      | is_supported ↦ if code == "DISCOVERY_FAILED" then error else partial
      | is_unclear ↦ error
    ]

unfoldable pub coerce_status : String → Option ApiStatus
coerce_status raw = status_of_label (upper (strip raw))

-- The choice of the status in `register`.
unfoldable pub requested_status :
    Option String → Option String → Option (Option Envelope) → Option ApiStatus
requested_status (some raw) lifecycle d3 =
    if contains (upper (strip raw)) ("GENERATED" ∷ "UNKNOWN" ∷ "DISCOVERED" ∷ [])
    then some partial
    else coerce_status raw
requested_status none (some lifecycle) d3 = some (map_lifecycle_to_status lifecycle)
requested_status none none (some envelope) = some (map_d3_envelope_to_status envelope)
requested_status none none none = some partial

-- str(verification_id).strip(), where `_truthy_nonempty` holds and the value is not `False`
unfoldable pub kept_id : RawId → Option String
kept_id no_id = none
kept_id false_id = none
kept_id zero_id = some "0"
kept_id (id_text t) = if strip t == "" then none else some (strip t)

-- The id as the gate takes it: `False` and 0 are no evidence.
unfoldable pub evidence_id : RawId → Option String
evidence_id no_id = none
evidence_id false_id = none
evidence_id zero_id = none
evidence_id (id_text t) = if strip t == "" then none else some (strip t)

-- `age < 0`, which no comparison with NaN is.
abbrev pub is_future : ℕ → Epoch → Bool
is_future now not_a_number = false
is_future now endless_past = false
is_future now endless_future = true
is_future now (before_epoch n) = false
is_future now (since_epoch n) = ltb now n

-- `age > max_age_sec`, for a time that is not in the future.
abbrev pub is_stale : ℕ → Epoch → ℕ → Bool
is_stale now not_a_number max_age = false
is_stale now endless_past max_age = true
is_stale now endless_future max_age = false
is_stale now (before_epoch n) max_age = ltb max_age (now + n)
is_stale now (since_epoch n) max_age = ltb max_age (now - n)

-- `authorize_verified_status`, for an id and a time that were parsed.
unfoldable pub authorize_verified_status :
    List String → ApiStatus → Option String → Option Epoch → (now max_age : ℕ) → ApiStatus
authorize_verified_status issued verified (some vid) (some ts) now max_age =
    if not (contains vid issued)
    then partial
    else if is_future now ts
    then partial
    else if is_stale now ts max_age
    then partial
    else verified
authorize_verified_status issued verified (some vid) none now max_age = partial
authorize_verified_status issued verified none ts now max_age = partial
authorize_verified_status issued partial vid ts now max_age = partial
authorize_verified_status issued restricted vid ts now max_age = restricted
authorize_verified_status issued unsupported vid ts now max_age = unsupported
authorize_verified_status issued error vid ts now max_age = error
authorize_verified_status issued disabled vid ts now max_age = disabled

-- If VERIFIED, both fields of evidence must be there.
unfoldable pub last_gate : ApiStatus → Option String → Option Epoch → ApiStatus
last_gate verified (some vid) (some ts) = verified
last_gate verified (some vid) none = partial
last_gate verified none ts = partial
last_gate partial vid ts = partial
last_gate restricted vid ts = restricted
last_gate unsupported vid ts = unsupported
last_gate error vid ts = error
last_gate disabled vid ts = disabled

-- `or_else new old`: the schema of the payload, or the one that was there.
abbrev pub or_else : {A : Type 0} → Option A → Option A → Option A
or_else none old = old
or_else (some a) old = some a
