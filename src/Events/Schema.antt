-- ===== src/Events/Schema.antt =====
-- windows_os_api/core/events/schema.py, on JSON values. `byte_size` is the number of bytes of the JSON
-- text of a payload, `payload_byte_size`, a parameter.
pub mod Paths
pub mod Clean
pub mod Contents
mod Tests
use win_os_layer.Common.{
  ℕ, suc, ◌+◌, String, ◌⊎◌, inl, inr, Bool, not, ◌||◌, Option, none, some, List, [], ◌∷◌, ◌==◌, ltb,
  if◌then◌else◌, contains,
}
use win_os_layer.Common.Text.{strip}
use Prim.Native.Nat.{max}
use win_os_layer.Common.Text.{lower, underscored}

mutual
  pub data Json : Type 0 where
    null : Json
    boolean : Bool → Json
    number : String → Json
    text : String → Json
    array : Items → Json
    object : Fields → Json

  pub data Items : Type 0 where
    nil : Items
    cons : Json → Items → Items

  pub data Fields : Type 0 where
    end : Fields
    field : String → Json → Fields → Fields

abbrev pub allowed_event_types : List String
allowed_event_types =
    "agent.goal.proposed" ∷ "agent.goal.executed" ∷ "agent.goal.denied" ∷ "system.probe"
    ∷ "workflow.step.proposed" ∷ "workflow.step.executed" ∷ "api.registry.changed" ∷ "system.crash"
    ∷ []

abbrev pub allowed_provenance : List String
allowed_provenance = "internal" ∷ "agent" ∷ "api" ∷ "system" ∷ "websocket" ∷ []

abbrev pub secret_keys : List String
secret_keys =
    "api_key" ∷ "apikey" ∷ "password" ∷ "secret" ∷ "token" ∷ "credential" ∷ "credentials"
    ∷ "private_key" ∷ "privatekey" ∷ "access_token" ∷ "refresh_token" ∷ "authorization"
    ∷ "x_api_key" ∷ "x-api-key" ∷ []

abbrev pub max_payload_bytes : ℕ
max_payload_bytes = 8192

abbrev pub max_payload_depth : ℕ
max_payload_depth = 8

abbrev pub max_payload_keys : ℕ
max_payload_keys = 64

-- The test of `redact_secrets` on a key.
unfoldable pub is_secret_key : String → Bool
is_secret_key k =
    let key = lower (strip k) in contains key secret_keys || contains (underscored key) secret_keys

-- `redact_secrets`
unfoldable mutual
  pub redact_secrets : Json → Json
  redact_secrets null = null
  redact_secrets (boolean b) = boolean b
  redact_secrets (number n) = number n
  redact_secrets (text t) = text t
  redact_secrets (array xs) = array (redact_items xs)
  redact_secrets (object fs) = object (redact_fields fs)

  pub redact_items : Items → Items
  redact_items nil = nil
  redact_items (cons x xs) = cons (redact_secrets x) (redact_items xs)

  pub redact_fields : Fields → Fields
  redact_fields end = end
  redact_fields (field k v fs) =
      let rest = redact_fields fs in
      if is_secret_key k then rest else field k (redact_secrets v) rest

-- `_payload_depth`. The maximum over the members starts from `depth`, which every member exceeds,
-- so that an empty container has it.
unfoldable mutual
  pub payload_depth : Json → ℕ → ℕ
  payload_depth null depth = depth
  payload_depth (boolean b) depth = depth
  payload_depth (number n) depth = depth
  payload_depth (text t) depth = depth
  payload_depth (array xs) depth = items_depth xs depth
  payload_depth (object fs) depth = fields_depth fs depth

  pub items_depth : Items → ℕ → ℕ
  items_depth nil depth = depth
  items_depth (cons x xs) depth = max (payload_depth x (depth + 1)) (items_depth xs depth)

  pub fields_depth : Fields → ℕ → ℕ
  fields_depth end depth = depth
  fields_depth (field k v fs) depth = max (payload_depth v (depth + 1)) (fields_depth fs depth)

-- `_count_keys`
unfoldable mutual
  pub count_keys : Json → ℕ
  count_keys null = 0
  count_keys (boolean b) = 0
  count_keys (number n) = 0
  count_keys (text t) = 0
  count_keys (array xs) = count_items xs
  count_keys (object fs) = count_fields fs

  pub count_items : Items → ℕ
  count_items nil = 0
  count_items (cons x xs) = count_keys x + count_items xs

  pub count_fields : Fields → ℕ
  count_fields end = 0
  count_fields (field k v fs) = suc (count_keys v + count_fields fs)

-- The payload as an object: `None` is an empty one, and `none` stands for what is no object.
abbrev pub as_object : Json → Option Fields
as_object null = some end
as_object (object fs) = some fs
as_object (boolean b) = none
as_object (number n) = none
as_object (text t) = none
as_object (array xs) = none

module _ (byte_size : Json → ℕ) where
  -- The tests of the payload.
  unfoldable pub check_payload : Option Fields → Json ⊎ String
  check_payload none = inr "payload_not_object"
  check_payload (some fs) =
      if ltb max_payload_depth (payload_depth (object fs) 0)
      then inr "payload_too_deep"
      else if ltb max_payload_keys (count_keys (object fs))
      then inr "payload_too_many_keys"
      else if ltb max_payload_bytes (byte_size (redact_secrets (object fs)))
      then inr "payload_too_large"
      else inl (redact_secrets (object fs))

  -- `validate_and_sanitize`
  unfoldable pub validate_and_sanitize : String → Json → String → Json ⊎ String
  validate_and_sanitize event_type payload provenance =
      if strip event_type == ""
      then inr "type_invalid"
      else if not (contains event_type allowed_event_types)
      then inr "type_not_allowed"
      else if not (contains provenance allowed_provenance)
      then inr "provenance_not_allowed"
      else check_payload (as_object payload)
