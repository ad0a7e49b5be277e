-- ===== src/Events/Schema/Tests.antt =====
-- Runs of the sanitizer.
use win_os_layer.Common.{ℕ, ◌≡◌, refl, ◌↔◌, inr, List, [], ◌∷◌, All}
use win_os_layer.Common.Text.{strip}
use win_os_layer.Events.Schema.{
  Json, text, array, object, nil, cons, end, field, is_secret_key, redact_secrets, payload_depth,
  count_keys, check_payload, validate_and_sanitize,
}
use win_os_layer.Common.Text.{lower, underscored}
use win_os_layer.Events.Bus.{Event, receive, received}
use win_os_layer.Events.Bus.Requests.{Request, publish_event, enter}
use win_os_layer.Events.Schema.Paths.{Leads, IsOpen, Leads-redact_secrets}
use win_os_layer.Events.Schema.Contents.{IsCleanEvent, requested_bus, serve_all-IsClean}

abbrev login : Json
login = object (
    field "user" (text "ada") (
      field " X-API-Key" (text "k")
        (field "list" (array (cons (object (field "Password" (text "p") end)) nil)) end)))

redacted :
    redact_secrets login
    ≡ object (field "user" (text "ada") (field "list" (array (cons (object end) nil)) end))
unfolding redact_secrets is_secret_key lower underscored strip
redacted = refl

abbrev two_bytes : Json → ℕ
two_bytes v = 2

unknown_type :
    validate_and_sanitize two_bytes "admin.granted" login "internal" ≡ inr "type_not_allowed"
unfolding validate_and_sanitize strip
unknown_type = refl

no_object :
    validate_and_sanitize two_bytes "system.probe" (text "x") "api" ≡ inr "payload_not_object"
unfolding validate_and_sanitize check_payload strip
no_object = refl

depth_of_login : payload_depth login 0 ≡ 3
unfolding payload_depth
depth_of_login = refl

keys_of_login : count_keys login ≡ 4
unfolding count_keys
keys_of_login = refl

Leads-redact_secrets_example : Leads (redact_secrets login) ("user" ∷ []) (text "ada") ↔ (
    (w : Json) × Leads login ("user" ∷ []) w
    × (text "ada" ≡ redact_secrets w)
    × IsOpen ("user" ∷ []))
Leads-redact_secrets_example = Leads-redact_secrets login ("user" ∷ []) (text "ada")

abbrev probe : Event Json
probe = record { type = "system.probe"; payload = login; id = "e"; ts = 0; provenance = "" }

abbrev requests : List (Request Json)
requests = enter ∷ publish_event probe ∷ []

serve_all-IsClean_example :
    All (IsCleanEvent two_bytes) (requested_bus two_bytes two_bytes 1 10 2 100 requests).history
    × ((i : ℕ) (e : Event Json)
        → (receive (requested_bus two_bytes two_bytes 1 10 2 100 requests) i).1 ≡ received e
        → IsCleanEvent two_bytes e)
serve_all-IsClean_example = serve_all-IsClean two_bytes two_bytes 1 10 2 100 requests
