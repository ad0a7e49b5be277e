-- ===== src/ApiRegistry/Tests.antt =====
-- Runs of the registry of APIs.
use win_os_layer.Common.{ℕ, String, ◌≡◌, refl, true, Option, none, some, List, [], ◌∷◌}
use win_os_layer.Common.Dict.{lookup, insert}
use win_os_layer.Common.Text.{strip, upper}
use win_os_layer.ApiRegistry.Model.{
  Epoch, not_a_number, since_epoch, ApiStatus, verified, partial, RawId, id_text, RawTime, no_time,
  seconds, Payload, ApiRegistry, coerce_status, requested_status, kept_id, evidence_id,
  authorize_verified_status, last_gate,
}
use win_os_layer.ApiRegistry.Operations.{
  issue_verification_proof, parse_epoch, lacks_field, id_of, new_record, store, register, restamped,
  set_status,
}
use win_os_layer.ApiRegistry.Model.{ApiRecord, no_id}
use win_os_layer.Common.{inl}
use win_os_layer.ApiRegistry.Verified.{
  IsSound, Request, register_api, set_api_status, issue_proof, serve, serve_all, empty_registry,
  serve_all-IsSound,
}

abbrev id_digest : String → String
id_digest s = s

abbrev no_date : String → Option Epoch
no_date s = none

abbrev payload : RawId → RawTime → Payload ℕ
payload vid time = record {
  name = "open";
  method = "post";
  path = "/open";
  description = "";
  source = "adapter";
  application_id = "a";
  adapter_id = "";
  capability = "open";
  status = some " verified ";
  lifecycle = none;
  d3 = none;
  permissions = [];
  authentication_required = true;
  created_at = no_time;
  last_verified_at = time;
  verification_id = vid;
  input_schema = none;
  output_schema = none;
}

abbrev claim : Request ℕ
claim = register_api (payload (id_text "v1") (seconds (since_epoch 100))) (some "api") 150

abbrev run : List (Request ℕ) → ApiRegistry ℕ
run = serve_all id_digest no_date (empty_registry 60)

abbrev status_now : ApiRegistry ℕ → Option ApiStatus
status_now r = elim (lookup "api" r.by_id) [ none ↦ none | some rec ↦ some rec.status ]

invented_id : status_now (run (claim ∷ [])) ≡ some partial
unfolding serve_all serve register new_record store lacks_field id_of requested_status coerce_status
    kept_id evidence_id authorize_verified_status last_gate parse_epoch strip upper lookup insert
invented_id = refl

issued_id : status_now (run (issue_proof (some "v1") "" ∷ claim ∷ [])) ≡ some verified
unfolding serve_all serve register new_record store lacks_field id_of requested_status coerce_status
    kept_id evidence_id authorize_verified_status last_gate parse_epoch strip upper lookup insert
    issue_verification_proof
issued_id = refl

-- A time that is NaN is never too old.
nan_id :
    status_now (
      run (
        issue_proof (some "v1") ""
        ∷ register_api (payload (id_text "v1") (seconds not_a_number)) (some "api") 9000
        ∷ []))
    ≡ some verified
unfolding serve_all serve register new_record store lacks_field id_of requested_status coerce_status
    kept_id evidence_id authorize_verified_status last_gate parse_epoch strip upper lookup insert
    issue_verification_proof
nan_id = refl

stale_id :
    status_now (run (issue_proof (some "v1") "" ∷ claim ∷ set_api_status "api" "VERIFIED" 200 ∷ []))
    ≡ some partial
unfolding serve_all serve register new_record store lacks_field id_of requested_status coerce_status
    kept_id evidence_id authorize_verified_status last_gate parse_epoch strip upper lookup insert
    issue_verification_proof set_status restamped
stale_id = refl

serve_all-IsSound_example : IsSound (run (issue_proof (some "v1") "" ∷ claim ∷ []))
serve_all-IsSound_example =
    serve_all-IsSound id_digest no_date 60 (issue_proof (some "v1") "" ∷ claim ∷ [])

abbrev early : Payload ℕ
early = payload no_id no_time

abbrev later_payload : Payload ℕ
later_payload = payload (id_text "v1") (seconds (since_epoch 100))

abbrev first_record : ApiRecord ℕ
first_record = new_record no_date (empty_registry 60) early "api" verified 150

abbrev first_registry : ApiRegistry ℕ
first_registry = store (empty_registry 60) first_record

abbrev second_record : ApiRecord ℕ
second_record = new_record no_date first_registry later_payload "api" verified 170

abbrev second_registry : ApiRegistry ℕ
second_registry = store first_registry second_record

first_registered :
    register id_digest no_date (empty_registry 60) early (some "api") 150
    ≡ inl (first_registry, first_record)
unfolding register lacks_field id_of requested_status coerce_status strip upper
first_registered = refl

second_registered :
    register id_digest no_date first_registry later_payload (some " api ") 170
    ≡ inl (second_registry, second_record)
unfolding register lacks_field id_of requested_status coerce_status strip upper
second_registered = refl

one_id : id_of id_digest early (some "api") ≡ id_of id_digest later_payload (some " api ")
unfolding id_of strip
one_id = refl
