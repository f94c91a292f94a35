-- ===== src/Wire/Tests.antt =====
-- Runs and witnesses of the theorems on messages.
use pyrpckit.Prelude.{Option, none, not, refl, some, true, ℕ, ◌≡◌}
use pyrpckit.Json.{Fields, Json, end, field, int, obj, pos, str}
use pyrpckit.Wire.Metadata.{validate_request_metadata}
use pyrpckit.Wire.Envelope.{RequestEnvelope, envelope_validate, named, number_id}
use pyrpckit.Wire.Inspect.{looks_like_notification, request_id, request_method}
use pyrpckit.Wire.Agreement.{envelope_agrees}

abbrev size : Fields → Option ℕ
size end = some 2
size (field key item fs) = some 64

unsupported_metadata : validate_request_metadata size (obj (field "user" (str "me") end)) ≡ none
unfolding validate_request_metadata
unsupported_metadata = refl

abbrev ping_message : Json
ping_message =
    obj (field "jsonrpc" (str "2.0") (field "id" (int (pos 7)) (field "method" (str "echo") end)))

abbrev ping_request : RequestEnvelope
ping_request = record {
  id = number_id (pos 7);
  has_id = true;
  method = "echo";
  params = named end;
  meta = none;
}

envelope_agrees_example :
    (request_method ping_message ≡ some "echo")
    × (request_id ping_message ≡ number_id (pos 7))
    × (looks_like_notification ping_message ≡ not true)
unfolding envelope_validate
envelope_agrees_example = envelope_agrees size ping_message ping_request refl
