-- ===== src/Wire/Envelope.antt =====
-- `RpcRequestEnvelope` of rpckit/envelopes.py: the model's declared fields, validated as Pydantic
-- documents for `extra="forbid"`, `Literal`, `StrictStr`, `StrictInt` and the `meta` validator.
-- `none` is a `ValidationError`.
use pyrpckit.Prelude.{
  Bool, List, Option, String, [], false, if◌then◌else◌, none, some, true, ℕ, ◌&&◌, ◌>>=◌, ◌∷◌,
}
use pyrpckit.Json.{Fields, Items, Json, arr, end, get, int, is_text, keys_within, null, obj, str, ℤ}
use pyrpckit.Wire.Metadata.{validate_request_metadata}

-- `type RpcRequestId = str | int | None`
pub data RequestId : Type 0 where
  no_id : RequestId
  text_id : String → RequestId
  number_id : ℤ → RequestId

pub data Params : Type 0 where
  named : Fields → Params
  positional : Items → Params

pub record RequestEnvelope : Type 0 where
  pub id : RequestId
  -- `"id" in self.model_fields_set`
  pub has_id : Bool
  pub method : String
  pub params : Params
  pub meta : Option Fields

abbrev pub expects_response : RequestEnvelope → Bool
expects_response request = request.has_id

-- The declared type of each field, at the member's value or at its absence.
abbrev pub id_field : Option Json → Option (RequestId × Bool)
id_field none = some (no_id, false)
id_field (some null) = some (no_id, true)
id_field (some (str s)) = some (text_id s, true)
id_field (some (int n)) = some (number_id n, true)
id_field other = none

abbrev pub method_field : Option Json → Option String
method_field (some (str s)) = some s
method_field other = none

abbrev pub params_field : Option Json → Option Params
params_field none = some (named end)
params_field (some (obj fs)) = some (named fs)
params_field (some (arr vs)) = some (positional vs)
params_field other = none

abbrev pub meta_field : (Fields → Option ℕ) → Option Json → Option (Option Fields)
meta_field size none = some none
meta_field size (some value) = do fs ← validate_request_metadata size value; some (some fs)

abbrev pub envelope_keys : List String
envelope_keys = "jsonrpc" ∷ "id" ∷ "method" ∷ "params" ∷ "meta" ∷ []

abbrev build_envelope :
    Option (RequestId × Bool)
    → Option String
    → Option Params
    → Option (Option Fields)
    → Option RequestEnvelope
build_envelope (some (request_id, given)) (some name) (some values) (some metadata) =
    some
      (record { id = request_id; has_id = given; method = name; params = values; meta = metadata })
build_envelope (some i) (some name) (some values) none = none
build_envelope (some i) (some name) none metadata = none
build_envelope (some i) none values metadata = none
build_envelope none name values metadata = none

unfoldable pub envelope_validate : (Fields → Option ℕ) → Json → Option RequestEnvelope
envelope_validate size (obj fs) =
    if keys_within envelope_keys fs && is_text "2.0" (get "jsonrpc" fs)
    then build_envelope (id_field (get "id" fs)) (method_field (get "method" fs))
        (params_field (get "params" fs)) (meta_field size (get "meta" fs))
    else none
envelope_validate size other = none
