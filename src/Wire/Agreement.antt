-- ===== src/Wire/Agreement.antt =====
-- The two readings of a message: what the server reads off the raw message, and the validated
-- envelope.
use pyrpckit.Prelude.{Option, arith, not, some, ℕ, ◌≡◌}
use pyrpckit.Json.{Fields, Json, arr, bool, float, int, null, obj, str}
use pyrpckit.Wire.Envelope.{RequestEnvelope, envelope_validate, expects_response}
use pyrpckit.Wire.Inspect.{looks_like_notification, request_id, request_method}

module _ (size : Fields → Option ℕ) where
  -- For every message that validates as a request envelope: the method, the id and whether it is a
  -- notification, read off the raw message, are those of the envelope.
  pub envelope_agrees :
      (raw : Json) (request : RequestEnvelope)
      → envelope_validate size raw ≡ some request
      → (request_method raw ≡ some request.method)
        × (request_id raw ≡ request.id)
        × (looks_like_notification raw ≡ not (expects_response request))
  unfolding envelope_validate request_method request_id looks_like_notification
  envelope_agrees (obj fs) request h = ground arith
  envelope_agrees null request h = cc
  envelope_agrees (bool b) request h = cc
  envelope_agrees (int n) request h = cc
  envelope_agrees (float t) request h = cc
  envelope_agrees (str s) request h = cc
  envelope_agrees (arr vs) request h = cc
