-- ===== src/Wire/Inspect.antt =====
-- `_request_id`, `_request_method` and `_looks_like_notification` of rpckit/server.py: what the
-- server reads off a raw message that may not be a valid request.
use pyrpckit.Prelude.{Bool, Option, String, false, none, not, some, true, ◌&&◌}
use pyrpckit.Json.{Json, get, has, int, is_text, obj, str}
use pyrpckit.Wire.Envelope.{RequestId, no_id, number_id, text_id}

abbrev pub id_value : Option Json → RequestId
id_value (some (str s)) = text_id s
id_value (some (int n)) = number_id n
id_value other = no_id

unfoldable pub request_id : Json → RequestId
request_id (obj fs) = id_value (get "id" fs)
request_id other = no_id

abbrev pub method_value : Option Json → Option String
method_value (some (str s)) = some s
method_value other = none

unfoldable pub request_method : Json → Option String
request_method (obj fs) = method_value (get "method" fs)
request_method other = none

abbrev pub is_str : Option Json → Bool
is_str (some (str s)) = true
is_str other = false

unfoldable pub looks_like_notification : Json → Bool
looks_like_notification (obj fs) =
    not (has "id" fs) && is_text "2.0" (get "jsonrpc" fs) && is_str (get "method" fs)
looks_like_notification other = false
