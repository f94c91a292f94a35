-- ===== src/Runtime/Control.antt =====
-- Messages that the reader handles itself: `$/cancelRequest` and `$/ping` (rpckit/runtime.py).
use pyrpckit.Prelude.{
  Bool, Option, [], false, if◌then◌else◌, none, not, some, true, ℕ, ◌&&◌, ◌||◌, ◌∷◌,
}
use pyrpckit.Json.{Fields, Json, end, get, has, is_text, keys_are, keys_within, obj}
use pyrpckit.Wire.Envelope.{RequestId}
use pyrpckit.Runtime.State.{
  Call, Control, Loop, bad_ping, find_call, key_of, pong, registered, update_call,
}

unfoldable pub cancel_key_of : Option Json → Option RequestId
cancel_key_of (some (obj params)) =
    if keys_are ("id" ∷ []) params then key_of (get "id" params) else none
cancel_key_of _ = none

-- The key that a well-formed cancellation names.
unfoldable pub cancel_key : Fields → Option RequestId
unfolding cancel_key_of
cancel_key item =
    if is_text "2.0" (get "jsonrpc" item) && keys_are ("jsonrpc" ∷ "method" ∷ "params" ∷ []) item
    then cancel_key_of (get "params" item)
    else none

abbrev pub is_reserved : Call → Bool
is_reserved call = elim call.reservation [ none ↦ false | some r ↦ true ]

abbrev pub request_cancel : Call → Call
request_cancel call = record call { cancel_requested = true }

unfoldable pub cancel_call : Option Call → Loop → Loop
cancel_call none l = l
cancel_call (some call) l =
    if is_reserved call && not call.cancel_requested && not call.done
    then record l { calls = update_call call.ident request_cancel l.calls }
    else l

unfoldable pub cancel_registered : Option ℕ → Loop → Loop
unfolding cancel_call
cancel_registered none l = l
cancel_registered (some i) l = cancel_call (find_call i l.calls) l

unfoldable pub cancel_keyed : Option RequestId → Loop → Loop
unfolding cancel_registered
cancel_keyed none l = l
cancel_keyed (some k) l = cancel_registered (registered k l.requests) l

-- `cancel_request(item)`: whether the item was a cancellation, and its effect.
unfoldable pub cancel_request : Json → Loop → Bool × Loop
unfolding cancel_keyed
cancel_request (obj item) l =
    if not (is_text "$/cancelRequest" (get "method" item)) || has "id" item
    then (false, l)
    else (true, cancel_keyed (cancel_key item) l)
cancel_request _ l = (false, l)

abbrev pub is_no_params : Option Json → Bool
is_no_params none = true
is_no_params (some (obj end)) = true
is_no_params _ = false

abbrev pub is_key : Option Json → Bool
is_key value = elim (key_of value) [ none ↦ false | some k ↦ true ]

unfoldable pub ping_valid : Fields → Bool
ping_valid item =
    is_text "2.0" (get "jsonrpc" item)
    && (keys_within ("jsonrpc" ∷ "method" ∷ "id" ∷ "params" ∷ []) item
        && (is_no_params (get "params" item) && (not (has "id" item) || is_key (get "id" item))))

unfoldable pub ping_answer : Bool → Option RequestId → Control
ping_answer true (some k) = pong k
ping_answer true none = bad_ping
ping_answer false k = bad_ping

-- The answer to a `$/ping`: `none` if the item is none; otherwise the response, if it asks for one.
unfoldable pub ping : Json → Option (Option Control)
unfolding ping_valid ping_answer
ping (obj item) =
    if is_text "$/ping" (get "method" item)
    then some (
        if has "id" item
        then some (ping_answer (ping_valid item) (key_of (get "id" item)))
        else none)
    else none
ping _ = none
