-- ===== src/Runtime/Reader.antt =====
-- `reader()` of rpckit/runtime.py: one received frame, from its size to its response collector.
-- There is no `await` within a frame, so a frame is one step. The libraries that it calls are
-- parameters: the UTF-8 length and decoding, `json.loads`, and the size of encoded metadata.
use pyrpckit.Prelude.{
  Bool, List, Option, String, [], false, if◌then◌else◌, length, ltb, none, not, some, str_eq, suc,
  true, ℕ, ◌&&◌, ◌++◌, ◌==◌, ◌||◌, ◌∷◌,
}
use pyrpckit.Json.{Fields, Json, arr, get, items, obj, str}
use pyrpckit.Connection.Close.{message_too_big, policy_violation, protocol_error}
use pyrpckit.Errors.Types.{invalid_request, parse_error}
use pyrpckit.Wire.Envelope.{RequestEnvelope, RequestId, envelope_validate}
use pyrpckit.Client
use pyrpckit.Runtime.State.{
  Call, Control, Loop, Work, close_loop, collectors_full, invokes, key_of, registered, release,
  reserve, responds,
}
use pyrpckit.Runtime.Control.{cancel_request, ping}

-- A received message: text, or bytes with what they decode to (`none`: `UnicodeDecodeError`).
pub data Frame : Type 0 where
  text_frame : String → Frame
  bytes_frame : ℕ → Option String → Frame

pub record Library : Type 0 where
  pub encoded_length : String → ℕ
  pub loads : String → Option Json
  pub metadata_size : Fields → Option ℕ
  pub server_id : ℕ → String

-- What one pass over the items has gathered: `items` and `controls`, or that the reader returned.
pub data Progress : Type 0 where
  going : Loop → List ℕ → List Control → Progress
  stopped : Loop → Progress

unfoldable pub item_id : Json → Option Json
item_id (obj item) = get "id" item
item_id _ = none

-- `None if draining else pending.reserve()`, for a valid item
unfoldable pub reservation_for : Bool → Loop → Option ℕ × Loop
reservation_for invalid l = if invalid || l.draining then (none, l) else reserve l

-- The key of a valid item with a text or a number as its id.
unfoldable pub key_for : Bool → Json → Option RequestId
unfolding item_id
key_for invalid item = if invalid then none else key_of (item_id item)

unfoldable pub is_taken : Option RequestId → Loop → Bool
is_taken none l = false
is_taken (some k) l = elim (registered k l.requests) [ none ↦ false | some i ↦ true ]

unfoldable pub register : Option RequestId → ℕ → List (RequestId × ℕ) → List (RequestId × ℕ)
register none i requests = requests
register (some k) i requests = (k, i) ∷ requests

-- `_PendingCall(...)` and its task.
unfoldable pub new_call : Json → Bool → Bool → ℕ → Option RequestId → Option ℕ → Loop → Call
new_call item invalid batch now key reservation l = record {
  ident = l.next;
  message = item;
  reservation = reservation;
  invalid = invalid;
  batch = batch;
  admitted_at = now;
  shutting_down = not invalid && l.draining;
  key = key;
  started = false;
  cancel_requested = false;
  done = false;
}

unfoldable pub add_call : Json → Bool → Bool → ℕ → Option RequestId → Option ℕ → Loop → Loop
unfolding new_call register
add_call item invalid batch now key reservation l = record l {
  next = suc l.next;
  calls = l.calls ++ new_call item invalid batch now key reservation l ∷ [];
  requests = register key l.next l.requests;
}

-- The part of the loop body behind the control messages, for an item whose call is made.
unfoldable pub enqueue : Json → Bool → Bool → ℕ → Loop → List ℕ → List Control → Progress
unfolding reservation_for is_taken add_call
enqueue item invalid batch now l items controls =
    let key = key_for invalid item in
    let (reservation, l') = reservation_for invalid l in
    if is_taken key l'
    then stopped
        (close_loop protocol_error "Duplicate in-flight request id" none (release reservation l'))
    else going (add_call item invalid batch now key reservation l') (items ++ l'.next ∷ []) controls

abbrev pub is_nil {ℓ} : {A : Type ℓ} → List A → Bool
is_nil [] = true
is_nil (x ∷ xs) = false

-- A task for a response collector, or the close when there are too many.
unfoldable pub add_collector : Work → Loop → Loop
add_collector work l =
    if collectors_full l
    then close_loop policy_violation "Too many response collectors" none
        (record l { reading = false })
    else record l {
      next = suc l.next;
      collectors = record { task = l.next; work = work } ∷ l.collectors;
    }

-- The end of the iteration.
unfoldable pub finish_frame : Bool → Progress → Loop
finish_frame batch (stopped l) = record l { reading = false }
finish_frame batch (going l items controls) =
    if is_nil items && is_nil controls then l else add_collector (invokes items batch controls) l

abbrev pub is_too_big : Option ℕ → ℕ → Bool
is_too_big none size = false
is_too_big (some limit) size = ltb limit size

module _ (lib : Library) where
  unfoldable pub is_cancel : RequestEnvelope → Bool
  is_cancel envelope = str_eq envelope.method "$/cancelRequest"

  -- `invalid`: the envelope is refused, or is a cancellation that asks for a response.
  unfoldable pub is_invalid : Json → Bool
  unfolding is_cancel
  is_invalid item = elim (envelope_validate lib.metadata_size item) [
    | none ↦ true
    | some envelope ↦ is_cancel envelope
  ]

  -- An item that is no control message.
  unfoldable pub take_item : Bool → Json → Bool → ℕ → Loop → List ℕ → List Control → Progress
  unfolding enqueue
  take_item full item batch now l items controls =
      if full
      then stopped (close_loop policy_violation "Too many response collectors" none l)
      else enqueue item (is_invalid item) batch now l items controls

  unfoldable pub after_ping :
      Option (Option Control) → Bool → Json → Bool → ℕ → Loop → List ℕ → List Control → Progress
  unfolding take_item
  after_ping (some (some control)) full item batch now l items controls =
      going l items (controls ++ control ∷ [])
  after_ping (some none) full item batch now l items controls = going l items controls
  after_ping none full item batch now l items controls =
      take_item full item batch now l items controls

  unfoldable pub after_cancel :
      Bool × Loop → Bool → Json → Bool → ℕ → List ℕ → List Control → Progress
  unfolding after_ping
  after_cancel (true, l) full item batch now items controls = going l items controls
  after_cancel (false, l) full item batch now items controls =
      after_ping (ping item) full item batch now l items controls

  -- One item: a response to the server's own call, a cancellation, a ping, or a request.
  unfoldable pub process_item : Bool → Bool → ℕ → Json → Loop → List ℕ → List Control → Progress
  unfolding after_cancel
  process_item full batch now item l items controls =
      let (taken, client') = Client.resolve lib.server_id item l.client in
      if taken
      then going (record l { client = client' }) items controls
      else after_cancel (cancel_request item l) full item batch now items controls

  unfoldable pub process_items :
      Bool → Bool → ℕ → List Json → Loop → List ℕ → List Control → Progress
  process_items full batch now [] l items controls = going l items controls
  process_items full batch now (item ∷ rest) l items controls =
      elim (process_item full batch now item l items controls) [
        | stopped l' ↦ stopped l'
        | going l' items' controls' ↦ process_items full batch now rest l' items' controls'
      ]

  -- A decoded message.
  unfoldable pub read_message : ℕ → Json → Loop → Loop
  unfolding finish_frame
  read_message now (arr vs) l =
      if length (items vs) == 0 || ltb l.max_batch_size (length (items vs))
      then add_collector (responds (arr vs) invalid_request) l
      else finish_frame true (process_items (collectors_full l) true now (items vs) l [] [])
  read_message now message l =
      finish_frame false (process_items (collectors_full l) false now (message ∷ []) l [] [])

  unfoldable pub read_text : ℕ → String → Loop → Loop
  unfolding read_message
  read_text now frame l = elim (lib.loads frame) [
    | none ↦ add_collector (responds (str frame) parse_error) l
    | some message ↦ read_message now message l
  ]

  abbrev pub frame_size : Frame → ℕ
  frame_size (text_frame frame) = lib.encoded_length frame
  frame_size (bytes_frame size decoded) = size

  unfoldable pub read_frame : ℕ → Frame → Loop → Loop
  unfolding read_text
  read_frame now (text_frame frame) l = read_text now frame l
  read_frame now (bytes_frame size none) l =
      close_loop protocol_error "Invalid RPC frame" none (record l { reading = false })
  read_frame now (bytes_frame size (some frame)) l = read_text now frame l

  -- The body of the reader's loop. Once the reader has returned, nothing is received.
  unfoldable pub receive : ℕ → Frame → Loop → Loop
  unfolding read_frame
  receive now frame l =
      if not l.reading
      then l
      else if is_too_big l.max_message_bytes (frame_size frame)
      then close_loop message_too_big "" none (record l { reading = false })
      else read_frame now frame l
