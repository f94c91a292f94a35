-- ===== src/Streams.antt =====
-- A binary stream with input: `read` and `request_close` of `_run_stream_endpoint`
-- (rpckit/runtime.py), `RpcBinaryInput` and `RpcBinaryOutput` (rpckit/streams.py). `B` is the type
-- of binary frames, `size` their length, `encoded_length` that of a text, and `is_input_end`
-- whether a text is the message that ends the input. `accepted` and `sent` are histories: what the
-- reader has taken, and what the socket was given.
pub mod Fifo
pub mod Delivery
pub mod Output
mod Tests
use pyrpckit.Prelude.{
  Bool, List, Option, String, [], false, if◌then◌else◌, length, ltb, none, not, some, true, ℕ, ◌++◌,
  ◌||◌, ◌∷◌,
}
use pyrpckit.Connection.Close.{ConnectionClose, Disconnect, message_too_big, protocol_error}
use pyrpckit.Connection.Life.{
  Connection, client_disconnected, mark_closed, request_close, stream_handler,
}

pub data InputItem (B : Type 0) : Type 0 where
  chunk : B → InputItem B
  -- `_END`
  end_mark : InputItem B

pub data StreamFrame (B : Type 0) : Type 0 where
  text : String → StreamFrame B
  binary : B → StreamFrame B

pub record Stream (B : Type 0) : Type 0 where
  pub has_input : Bool
  pub max_message_bytes : Option ℕ
  pub max_queue_size : ℕ
  pub connection : Connection
  -- `read` has not returned, and the item that it waits to put.
  pub reading : Bool
  pub blocked : Option (InputItem B)
  pub input_ended : Bool
  -- `_queue` and `_ended` of the input
  pub queue : List (InputItem B)
  pub ended : Bool
  pub accepted : List B
  pub delivered : List B
  pub sent : List B

pub data StreamEvent (B : Type 0) : Type 0 where
  frame_arrives : StreamFrame B → StreamEvent B
  put_resumes handler_receives connection_closes : StreamEvent B
  handler_sends : B → StreamEvent B
  close_requested : ConnectionClose → String → StreamEvent B
  -- Whether the reader sees it, or the handler.
  peer_disconnects : Bool → Disconnect → StreamEvent B

abbrev pub is_above : Option ℕ → ℕ → Bool
is_above none n = false
is_above (some limit) n = ltb limit n

abbrev pub is_waiting {ℓ} : {A : Type ℓ} → Option A → Bool
is_waiting none = false
is_waiting (some a) = true

module _ {B : Type 0} where
  unfoldable pub open_stream : Bool → Option ℕ → ℕ → Connection → Stream B
  open_stream has_input bytes queue_size connection = record {
    has_input = has_input;
    max_message_bytes = bytes;
    max_queue_size = queue_size;
    connection = connection;
    reading = true;
    blocked = none;
    input_ended = false;
    queue = [];
    ended = false;
    accepted = [];
    delivered = [];
    sent = [];
  }

  -- `request_close(code, reason)`, and `read` returns.
  unfoldable pub stop_reading : ConnectionClose → String → Stream B → Stream B
  stop_reading code reason s = record s {
    connection = request_close stream_handler code reason none s.connection;
    reading = false;
  }

  -- `await self._queue.put(item)`: it waits while the queue is full.
  unfoldable pub put : InputItem B → Stream B → Stream B
  put item s =
      if ltb (length s.queue) s.max_queue_size
      then record s { queue = s.queue ++ item ∷ [] }
      else record s { blocked = some item }

  -- A waiting `put` goes on when there is room.
  unfoldable pub resume_put : Stream B → Stream B
  resume_put s = elim s.blocked [
    | none ↦ s
    | some item ↦
        if ltb (length s.queue) s.max_queue_size
        then record s { queue = s.queue ++ item ∷ []; blocked = none }
        else s
  ]

  -- `RpcBinaryInput.receive`, when it does not wait.
  unfoldable pub receive_input : Stream B → Stream B
  receive_input s = if s.ended then s else elim s.queue [
    | [] ↦ s
    | chunk frame ∷ rest ↦ record s { queue = rest; delivered = s.delivered ++ frame ∷ [] }
    | end_mark ∷ rest ↦ record s { queue = rest; ended = true }
  ]

  -- `RpcBinaryOutput.send`: it raises `RpcDisconnect` when the connection is closed or closing.
  unfoldable pub send_output : B → Stream B → Stream B
  send_output frame s =
      if s.connection.closed || is_waiting s.connection.close_code
      then s
      else record s { sent = s.sent ++ frame ∷ [] }

  unfoldable pub accept_frame : B → Stream B → Stream B
  unfolding put
  accept_frame frame s = put (chunk frame) (record s { accepted = s.accepted ++ frame ∷ [] })

  unfoldable pub accept_end : Stream B → Stream B
  unfolding put
  accept_end s = put end_mark (record s { input_ended = true })

module _ {B : Type 0} (size : B → ℕ) (encoded_length : String → ℕ)
    (is_input_end : String → Bool) where
  abbrev frame_length : StreamFrame B → ℕ
  frame_length (text t) = encoded_length t
  frame_length (binary frame) = size frame

  unfoldable pub take_frame : StreamFrame B → Stream B → Stream B
  unfolding stop_reading accept_end accept_frame
  take_frame (text t) s =
      if s.input_ended || not (is_input_end t)
      then stop_reading protocol_error "Unexpected text frame on a binary stream" s
      else accept_end s
  take_frame (binary frame) s =
      if s.input_ended
      then stop_reading protocol_error "Binary input after end" s
      else accept_frame frame s

  -- The body of `read`'s loop. While it waits in `put`, no frame is taken from the socket.
  unfoldable pub read_stream : StreamFrame B → Stream B → Stream B
  unfolding take_frame
  read_stream frame s =
      if not s.reading || is_waiting s.blocked
      then s
      else if not s.has_input
      then stop_reading protocol_error "Binary stream is server-to-client" s
      else if is_above s.max_message_bytes (frame_length frame)
      then stop_reading message_too_big "" s
      else take_frame frame s

  unfoldable pub stream_step : Stream B → StreamEvent B → Stream B
  unfolding read_stream resume_put receive_input send_output
  stream_step s (frame_arrives frame) = read_stream frame s
  stream_step s put_resumes = resume_put s
  stream_step s handler_receives = receive_input s
  stream_step s connection_closes = record s { connection = mark_closed s.connection }
  stream_step s (handler_sends frame) = send_output frame s
  stream_step s (close_requested code reason) = record s {
    connection = request_close stream_handler code reason none s.connection;
  }
  stream_step s (peer_disconnects by_reader error) = record s {
    connection = client_disconnected false stream_handler error s.connection;
    reading = if by_reader then false else s.reading;
  }

  unfoldable pub stream_run : Stream B → List (StreamEvent B) → Stream B
  stream_run s [] = s
  stream_run s (e ∷ es) = stream_run (stream_step s e) es
