-- ===== src/Sockets/Raw.antt =====
-- `RpcRawSocket` (rpckit/raw_sockets.py) with the reader of `_run_raw_socket` (rpckit/runtime.py).
-- `B` is the type of binary messages, `size` the length of a message. `accepted`, `received` and
-- `sent` are histories: what the reader has taken, what the handler was given, and what the socket
-- was given.
pub mod Declared
use pyrpckit.Prelude.{
  Bool, List, Option, String, [], false, if◌then◌else◌, length, ltb, none, not, some, true, ℕ, ◌&&◌,
  ◌++◌, ◌==◌, ◌||◌, ◌∷◌,
}
use pyrpckit.Connection.Close.{
  ConnectionClose, Disconnect, internal_error, message_too_big, policy_violation, protocol_error,
}
use pyrpckit.Connection.Life.{Connection, client_disconnected, request_close, stream_handler}

pub data RawMessage (B : Type 0) : Type 0 where
  text_message : String → RawMessage B
  binary_message : B → RawMessage B

pub record RawSocket (B : Type 0) : Type 0 where
  pub connection : Connection
  -- `RpcMessageType.TEXT in messages`, and `BINARY`
  pub takes_text : Bool
  pub takes_binary : Bool
  pub max_message_bytes : Option ℕ
  pub max_queue_size : ℕ
  -- the reader has not returned, and the message that it waits to put
  pub reading : Bool
  pub blocked : Option (RawMessage B)
  pub queue : List (RawMessage B)
  pub accepted : List (RawMessage B)
  pub received : List (RawMessage B)
  pub sent : List (RawMessage B)

-- How the socket takes a message: it does, the client is gone, or the send timeout expires.
pub data SendOutcome : Type 0 where
  taken timed_out : SendOutcome
  gone : Disconnect → SendOutcome

pub data RawEvent (B : Type 0) : Type 0 where
  message_arrives : RawMessage B → RawEvent B
  put_resumes handler_receives reader_fails : RawEvent B
  handler_sends : RawMessage B → SendOutcome → RawEvent B
  reader_disconnects : Disconnect → RawEvent B
  handler_ends : ConnectionClose × String → RawEvent B

abbrev pub too_big : Option ℕ → ℕ → Bool
too_big none n = false
too_big (some limit) n = ltb limit n

module _ {B : Type 0} where
  -- `RpcRawSocket._create` for an accepted connection
  unfoldable pub open_socket : Bool → Bool → Option ℕ → ℕ → Connection → RawSocket B
  open_socket takes_text takes_binary max_message_bytes max_queue_size connection = record {
    connection = connection;
    takes_text = takes_text;
    takes_binary = takes_binary;
    max_message_bytes = max_message_bytes;
    max_queue_size = max_queue_size;
    reading = true;
    blocked = none;
    queue = [];
    accepted = [];
    received = [];
    sent = [];
  }

  -- `message_type in messages`
  unfoldable pub declared : Bool → Bool → RawMessage B → Bool
  declared takes_text takes_binary (text_message t) = takes_text
  declared takes_text takes_binary (binary_message b) = takes_binary

  unsupported : RawMessage B → String
  unsupported (text_message t) = "Unsupported text message"
  unsupported (binary_message b) = "Unsupported binary message"

  -- `RpcRawSocket.closed`
  unfoldable pub is_closed : RawSocket B → Bool
  is_closed s =
      s.connection.closed || (elim s.connection.close_code [ none ↦ false | some c ↦ true ])

  unfoldable pub asks : ConnectionClose → String → RawSocket B → RawSocket B
  asks code reason s = record s {
    connection = request_close stream_handler code reason none s.connection;
  }

  -- `asyncio.Queue.put` behind the checks of the reader; a queue of size 0 is unbounded.
  unfoldable pub put : RawMessage B → RawSocket B → RawSocket B
  put m s =
      if s.max_queue_size == 0 || ltb (length s.queue) s.max_queue_size
      then record s { queue = s.queue ++ m ∷ []; blocked = none }
      else record s { blocked = some m }

  -- `RpcRawSocket.receive`, while a message is queued
  unfoldable pub receive_raw : RawSocket B → RawSocket B
  receive_raw s = elim s.queue [
    | [] ↦ s
    | m ∷ queue ↦ record s { queue = queue; received = s.received ++ m ∷ [] }
  ]

  unfoldable pub sent_as : SendOutcome → RawMessage B → RawSocket B → RawSocket B
  unfolding asks
  sent_as taken m s = record s { sent = s.sent ++ m ∷ [] }
  sent_as timed_out m s = asks policy_violation "Client too slow" s
  sent_as (gone error) m s = record s {
    connection = client_disconnected true stream_handler error s.connection;
  }

  -- `RpcRawSocket.send`; the raised `TypeError` or `RpcDisconnect` is the handler's affair.
  unfoldable pub send_raw : RawMessage B → SendOutcome → RawSocket B → RawSocket B
  unfolding declared is_closed sent_as
  send_raw m outcome s =
      if not (declared s.takes_text s.takes_binary m)
      then s
      else if is_closed s
      then s
      else sent_as outcome m s

  unfoldable pub resume_put : RawSocket B → RawSocket B
  unfolding put
  resume_put s = elim s.blocked [ none ↦ s | some m ↦ put m s ]

  unfoldable pub is_idle : RawSocket B → Bool
  is_idle s = s.reading && (elim s.blocked [ none ↦ true | some m ↦ false ])

module _ {B : Type 0} (size : RawMessage B → ℕ) where
  -- One round of `read`.
  unfoldable pub read_raw : RawMessage B → RawSocket B → RawSocket B
  unfolding declared unsupported asks put
  read_raw m s =
      if too_big s.max_message_bytes (size m)
      then record (asks message_too_big "" s) { reading = false }
      else if not (declared s.takes_text s.takes_binary m)
      then record (asks protocol_error (unsupported m) s) { reading = false }
      else put m (record s { accepted = s.accepted ++ m ∷ [] })

  unfoldable pub raw_step : RawSocket B → RawEvent B → RawSocket B
  unfolding read_raw receive_raw send_raw resume_put is_idle asks
  raw_step s (message_arrives m) = if is_idle s then read_raw m s else s
  raw_step s put_resumes = if s.reading then resume_put s else s
  raw_step s handler_receives = receive_raw s
  raw_step s reader_fails =
      if is_idle s then record (asks internal_error "Internal error" s) { reading = false } else s
  raw_step s (handler_sends m outcome) = send_raw m outcome s
  raw_step s (reader_disconnects error) =
      if is_idle s
      then record s {
        connection = client_disconnected true stream_handler error s.connection;
        reading = false;
      }
      else s
  raw_step s (handler_ends (code, reason)) = asks code reason s

  unfoldable pub raw_run : RawSocket B → List (RawEvent B) → RawSocket B
  raw_run s [] = s
  raw_run s (e ∷ es) = raw_run (raw_step s e) es
