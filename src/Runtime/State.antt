-- ===== src/Runtime/State.antt =====
-- The state of `_run_rpc_endpoint` and the operations of `_PendingRequests` (rpckit/runtime.py).
-- Objects that are compared by identity (reservations, calls and tasks) are numbers from one
-- counter, `next`.
use pyrpckit.Prelude.{
  Bool, List, Option, String, [], discard, false, if◌then◌else◌, leb, length, none, some, str_eq,
  suc, true, ℕ, ◌+◌, ◌==◌, ◌∷◌,
}
use pyrpckit.Json.{Json, int, int_eq, str}
use pyrpckit.Connection.Close.{ConnectionClose}
use pyrpckit.Connection.Rejection.{RpcError}
use pyrpckit.Connection.Life.{Connection, request_close, rpc_handler}
use pyrpckit.Wire.Envelope.{RequestId, no_id, number_id, text_id}
use pyrpckit.Client
use pyrpckit.Client.{ConnectedClient}

-- `_PendingCall`, with the state of its task.
pub record Call : Type 0 where
  pub ident : ℕ
  pub message : Json
  pub reservation : Option ℕ
  pub invalid : Bool
  pub batch : Bool
  pub admitted_at : ℕ
  pub shutting_down : Bool
  -- The key under which the reader registered the call.
  pub key : Option RequestId
  pub started : Bool
  pub cancel_requested : Bool
  pub done : Bool

-- An answer that the reader makes itself: the response to a ping.
pub data Control : Type 0 where
  pong : RequestId → Control
  bad_ping : Control

-- The body of a response collector: `respond()` of `schedule_failure`, or `invoke(...)`.
pub data Work : Type 0 where
  responds : Json → RpcError → Work
  invokes : List ℕ → Bool → List Control → Work

pub record Collector : Type 0 where
  pub task : ℕ
  pub work : Work

pub record Loop : Type 0 where
  pub max_pending_requests : ℕ
  pub max_queue_size : ℕ
  pub max_batch_size : ℕ
  pub max_message_bytes : Option ℕ
  pub connection : Connection
  pub client : ConnectedClient
  -- `endpoint.service.drain.draining`
  pub draining : Bool
  -- The reader has not returned.
  pub reading : Bool
  pub next : ℕ
  -- `_PendingRequests._reservations`
  pub reservations : List ℕ
  -- `call_tasks`, `requests` and `tasks`
  pub calls : List Call
  pub requests : List (RequestId × ℕ)
  pub collectors : List Collector

-- `request_close(code, reason)`: the first request closes the connected client too.
unfoldable pub close_loop : ConnectionClose → String → Option ℕ → Loop → Loop
close_loop code reason raw_code l = if l.connection.close_event then l else record l {
  connection = request_close rpc_handler code reason raw_code l.connection;
  client = Client.close l.client;
}

-- `_PendingRequests.reserve`
unfoldable pub reserve : Loop → Option ℕ × Loop
reserve l =
    if leb l.max_pending_requests (length l.reservations)
    then (none, l)
    else (some l.next, record l { next = suc l.next; reservations = l.next ∷ l.reservations })

-- `_PendingRequests.release`, of a call's reservation if it has one
unfoldable pub release : Option ℕ → Loop → Loop
release none l = l
release (some r) l = record l { reservations = discard r l.reservations }

-- `len(tasks) >= limits.max_pending_requests + limits.max_queue_size`
unfoldable pub collectors_full : Loop → Bool
collectors_full l = leb (l.max_pending_requests + l.max_queue_size) (length l.collectors)

-- `type(value) in (str, int)`, with the value as a key
abbrev pub key_of : Option Json → Option RequestId
key_of (some (str s)) = some (text_id s)
key_of (some (int n)) = some (number_id n)
key_of _ = none

-- Equality of `(type(id), id)`: a number is never a text.
abbrev pub id_eq : RequestId → RequestId → Bool
id_eq no_id no_id = true
id_eq (text_id s) (text_id t) = str_eq s t
id_eq (number_id n) (number_id m) = int_eq n m
id_eq _ _ = false

-- `requests.get(key)`
unfoldable pub registered : RequestId → List (RequestId × ℕ) → Option ℕ
registered k [] = none
registered k ((j, i) ∷ rest) = if id_eq j k then some i else registered k rest

-- `del requests[key]`
unfoldable pub unregister : RequestId → List (RequestId × ℕ) → List (RequestId × ℕ)
unregister k [] = []
unregister k ((j, i) ∷ rest) = if id_eq j k then unregister k rest else (j, i) ∷ unregister k rest

unfoldable pub find_call : ℕ → List Call → Option Call
find_call i [] = none
find_call i (c ∷ cs) = if c.ident == i then some c else find_call i cs

unfoldable pub update_call : ℕ → (Call → Call) → List Call → List Call
update_call i f [] = []
update_call i f (c ∷ cs) = if c.ident == i then f c ∷ update_call i f cs else c ∷ update_call i f cs

unfoldable pub remove_call : ℕ → List Call → List Call
remove_call i [] = []
remove_call i (c ∷ cs) = if c.ident == i then remove_call i cs else c ∷ remove_call i cs
