-- ===== src/Client.antt =====
-- `RpcConnectedClient` of rpckit/connected_client.py: calls from the server to the connected
-- client. A request id `f"server:{n}"` is made from its number by `server_id`. A call waits for the
-- semaphore, is pending while its request is in flight, and leaves when it is answered, fails,
-- or times out.
pub mod Numbers
pub mod Invariant
pub mod Delivery
pub mod Errors
mod Tests
use pyrpckit.Prelude.{
  Bool, List, Option, Result, String, [], any, discard, err, false, if◌then◌else◌, length, ltb, map,
  none, not, ok, some, str_eq, suc, true, ℕ, ◌&&◌, ◌++◌, ◌==◌, ◌||◌, ◌∷◌,
}
use pyrpckit.Json.{Fields, Json, get, has, obj, str}

-- The future of a pending call: not done, with a result, or with `RpcClientClosedError`.
pub data Future : Type 0 where
  unanswered : Future
  answered : Fields → Future
  closed_error : Future

pub record PendingCall : Type 0 where
  pub number : ℕ
  pub future : Future

pub record ConnectedClient : Type 0 where
  pub closed : Bool
  pub next_id : ℕ
  pub max_concurrency : ℕ
  pub max_message_bytes : Option ℕ
  -- Calls that wait for the semaphore, and calls that hold it.
  pub waiting : List ℕ
  pub pending : List PendingCall
  pub dropped_responses : ℕ

-- `_create`
unfoldable pub create : ℕ → Option ℕ → ConnectedClient
create concurrency bytes = record {
  closed = false;
  next_id = 0;
  max_concurrency = concurrency;
  max_message_bytes = bytes;
  waiting = [];
  pending = [];
  dropped_responses = 0;
}

pub data CallError : Type 0 where
  client_closed too_large bad_params timed_out not_declared : CallError

abbrev pub exceeds : Option ℕ → ℕ → Bool
exceeds none size = false
exceeds (some limit) size = ltb limit size

-- The start of `call`, up to the semaphore: `declared` says whether the endpoint declares the
-- method, `size` is that of the encoded request, `none` where `_request_frame` raises.
unfoldable pub start_call : Bool → Option ℕ → ConnectedClient → Result CallError ℕ × ConnectedClient
start_call declared size c =
    if not declared
    then (err not_declared, c)
    else if c.closed
    then (err client_closed, c)
    else let c' = record c { next_id = suc c.next_id } in
      elim size [
        | none ↦ (err bad_params, c')
        | some bytes ↦
            if exceeds c.max_message_bytes bytes
            then (err too_large, c')
            else (ok (suc c.next_id), record c' { waiting = c.waiting ++ suc c.next_id ∷ [] })
      ]

unfoldable pub drop_call : ℕ → List PendingCall → List PendingCall
drop_call n [] = []
drop_call n (p ∷ ps) = if p.number == n then drop_call n ps else p ∷ drop_call n ps

abbrev pub waits : ℕ → List ℕ → Bool
waits n ms = any (λ m. m == n) ms

-- The semaphore admits a waiting call: `self._closed` is tested again, and the future is registered.
unfoldable pub admit : ℕ → ConnectedClient → ConnectedClient
admit n c =
    if waits n c.waiting && ltb (length c.pending) c.max_concurrency
    then (let c' = record c { waiting = discard n c.waiting } in
        if c.closed
        then c'
        else record c' { pending = c.pending ++ record { number = n; future = unanswered } ∷ [] })
    else c

-- The end of `call`, by its answer or its timeout: `self._pending.pop(request_id, None)`.
unfoldable pub leave : ℕ → ConnectedClient → ConnectedClient
unfolding drop_call
leave n c = record c { waiting = discard n c.waiting; pending = drop_call n c.pending }

abbrev pub close_future : PendingCall → PendingCall
close_future p = elim p.future [
  | unanswered ↦ record p { future = closed_error }
  | answered message ↦ p
  | closed_error ↦ p
]

-- `_close`
unfoldable pub close : ConnectedClient → ConnectedClient
close c = if c.closed then c else record c { closed = true; pending = map close_future c.pending }

abbrev pub is_response : Fields → Bool
is_response message = not (has "method" message) && (has "result" message || has "error" message)

pub data Event : Type 0 where
  starts : Bool → Option ℕ → Event
  admits leaves : ℕ → Event
  receives : Json → Event
  closes : Event

module _ (server_id : ℕ → String) where
  -- `self._pending.get(request_id)`, for a text
  unfoldable pub find_pending : String → List PendingCall → Option PendingCall
  find_pending key [] = none
  find_pending key (p ∷ ps) =
      if str_eq (server_id p.number) key then some p else find_pending key ps

  unfoldable pub set_result : String → Fields → List PendingCall → List PendingCall
  set_result key message [] = []
  set_result key message (p ∷ ps) =
      if str_eq (server_id p.number) key
      then record p { future = answered message } ∷ ps
      else p ∷ set_result key message ps

  drop_response : ConnectedClient → ConnectedClient
  drop_response c = record c { dropped_responses = suc c.dropped_responses }

  deliver_to : String → Fields → Option PendingCall → ConnectedClient → ConnectedClient
  unfolding drop_response set_result
  deliver_to key message none c = drop_response c
  deliver_to key message (some p) c = elim p.future [
    | unanswered ↦ record c { pending = set_result key message c.pending }
    | answered other ↦ drop_response c
    | closed_error ↦ drop_response c
  ]

  deliver : Option Json → Fields → ConnectedClient → ConnectedClient
  unfolding deliver_to find_pending
  deliver (some (str key)) message c = deliver_to key message (find_pending key c.pending) c
  deliver other message c = drop_response c

  -- `_resolve`
  unfoldable pub resolve : Json → ConnectedClient → Bool × ConnectedClient
  unfolding deliver
  resolve (obj message) c =
      if is_response message then (true, deliver (get "id" message) message c) else (false, c)
  resolve other c = (false, c)

  unfoldable pub step : ConnectedClient → Event → ConnectedClient
  unfolding start_call admit leave close resolve
  step c (starts declared size) = (start_call declared size c).1
  step c (admits n) = admit n c
  step c (leaves n) = leave n c
  step c (receives message) = (resolve message c).1
  step c closes = close c

  unfoldable pub run : ConnectedClient → List Event → ConnectedClient
  run c [] = c
  run c (e ∷ es) = run (step c e) es
