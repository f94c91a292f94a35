-- ===== src/Subscriptions.antt =====
-- `SubscriptionSession` of rpckit/subscriptions.py: the handshake of a subscription, its task, and
-- the notifications that the task sends. An event is the code between two awaits; `_send` sends its
-- message or raises. Subscriptions are known by their number; `id_text` is `str`, and `params_model`
-- the validation of a definition's params, `none` where it declares none. `log` holds what was sent,
-- the newest message first.
pub mod Invariant
pub mod Limit
pub mod Order
pub mod Steps
pub mod Sequence
pub mod Unsubscribe
mod Tests
use pyrpckit.Prelude.{
  Bool, List, Option, String, [], false, if◌then◌else◌, leb, length, none, some, str_append, str_eq,
  suc, true, ℕ, ◌+◌, ◌==◌, ◌∷◌,
}
use pyrpckit.Json.{Fields, Json, get, is_empty, nil, str}
use pyrpckit.Connection.Rejection.{RpcError}
use pyrpckit.Errors.Types.{invalid_params, subscription_limit}
use pyrpckit.Wire.Envelope.{Params, RequestEnvelope, RequestId, expects_response, named, positional}
use pyrpckit.Server.Response.{ErrorData}

-- A handshake whose response is being sent.
pub record Handshake : Type 0 where
  pub number : ℕ
  pub name : String
  pub request : RequestId

-- Where `_run` stands: it waits for the generator, or for `_send` of a payload, of the completion or
-- of the failure, or its body is left.
pub data RunPoint : Type 0 where
  iterating completing left : RunPoint
  sending : Json → RunPoint
  failing : ErrorData → RunPoint

pub record SubscriptionTask : Type 0 where
  pub number : ℕ
  pub name : String
  pub cancelled : Bool
  pub point : RunPoint

pub data Notice : Type 0 where
  payload : Json → Notice
  complete : Notice
  broken : ErrorData → Notice

pub data Sent : Type 0 where
  subscribed : RequestId → ℕ → Sent
  unsubscribed : RequestId → Sent
  refused : RequestId → RpcError → Sent
  notified : ℕ → Notice → Sent

pub record Session : Type 0 where
  pub definitions : List String
  pub limit : ℕ
  pub next_id : ℕ
  pub handshakes : List Handshake
  pub tasks : List SubscriptionTask
  pub log : List Sent

-- `__init__`
unfoldable pub open_session : List String → ℕ → Session
open_session definitions limit = record {
  definitions = definitions;
  limit = limit;
  next_id = 1;
  handshakes = [];
  tasks = [];
  log = [];
}

pub data Action : Type 0 where
  subscribes unsubscribes : String → Action

-- What an owned method asks for: the definition and the suffix that make it up.
unfoldable pub action_of : String → List String → Option Action
action_of method [] = none
action_of method (name ∷ names) =
    if str_eq method (str_append name ".subscribe")
    then some (subscribes name)
    else if str_eq method (str_append name ".unsubscribe")
    then some (unsubscribes name)
    else action_of method names

-- `owns`
unfoldable pub owns : Session → String → Bool
unfolding action_of
owns s method = elim (action_of method s.definitions) [ none ↦ false | some action ↦ true ]

unfoldable pub send : Sent → Session → Session
send message s = record s { log = message ∷ s.log }

-- `_params`
unfoldable pub check_params : Option (Fields → Option RpcError) → Fields → Option RpcError
check_params none raw =
    if is_empty raw then none else some (invalid_params "Subscription takes no params" nil)
check_params (some validate) raw = validate raw

unfoldable pub drop_handshake : ℕ → List Handshake → List Handshake
drop_handshake n [] = []
drop_handshake n (h ∷ hs) = if h.number == n then drop_handshake n hs else h ∷ drop_handshake n hs

unfoldable pub find_handshake : ℕ → List Handshake → Option Handshake
find_handshake n [] = none
find_handshake n (h ∷ hs) = if h.number == n then some h else find_handshake n hs

unfoldable pub drop_task : ℕ → List SubscriptionTask → List SubscriptionTask
drop_task n [] = []
drop_task n (t ∷ ts) = if t.number == n then drop_task n ts else t ∷ drop_task n ts

unfoldable pub find_task : ℕ → List SubscriptionTask → Option SubscriptionTask
find_task n [] = none
find_task n (t ∷ ts) = if t.number == n then some t else find_task n ts

unfoldable pub update_task :
    ℕ → (SubscriptionTask → SubscriptionTask) → List SubscriptionTask → List SubscriptionTask
update_task n f [] = []
update_task n f (t ∷ ts) =
    if t.number == n then f t ∷ update_task n f ts else t ∷ update_task n f ts

abbrev pub cancel_task : SubscriptionTask → SubscriptionTask
cancel_task t = record t { cancelled = true }

abbrev pub move_task : RunPoint → SubscriptionTask → SubscriptionTask
move_task point t = record t { point = point }

-- The response to a handshake is sent: the task is created in the same step.
unfoldable pub handshake_sent : ℕ → Session → Session
unfolding send
handshake_sent n s = elim (find_handshake n s.handshakes) [
  | none ↦ s
  | some h ↦ send (subscribed h.request n) (record s {
    handshakes = drop_handshake n s.handshakes;
    tasks = record { number = n; name = h.name; cancelled = false; point = iterating } ∷ s.tasks;
  })
]

-- Sending it failed, or was cancelled.
unfoldable pub handshake_failed : ℕ → Session → Session
handshake_failed n s = record s { handshakes = drop_handshake n s.handshakes }

-- What lets `_run` go on: the generator yields a valid payload, returns or raises, or `_send` has sent
-- its message or raises. An error is given as `server.failure` maps it.
pub data RunStep : Type 0 where
  yields : Json → RunStep
  returns is_sent : RunStep
  raises send_raises : ErrorData → RunStep

-- The generator answers only while it is waited for.
unfoldable pub from_generator : RunPoint → RunPoint → RunPoint
from_generator next iterating = next
from_generator next completing = completing
from_generator next left = left
from_generator next (sending value) = sending value
from_generator next (failing error) = failing error

unfoldable pub behind_send : RunPoint → RunPoint
behind_send iterating = iterating
behind_send completing = left
behind_send left = left
behind_send (sending value) = iterating
behind_send (failing error) = left

-- An exception in the `try` is told by the failure; one in telling the failure leaves `_run`.
unfoldable pub behind_error : ErrorData → RunPoint → RunPoint
behind_error error iterating = iterating
behind_error error completing = failing error
behind_error error left = left
behind_error error (sending value) = failing error
behind_error error (failing other) = left

unfoldable pub run_next : RunStep → RunPoint → RunPoint
unfolding from_generator behind_send behind_error
run_next (yields value) p = from_generator (sending value) p
run_next returns p = from_generator completing p
run_next (raises error) p = from_generator (failing error) p
run_next is_sent p = behind_send p
run_next (send_raises error) p = behind_error error p

-- The message that `_send` has sent.
unfoldable pub message_of : RunPoint → Option Notice
message_of iterating = none
message_of completing = some complete
message_of left = none
message_of (sending value) = some (payload value)
message_of (failing error) = some (broken error)

unfoldable pub run_sends : RunStep → RunPoint → Option Notice
unfolding message_of
run_sends (yields value) p = none
run_sends returns p = none
run_sends (raises error) p = none
run_sends is_sent p = message_of p
run_sends (send_raises error) p = none

unfoldable pub tell : ℕ → Option Notice → Session → Session
unfolding send
tell n none s = s
tell n (some notice) s = send (notified n notice) s

-- `_run` up to its next await, while its task is among the tasks of the session.
unfoldable pub run_task : ℕ → RunStep → Session → Session
unfolding tell run_next run_sends
run_task n next s = elim (find_task n s.tasks) [
  | none ↦ s
  | some t ↦
      tell n (run_sends next t.point)
        (record s { tasks = update_task n (move_task (run_next next t.point)) s.tasks })
]

-- The callback of a task that is done.
unfoldable pub task_done : ℕ → Session → Session
task_done n s = record s { tasks = drop_task n s.tasks }

-- `close`
unfoldable pub close_session : Session → Session
close_session s = record s { tasks = [] }

pub data SessionEvent : Type 0 where
  handles : RequestEnvelope → SessionEvent
  sends_handshake fails_handshake ends_task : ℕ → SessionEvent
  runs : ℕ → RunStep → SessionEvent
  -- The success response that ends an unsubscription, behind the wait for its task.
  answers_unsubscribe : RequestId → SessionEvent
  closes_session : SessionEvent

module _ (id_text : ℕ → String) (params_model : String → Option (Fields → Option RpcError)) where
  -- `subscription_id in self._tasks`, and its entry
  unfoldable pub find_by_text : String → List SubscriptionTask → Option SubscriptionTask
  find_by_text key [] = none
  find_by_text key (t ∷ ts) = if str_eq (id_text t.number) key then some t else find_by_text key ts

  -- The branch of `.subscribe`, up to the response.
  unfoldable pub subscribe : String → Fields → RequestId → Session → Session
  unfolding check_params send
  subscribe name raw request s =
      if leb s.limit (length s.tasks + length s.handshakes)
      then send (refused request subscription_limit) s
      else elim (check_params (params_model name) raw) [
        | some error ↦ send (refused request error) s
        | none ↦ record s {
          next_id = suc s.next_id;
          handshakes = record { number = s.next_id; name = name; request = request } ∷ s.handshakes;
        }
      ]

  -- The task that an unsubscription names, if it is one of this definition.
  unfoldable pub named_task : String → Option Json → Session → Option SubscriptionTask
  unfolding find_by_text
  named_task name (some (str key)) s = elim (find_by_text key s.tasks) [
    | none ↦ none
    | some t ↦ if str_eq t.name name then some t else none
  ]
  named_task name _ s = none

  -- The branch of `.unsubscribe`, up to the wait for the cancelled task.
  unfoldable pub unsubscribe : String → Fields → RequestId → Session → Session
  unfolding named_task send
  unsubscribe name raw request s = elim (named_task name (get "subscriptionId" raw) s) [
    | none ↦ send (refused request (invalid_params "Unknown subscriptionId" nil)) s
    | some t ↦ record s { tasks = update_task t.number cancel_task s.tasks }
  ]

  unfoldable pub act : Option Action → Fields → RequestId → Session → Session
  unfolding subscribe unsubscribe
  act none raw request s = s
  act (some (subscribes name)) raw request s = subscribe name raw request s
  act (some (unsubscribes name)) raw request s = unsubscribe name raw request s

  unfoldable pub handle_params : Params → String → RequestId → Session → Session
  unfolding act send
  handle_params (positional vs) method request s =
      send (refused request (invalid_params "Subscriptions require named params" nil)) s
  handle_params (named raw) method request s = act (action_of method s.definitions) raw request s

  -- `_handle`
  unfoldable pub handle_request : RequestEnvelope → Session → Session
  unfolding handle_params
  handle_request request s =
      if expects_response request
      then handle_params request.params request.method request.id s
      else s

  unfoldable pub session_step : Session → SessionEvent → Session
  unfolding handle_request handshake_sent handshake_failed run_task task_done send close_session
  session_step s (handles request) = handle_request request s
  session_step s (sends_handshake n) = handshake_sent n s
  session_step s (fails_handshake n) = handshake_failed n s
  session_step s (ends_task n) = task_done n s
  session_step s (runs n next) = run_task n next s
  session_step s (answers_unsubscribe request) = send (unsubscribed request) s
  session_step s closes_session = close_session s

  unfoldable pub session_run : Session → List SessionEvent → Session
  session_run s [] = s
  session_run s (e ∷ es) = session_run (session_step s e) es
