-- ===== src/Runtime/Replies.antt =====
-- `collect_one` and `invoke` of rpckit/runtime.py: the answers to one frame, in one message.
pub mod Batch
use pyrpckit.Prelude.{
  Bool, List, Option, Result, [], err, if◌then◌else◌, none, not, ok, some, ◌||◌, ◌∷◌,
}
use pyrpckit.Json.{Json, items}
use pyrpckit.Errors.Types.{request_cancelled}
use pyrpckit.Server.Response.{Response, response_id}
use pyrpckit.Server.Dispatch.{Server, handle_failure, raised_rpc}
use pyrpckit.Runtime.State.{Call, Control, bad_ping, pong}
use pyrpckit.Server.Dispatch.Answer.{Answers}
use pyrpckit.Wire.Envelope.{RequestId, no_id}

-- What `await call.task` gives: the value of the task, an exception, or its cancellation.
pub data Outcome (V : Type 0) : Type 0 where
  returned : Option (Response V) → Outcome V
  task_failed : Outcome V
  task_cancelled : Outcome V

-- Why a collector ends without its message.
pub data CollectError : Type 0 where
  collect_cancelled collect_failed : CollectError

-- A member of the message that is sent.
pub data Answer (V : Type 0) : Type 0 where
  control : Control → Answer V
  response : Response V → Answer V

-- `responses if batch else responses[0]`
pub data Outgoing (V : Type 0) : Type 0 where
  unsent : Outgoing V
  one_answer : Answer V → Outgoing V
  batch_answer : List (Answer V) → Outgoing V

-- The ids that a list of controls carries.
abbrev pub control_ids : List Control → List RequestId
control_ids [] = []
control_ids (pong key ∷ controls) = key ∷ control_ids controls
control_ids (bad_ping ∷ controls) = no_id ∷ control_ids controls

module _ {V : Type 0} where
  -- `[*controls, *(r for r in responses if r is not None)]`
  unfoldable pub answers_of : List Control → List (Option (Response V)) → List (Answer V)
  answers_of (c ∷ controls) responses = control c ∷ answers_of controls responses
  answers_of [] [] = []
  answers_of [] (none ∷ responses) = answers_of [] responses
  answers_of [] (some r ∷ responses) = response r ∷ answers_of [] responses

  -- The message that `invoke` sends, at `close_event.is_set()`.
  unfoldable pub compose : Bool → Bool → List (Answer V) → Outgoing V
  compose closed batch [] = unsent
  compose closed batch (a ∷ rest) =
      if closed then unsent else if batch then batch_answer (a ∷ rest) else one_answer a

  abbrev defined : Option (Option (Response V)) → Result CollectError (Option (Response V))
  defined none = err collect_failed
  defined (some answer) = ok answer

  abbrev pub members : Outgoing V → List (Answer V)
  members unsent = []
  members (one_answer a) = a ∷ []
  members (batch_answer answers) = answers

  abbrev pub messages : List (Call × Outcome V) → List Json
  messages [] = []
  messages ((call, outcome) ∷ rest) = call.message ∷ messages rest

  abbrev pub answer_id : Answer V → RequestId
  answer_id (control (pong key)) = key
  answer_id (control bad_ping) = no_id
  answer_id (response r) = response_id r

  -- What a call's task gives answers the call's message as it asks.
  abbrev pub IsHonest : Call × Outcome V → Type 0
  IsHonest (call, returned answer) = Answers call.message answer
  IsHonest (call, task_failed) = Unit
  IsHonest (call, task_cancelled) = Unit

  with_first :
      Option (Response V)
      → Result CollectError (List (Option (Response V)))
      → Result CollectError (List (Option (Response V)))
  with_first answer (err e) = err e
  with_first answer (ok answers) = ok (answer ∷ answers)

module _ {V : Type 0} (server : Server V) (closed cancelling : Bool) where
  -- `collect_one`; `cancelling` is `asyncio.current_task().cancelling()`.
  unfoldable pub collect_one : Call → Outcome V → Result CollectError (Option (Response V))
  collect_one call (returned answer) = ok answer
  collect_one call task_failed = err collect_failed
  collect_one call task_cancelled =
      if call.started || not call.cancel_requested || closed || cancelling
      then err collect_cancelled
      else defined (handle_failure server call.message (raised_rpc request_cancelled))

  -- `asyncio.gather`
  unfoldable pub collect_all :
      List (Call × Outcome V) → Result CollectError (List (Option (Response V)))
  unfolding collect_one with_first
  collect_all [] = ok []
  collect_all ((call, outcome) ∷ rest) =
      let others = collect_all rest in
      elim (collect_one call outcome) [ err e ↦ err e | ok answer ↦ with_first answer others ]

  sent :
      Bool
      → List Control
      → Result CollectError (List (Option (Response V)))
      → Result CollectError (Outgoing V)
  unfolding compose answers_of
  sent batch controls (err e) = err e
  sent batch controls (ok responses) = ok (compose closed batch (answers_of controls responses))

  -- `invoke(items, batch, controls)`
  unfoldable pub invoke :
      List (Call × Outcome V) → Bool → List Control → Result CollectError (Outgoing V)
  unfolding collect_all sent
  invoke items batch controls = sent batch controls (collect_all items)
