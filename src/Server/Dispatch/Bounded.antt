-- ===== src/Server/Dispatch/Bounded.antt =====
-- `_request_timeout` and `_run_bounded` of rpckit/server.py: how the time of a request is bounded,
-- and what answers it when it is interrupted. Times are ticks of the event loop's clock. A server
-- without middleware is modelled, so no request scope stands around the operation.
pub mod Moments
pub mod Ended
use pyrpckit.Prelude.{
  Bool, List, Option, String, [], false, if◌then◌else◌, leb, none, not, some, true, ℕ, ◌&&◌, ◌+◌,
  ◌∷◌,
}
use pyrpckit.Json.{Json}
use pyrpckit.Errors.Types.{request_cancelled, request_timeout}
use pyrpckit.Wire.Inspect.{request_method}
use pyrpckit.Server.Response.{Response}
use pyrpckit.Server.Dispatch.{Server, dispatch_request, failure_response, raised_rpc}
use pyrpckit.Server.Protocol.{MethodDefinition, find_method}
use pyrpckit.Connection.Rejection.{RpcError}

-- What happens while the operation runs. The event loop reads its clock, and fires the timer of
-- `timeout_at` if it is due; `$/cancelRequest` or something else, such as the shutdown of the
-- connection, cancels the task; the connection gets a close code.
pub data Moment : Type 0 where
  clock : ℕ → Moment
  client_cancels others_cancel closes : Moment

-- How the operation ends: it returns, which code that swallows a cancellation or never awaits does
-- at any time, or a `CancelledError` leaves it.
pub data Finish : Type 0 where
  returns unwinds : Finish

-- Whose cancellation the task got last.
pub data Cause : Type 0 where
  no_cause by_timer by_client by_others : Cause

pub record Waiting : Type 0 where
  -- `waiting.expired()`
  pub expired : Bool
  pub cause : Cause
  -- `self._connection.close_code is not None`
  pub closed : Bool

-- An answer, or the cancellation that goes on to the caller.
pub data Ending (V : Type 0) : Type 0 where
  answered : Option (Option (Response V)) → Ending V
  reraised : Ending V

-- The clock stands at `now`: the timer cancels the task, once.
unfoldable pub tick : Option ℕ → ℕ → Waiting → Waiting
tick none now w = w
tick (some deadline) now w =
    if leb deadline now && not w.expired then record w { expired = true; cause = by_timer } else w

unfoldable pub pass : Option ℕ → Waiting → Moment → Waiting
unfolding tick
pass deadline w (clock now) = tick deadline now w
pass deadline w client_cancels = record w { cause = by_client }
pass deadline w others_cancel = record w { cause = by_others }
pass deadline w closes = record w { closed = true }

unfoldable pub wait : Option ℕ → Waiting → List Moment → Waiting
wait deadline w [] = w
wait deadline w (m ∷ ms) = wait deadline (pass deadline w m) ms

abbrev pub waiting : Waiting
waiting = record { expired = false; cause = no_cause; closed = false }

-- `interruption`, of a `CancelledError`
unfoldable pub interruption : Waiting → Option RpcError
interruption w = if w.expired then some request_timeout else elim w.cause [
  | by_client ↦ if w.closed then none else some request_cancelled
  | no_cause ↦ none
  | by_timer ↦ none
  | by_others ↦ none
]

module _ {V : Type 0} (server : Server V) where
  unfoldable pub own_timeout : Option (MethodDefinition V) → Option ℕ
  own_timeout none = server.limit_request_timeout
  own_timeout (some method) =
      if method.has_timeout then method.timeout else server.limit_request_timeout

  unfoldable pub method_named : Option String → Option (MethodDefinition V)
  method_named none = find_method "" server.methods
  method_named (some name) = find_method name server.methods

  -- `self._methods.get(_request_method(raw_request) or "")`
  unfoldable pub request_timeout_of : Json → Option ℕ
  unfolding own_timeout method_named
  request_timeout_of raw = own_timeout (method_named (request_method raw))

  unfoldable pub deadline_of : Json → ℕ → Option ℕ
  unfolding request_timeout_of
  deadline_of raw started = elim (request_timeout_of raw) [
    | none ↦ none
    | some timeout ↦ some (started + timeout)
  ]

  unfoldable pub interrupted : Json → Option RpcError → Ending V
  interrupted raw none = reraised
  interrupted raw (some error) = answered (failure_response server raw (raised_rpc error) [])

  -- `_run_bounded`
  unfoldable pub run_bounded :
      Json → ℕ → List Moment → Finish → Option (Option (Response V)) → Ending V
  unfolding deadline_of wait pass interruption interrupted
  run_bounded raw started moments returns answer = answered answer
  run_bounded raw started moments unwinds answer =
      interrupted raw (interruption (wait (deadline_of raw started) waiting moments))

  -- `_handle_one_bounded`, whose operation is `_dispatch_request`
  unfoldable pub handle_one_bounded : Json → ℕ → List Moment → Finish → Ending V
  unfolding run_bounded
  handle_one_bounded raw started moments finish =
      run_bounded raw started moments finish (dispatch_request server raw)
