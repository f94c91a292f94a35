-- ===== src/Runtime/Tasks.antt =====
-- The tasks that the reader starts, as the event loop runs them: the calls (`invoke_one`,
-- `call_done`), the response collectors (`invocation_done`), and the steps of the endpoint.
use pyrpckit.Prelude.{
  Bool, List, Option, String, [], false, if◌then◌else◌, none, not, some, true, ℕ, ◌&&◌, ◌==◌, ◌∷◌,
}
use pyrpckit.Connection.Close.{ConnectionClose, internal_error}
use pyrpckit.Wire.Envelope.{RequestId}
use pyrpckit.Wire.Inspect.{request_method}
use pyrpckit.Runtime.State.{
  Call, Collector, Loop, close_loop, find_call, registered, release, remove_call, unregister,
  update_call,
}
use pyrpckit.Runtime.Reader.{Frame, Library, receive}

-- What `invoke_one` does with a call.
pub data Route : Type 0 where
  refused_invalid refused_shutdown refused_pending to_subscriptions to_server : Route

abbrev owned : (String → Bool) → Option String → Bool
owned owns none = false
owned owns (some method) = owns method

unfoldable pub route : (String → Bool) → Call → Route
route owns call =
    if call.invalid
    then refused_invalid
    else if call.shutting_down
    then refused_shutdown
    else elim call.reservation [
      | none ↦ refused_pending
      | some r ↦
          if not call.batch && owned owns (request_method call.message)
          then to_subscriptions
          else to_server
    ]

abbrev pub start : Call → Call
start call = record call { started = true }

abbrev pub finish : Call → Call
finish call = record call { done = true }

-- The task runs for the first time.
unfoldable pub start_call : ℕ → Loop → Loop
start_call i l = record l { calls = update_call i start l.calls }

unfoldable pub ended : Option Call → Loop → Loop
ended none l = l
ended (some call) l =
    if call.done
    then l
    else let l' = record l { calls = update_call call.ident finish l.calls } in
      if call.started then release call.reservation l' else l'

-- The task ends. Its `finally` releases the reservation, unless it was cancelled before it ran.
unfoldable pub end_call : ℕ → Loop → Loop
unfolding ended
end_call i l = ended (find_call i l.calls) l

abbrev pub is_call : ℕ → Option ℕ → Bool
is_call i none = false
is_call i (some j) = i == j

unfoldable pub forget_key : Option RequestId → ℕ → Loop → Loop
forget_key none i l = l
forget_key (some k) i l =
    if is_call i (registered k l.requests)
    then record l { requests = unregister k l.requests }
    else l

unfoldable pub called_back : Option Call → Loop → Loop
unfolding forget_key
called_back none l = l
called_back (some call) l =
    if call.done
    then forget_key call.key call.ident
        (release call.reservation (record l { calls = remove_call call.ident l.calls }))
    else l

-- `call_done`, which runs after the task has ended.
unfoldable pub call_done : ℕ → Loop → Loop
unfolding called_back
call_done i l = called_back (find_call i l.calls) l

unfoldable pub remove_collector : ℕ → List Collector → List Collector
remove_collector i [] = []
remove_collector i (c ∷ cs) =
    if c.task == i then remove_collector i cs else c ∷ remove_collector i cs

-- `invocation_done`: a collector that failed closes the connection.
unfoldable pub invocation_done : ℕ → Bool → Loop → Loop
unfolding remove_collector
invocation_done i failed l =
    let l' = record l { collectors = remove_collector i l.collectors } in
    if failed then close_loop internal_error "Internal error" none l' else l'

pub data LoopEvent : Type 0 where
  receives : ℕ → Frame → LoopEvent
  call_starts call_ends call_is_done : ℕ → LoopEvent
  collector_done : ℕ → Bool → LoopEvent
  drains : LoopEvent
  closes : ConnectionClose → String → LoopEvent

unfoldable pub loop_step : Library → Loop → LoopEvent → Loop
loop_step lib l (receives now frame) = receive lib now frame l
loop_step lib l (call_starts i) = start_call i l
loop_step lib l (call_ends i) = end_call i l
loop_step lib l (call_is_done i) = call_done i l
loop_step lib l (collector_done i failed) = invocation_done i failed l
loop_step lib l drains = record l { draining = true }
loop_step lib l (closes code reason) = close_loop code reason none l

unfoldable pub loop_run : Library → Loop → List LoopEvent → Loop
loop_run lib l [] = l
loop_run lib l (e ∷ es) = loop_run lib (loop_step lib l e) es
