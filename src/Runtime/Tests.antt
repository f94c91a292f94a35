-- ===== src/Runtime/Tests.antt =====
-- Runs and witnesses of the endpoint's theorems.
use pyrpckit.Prelude.{
  List, Option, String, [], count, false, if◌then◌else◌, length, map, none, ok, refl, some, str_eq,
  true, ℕ, ◌++◌, ◌∷◌, ◌≡◌, ◌≤◌,
}
use pyrpckit.Json.{Fields, Json, end, field, null, obj, pos, str}
use pyrpckit.Connection.Life.{create}
use pyrpckit.Errors.Types.{request_cancelled}
use pyrpckit.Wire.Envelope.{RequestEnvelope, RequestId, envelope_validate, number_id, text_id}
use pyrpckit.Runtime.Reader.{
  Library, add_collector, finish_frame, is_cancel, is_invalid, key_for, process_item, process_items,
  read_frame, read_message, read_text, receive, text_frame,
}
use pyrpckit.Runtime.Tasks.{
  LoopEvent, call_ends, call_is_done, call_starts, drains, loop_run, loop_step, receives, route,
  start_call,
}
use pyrpckit.Runtime.Invariant.{claims, count_key, running}
use pyrpckit.Runtime.Invariant.Bounds.{limits_hold, open_loop}
use pyrpckit.Runtime.State.{
  Call, Loop, collectors_full, find_call, pong, registered, reserve, update_call,
}
use pyrpckit.Runtime.Routing.{dispatched_holds_reservation, drain_admits_nothing}
use pyrpckit.Wire.Inspect.{looks_like_notification, request_id, request_method}
use pyrpckit.Server.Response.{from_error}
use pyrpckit.Server.Dispatch.{Server, failure_response, handle_failure}
use pyrpckit.Server.Dispatch.Batch.{asked_ids}
use pyrpckit.Runtime.Control.{
  cancel_call, cancel_key, cancel_key_of, cancel_keyed, cancel_registered, cancel_request, ping,
  request_cancel,
}
use pyrpckit.Runtime.Cancellation.{IsCancelledBy, cancelled_only_by_its_key}
use pyrpckit.Runtime.Replies.Batch.{invoke_lem}
use pyrpckit.Runtime.Replies.{
  Outcome, Outgoing, answer_id, batch_answer, collect_all, control, control_ids, invoke, members,
  messages, response, returned, task_cancelled,
}

abbrev echo : Json
echo = obj (field "jsonrpc" (str "2.0") (field "id" (str "a") (field "method" (str "echo") end)))

abbrev cancel_fields : Fields
cancel_fields =
    field "jsonrpc" (str "2.0")
      (field "method" (str "$/cancelRequest") (field "params" (obj (field "id" (str "a") end)) end))

-- Frames are named by the message that they decode to.
abbrev decode : String → Option Json
decode frame =
    if str_eq frame "echo"
    then some echo
    else if str_eq frame "cancel"
    then some (obj cancel_fields)
    else none

abbrev lib : Library
lib = record {
  encoded_length = λ frame. 4;
  loads = decode;
  metadata_size = λ fs. some 2;
  server_id = λ n. "server:";
}

abbrev script : List LoopEvent
script =
    receives 0 (text_frame "echo")
    ∷ call_starts 1
    ∷ receives 3 (text_frame "cancel")
    ∷ receives 4 (text_frame "echo")
    ∷ call_ends 1
    ∷ call_is_done 1
    ∷ drains
    ∷ []

limits_hold_example :
    let l = loop_run lib (open_loop 1 1 8 none 4 create) script in
    (length (running l.calls) ≤ 1)
    × (length l.collectors ≤ 2)
    × ((k : RequestId) → count_key k l.requests ≤ 1)
limits_hold_example = limits_hold lib 1 1 8 none 4 create script

-- The endpoint while its one call runs.
abbrev busy : Loop
busy =
    loop_run lib (open_loop 1 1 8 none 4 create)
      (receives 0 (text_frame "echo") ∷ call_starts 1 ∷ [])

abbrev running_call : Call
running_call = record {
  ident = 1;
  message = echo;
  reservation = some 0;
  invalid = false;
  batch = false;
  admitted_at = 0;
  shutting_down = false;
  key = some (text_id "a");
  started = true;
  cancel_requested = false;
  done = false;
}

dispatched_holds_reservation_example :
    ((envelope : RequestEnvelope) × (envelope_validate lib.metadata_size echo ≡ some envelope)
      × (is_cancel lib envelope ≡ false))
    × ((r : ℕ) × (some 0 ≡ some r)
        × (count r busy.reservations ≡ 1)
        × (count r (claims busy.calls) ≡ 1))
unfolding loop_run loop_step open_loop receive read_frame read_text read_message finish_frame
    process_items process_item find_call start_call update_call pyrpckit.Client.resolve
    cancel_request ping collectors_full key_for is_invalid envelope_validate registered reserve
    add_collector route request_method
dispatched_holds_reservation_example =
    dispatched_holds_reservation lib 1 1 8 none 4 create
      (receives 0 (text_frame "echo") ∷ call_starts 1 ∷ []) (λ method. false) 1 running_call refl
      refl refl

-- A drain begins while the call runs, and another frame arrives.
drain_admits_nothing_example :
    count 0 (
      claims
        (loop_run lib
          (open_loop 1 1 8 none 4 create)
          (receives 0 (text_frame "echo") ∷ call_starts 1 ∷ [])).calls)
    ≡ 1
unfolding loop_run loop_step open_loop receive read_frame read_text read_message finish_frame
    process_items process_item find_call start_call update_call pyrpckit.Client.resolve
    cancel_request ping collectors_full key_for is_invalid envelope_validate registered reserve
    add_collector
drain_admits_nothing_example =
    drain_admits_nothing lib 1 1 8 none 4 create
      (receives 0 (text_frame "echo") ∷ call_starts 1 ∷ []) (receives 1 (text_frame "other") ∷ []) 1
      0 running_call refl refl

-- The same call, before its cancellation arrives.
abbrev one_call : Loop
one_call = record (open_loop 1 1 8 none 4 create) {
  next = 2;
  reservations = 0 ∷ [];
  calls = running_call ∷ [];
  requests = (text_id "a", 1) ∷ [];
}

cancelled_only_by_its_key_example : IsCancelledBy (obj cancel_fields) one_call 1 running_call
unfolding cancel_request cancel_key cancel_key_of cancel_keyed cancel_registered cancel_call
    registered find_call update_call
cancelled_only_by_its_key_example =
    cancelled_only_by_its_key one_call 1 running_call (obj cancel_fields)
      (request_cancel running_call) refl refl refl refl

-- A batch of a request that was cancelled before it ran, and a notification.
abbrev ended_tasks : List (Call × Outcome ℕ)
ended_tasks =
    (record running_call { started = false; cancel_requested = true; done = true }, task_cancelled)
    ∷ (
      record running_call {
        ident = 2;
        message = obj (field "jsonrpc" (str "2.0") (field "method" (str "echo") end));
        done = true;
      },
      returned none,
    )
    ∷ []

abbrev server : Server ℕ
server = record {
  methods = [];
  resolve = λ dependency. ok dependency;
  error_mapper = none;
  strict_errors = true;
  max_batch_size = 3;
  limit_request_timeout = none;
  encoded_size = λ fs. some 2;
  unexpected = λ fs. record {
    first = record {
      location = "x";
      issue_message = "Extra inputs are not permitted";
      issue = null;
    };
    others = [];
  };
}

abbrev reply : Outgoing ℕ
reply = batch_answer (
    control (pong (number_id (pos 1))) ∷ response (from_error (text_id "a") request_cancelled) ∷ [])

invoke_lem_example :
    map answer_id (members reply)
    ≡ control_ids (pong (number_id (pos 1)) ∷ []) ++ asked_ids (messages ended_tasks)
unfolding invoke collect_all looks_like_notification handle_failure failure_response
    pyrpckit.Server.Mapping.rpc_error request_id request_method
invoke_lem_example =
    invoke_lem server false false ended_tasks (pong (number_id (pos 1)) ∷ []) reply refl
      (tt, (refl, tt)) refl
