-- ===== src/Subscriptions/Tests.antt =====
-- Runs and witnesses of the theorems on subscriptions. The text of a number has its length.
use pyrpckit.Prelude.{
  List, Option, String, [], none, refl, str_append, suc, true, zero, ℕ, ◌∷◌, ◌≡◌,
}
use pyrpckit.Json.{Fields, end, null}
use pyrpckit.Connection.Rejection.{RpcError}
use pyrpckit.Errors.Types.{subscription_limit}
use pyrpckit.Wire.Envelope.{RequestEnvelope, named, text_id}
use pyrpckit.Subscriptions.{
  SessionEvent, act, action_of, behind_send, check_params, complete, drop_handshake, ends_task,
  find_handshake, find_task, from_generator, handle_params, handle_request, handles, handshake_sent,
  is_sent, message_of, notified, open_session, payload, refused, returns, run_next, run_sends,
  run_task, runs, send, sends_handshake, session_run, session_step, subscribe, subscribed,
  task_done, tell, update_task, yields,
}
use pyrpckit.Subscriptions.Invariant.{SessionInv}
use pyrpckit.Subscriptions.Limit.{session_run-SessionInv}
use pyrpckit.Subscriptions.Order.{ordered}
use pyrpckit.Subscriptions.Sequence.{session_run-ordered}

abbrev unary : ℕ → String
unary zero = ""
unary (suc n) = str_append "1" (unary n)

abbrev no_model : String → Option (Fields → Option RpcError)
no_model name = none

abbrev ask : String → Fields → RequestEnvelope
ask method params = record {
  id = text_id "a";
  has_id = true;
  method = method;
  params = named params;
  meta = none;
}

-- One subscription is opened, a second is refused by the limit, and the first ends.
abbrev script : List SessionEvent
script =
    handles (ask "ticks.subscribe" end)
    ∷ sends_handshake 1
    ∷ runs 1 (yields null)
    ∷ runs 1 is_sent
    ∷ handles (ask "ticks.subscribe" end)
    ∷ runs 1 returns
    ∷ runs 1 is_sent
    ∷ runs 1 (yields null)
    ∷ runs 1 is_sent
    ∷ ends_task 1
    ∷ []

script_log :
    (session_run unary no_model (open_session ("ticks" ∷ []) 1) script).log
    ≡ notified 1 complete
      ∷ refused (text_id "a") subscription_limit
      ∷ notified 1 (payload null)
      ∷ subscribed (text_id "a") 1
      ∷ []
unfolding session_run session_step open_session handle_request handle_params action_of act subscribe
    check_params handshake_sent find_handshake drop_handshake run_task run_next run_sends
    from_generator behind_send message_of tell find_task update_task send task_done
script_log = refl

session_run-SessionInv_example :
    SessionInv 1 (session_run unary no_model (open_session ("ticks" ∷ []) 1) script)
session_run-SessionInv_example = session_run-SessionInv unary no_model ("ticks" ∷ []) 1 script

session_run-ordered_example :
    ordered (session_run unary no_model (open_session ("ticks" ∷ []) 1) script).log ≡ true
session_run-ordered_example = session_run-ordered unary no_model ("ticks" ∷ []) 1 script
