-- ===== src/Subscriptions/Sequence.antt =====
-- What a client sees of its subscriptions, in any run of a session.
use pyrpckit.Prelude.{
  Bool-cases, List, Option, Option-cases, String, [], arith, false, inl, inr, leb, length, none,
  refl, some, subst, true, ℕ, ◌+◌, ◌∷◌, ◌≡◌,
}
use pyrpckit.Json.{Fields, get}
use pyrpckit.Connection.Rejection.{RpcError}
use pyrpckit.Wire.Envelope.{Params, RequestEnvelope, RequestId, expects_response, named, positional}
use pyrpckit.Subscriptions.{
  Action, RunPoint, RunStep, Session, SessionEvent, SubscriptionTask, act, action_of,
  answers_unsubscribe, behind_error, behind_send, broken, check_params, closes_session, complete,
  completing, ends_task, failing, fails_handshake, find_task, from_generator, handle_params,
  handle_request, handles, is_sent, iterating, left, message_of, move_task, named_task,
  open_session, raises, returns, run_next, run_sends, run_task, runs, send_raises, sending,
  sends_handshake, session_run, session_step, subscribe, subscribes, tell, unsubscribe,
  unsubscribes, update_task, yields,
}
use pyrpckit.Subscriptions.Invariant.{SessionInv, count_handshakes}
use pyrpckit.Subscriptions.Limit.{open_session-SessionInv, session_step-SessionInv}
use pyrpckit.Subscriptions.Steps.{
  close-IsTold, handshake_failed-IsTold, handshake_sent-IsTold, payload-IsTold, task_done-IsTold,
  terminal-IsTold,
}
use pyrpckit.Subscriptions.Order.{
  IsTold, cancel-IsTold, find_task-update, finished, has_left, ordered, refused-IsTold, started,
  unsubscribed-IsTold, update-IsTold,
}
use pyrpckit.Server.Response.{ErrorData}

module _ {bound : ℕ} (m : ℕ) (s : Session) (t : SubscriptionTask)
    (found : find_task m s.tasks ≡ some t) (c : SessionInv bound s) (v : IsTold s) where
  moved : RunPoint → Session
  moved p = record s { tasks = update_task m (move_task p) s.tasks }

  -- Nothing is sent, and a task that has left stays so.
  silent-IsTold :
      (p : RunPoint) → (has_left p ≡ false → has_left t.point ≡ false) → IsTold (moved p)
  unfolding moved
  silent-IsTold p kept =
      update-IsTold m (move_task p) s (λ k. refl)
        (λ k e l.
          let same : t ≡ k = ground (arith, e, found) in
          subst (λ j. has_left j.point ≡ false) same (kept l))
        v

  sent-IsTold :
      (p : RunPoint) → t.point ≡ p → IsTold (tell m (message_of p) (moved (behind_send p)))
  unfolding message_of behind_send tell moved
  sent-IsTold iterating e = silent-IsTold iterating (λ l. rw e refl)
  sent-IsTold left e = silent-IsTold left (λ l. cc)
  sent-IsTold completing e = terminal-IsTold m complete s t found (rw e refl) c v
  sent-IsTold (failing error) e = terminal-IsTold m (broken error) s t found (rw e refl) c v
  sent-IsTold (sending value) e =
      payload-IsTold m value (moved iterating) (move_task iterating t)
        (ground (arith, found, find_task-update m m (move_task iterating) s.tasks (λ k. refl))) refl
        (silent-IsTold iterating (λ l. rw e refl))

  generated-IsTold : (next p : RunPoint) → t.point ≡ p → IsTold (moved (from_generator next p))
  unfolding from_generator
  generated-IsTold next iterating e = silent-IsTold next (λ l. rw e refl)
  generated-IsTold next completing e = silent-IsTold completing (λ l. rw e refl)
  generated-IsTold next left e = silent-IsTold left (λ l. cc)
  generated-IsTold next (sending value) e = silent-IsTold (sending value) (λ l. rw e refl)
  generated-IsTold next (failing error) e = silent-IsTold (failing error) (λ l. rw e refl)

  broken-IsTold :
      (error : ErrorData) (p : RunPoint) → t.point ≡ p → IsTold (moved (behind_error error p))
  unfolding behind_error
  broken-IsTold error iterating e = silent-IsTold iterating (λ l. rw e refl)
  broken-IsTold error completing e = silent-IsTold (failing error) (λ l. rw e refl)
  broken-IsTold error left e = silent-IsTold left (λ l. cc)
  broken-IsTold error (sending value) e = silent-IsTold (failing error) (λ l. rw e refl)
  broken-IsTold error (failing other) e = silent-IsTold left (λ l. cc)

  advanced-IsTold :
      (next : RunStep) → IsTold (tell m (run_sends next t.point) (moved (run_next next t.point)))
  unfolding run_sends run_next tell
  advanced-IsTold (yields value) = generated-IsTold (sending value) t.point refl
  advanced-IsTold returns = generated-IsTold completing t.point refl
  advanced-IsTold (raises error) = generated-IsTold (failing error) t.point refl
  advanced-IsTold is_sent = sent-IsTold t.point refl
  advanced-IsTold (send_raises error) = broken-IsTold error t.point refl

run_task-IsTold :
    {bound : ℕ} (m : ℕ) (next : RunStep) (s : Session)
    → SessionInv bound s
    → IsTold s
    → IsTold (run_task m next s)
unfolding run_task moved
run_task-IsTold m next s c v = elim (Option-cases (find_task m s.tasks)) [
  | inl absent ↦ rw (absent, run_task) v
  | inr (t, found) ↦ rw (found, run_task) (advanced-IsTold m s t found c v next)
]

module _ (id_text : ℕ → String) (params_model : String → Option (Fields → Option RpcError)) where
  subscribe-IsTold :
      (name : String) (raw : Fields) (request : RequestId) (s : Session)
      → IsTold s
      → IsTold (subscribe id_text params_model name raw request s)
  unfolding subscribe
  subscribe-IsTold name raw request s v =
      elim (Bool-cases (leb s.limit (length s.tasks + length s.handshakes))) [
        | inl full ↦ rw full (refused-IsTold request _ s v)
        | inr room ↦ elim (Option-cases (check_params (params_model name) raw)) [
          | inr (error, bad) ↦ rw room (rw (bad, subscribe) (refused-IsTold request error s v))
          | inl good ↦ rw room (
              rw (good, subscribe)
                (record {
                  told_start = v.told_start;
                  still_open = v.still_open;
                  unheard = λ n. unfold count_handshakes in ground (arith, v.unheard n, v.unborn n);
                  unborn = λ n k. v.unborn n (omega arith);
                  in_order = v.in_order;
                }))
        ]
      ]

  unsubscribe-IsTold :
      (name : String) (raw : Fields) (request : RequestId) (s : Session)
      → IsTold s
      → IsTold (unsubscribe id_text params_model name raw request s)
  unfolding unsubscribe
  unsubscribe-IsTold name raw request s v =
      elim (Option-cases (named_task id_text params_model name (get "subscriptionId" raw) s)) [
        | inl unknown ↦ rw (unknown, unsubscribe) (refused-IsTold request _ s v)
        | inr (t, known) ↦ rw (known, unsubscribe) (cancel-IsTold t.number s v)
      ]

  act-IsTold :
      (action : Option Action) (raw : Fields) (request : RequestId) (s : Session)
      → IsTold s
      → IsTold (act id_text params_model action raw request s)
  unfolding act
  act-IsTold none raw request s v = v
  act-IsTold (some (subscribes name)) raw request s v = subscribe-IsTold name raw request s v
  act-IsTold (some (unsubscribes name)) raw request s v = unsubscribe-IsTold name raw request s v

  handle_params-IsTold :
      (params : Params) (method : String) (request : RequestId) (s : Session)
      → IsTold s
      → IsTold (handle_params id_text params_model params method request s)
  unfolding handle_params
  handle_params-IsTold (positional vs) method request s v = refused-IsTold request _ s v
  handle_params-IsTold (named raw) method request s v =
      act-IsTold (action_of method s.definitions) raw request s v

  handle_request-IsTold :
      (request : RequestEnvelope) (s : Session)
      → IsTold s
      → IsTold (handle_request id_text params_model request s)
  unfolding handle_request
  handle_request-IsTold request s v = elim (Bool-cases (expects_response request)) [
    | inl asked ↦ rw asked (handle_params-IsTold request.params request.method request.id s v)
    | inr quiet ↦ rw quiet v
  ]

  session_step-IsTold :
      {bound : ℕ} (s : Session) (e : SessionEvent)
      → SessionInv bound s
      → IsTold s
      → IsTold (session_step id_text params_model s e)
  unfolding session_step
  session_step-IsTold s (handles request) c v = handle_request-IsTold request s v
  session_step-IsTold s (sends_handshake n) c v = handshake_sent-IsTold n s v
  session_step-IsTold s (fails_handshake n) c v = handshake_failed-IsTold n s v
  session_step-IsTold s (ends_task n) c v = task_done-IsTold n s v
  session_step-IsTold s (runs n next) c v = run_task-IsTold n next s c v
  session_step-IsTold s (answers_unsubscribe request) c v = unsubscribed-IsTold request s v
  session_step-IsTold s closes_session c v = close-IsTold s v

  run-IsTold :
      {bound : ℕ} (s : Session) (es : List SessionEvent)
      → SessionInv bound s
      → IsTold s
      → IsTold (session_run id_text params_model s es)
  unfolding session_run
  run-IsTold s [] c v = v
  run-IsTold s (e ∷ es) c v =
      run-IsTold (session_step id_text params_model s e) es
        (session_step-SessionInv id_text params_model s e c) (session_step-IsTold s e c v)

open_session-IsTold :
    (definitions : List String) (limit : ℕ) → IsTold (open_session definitions limit)
unfolding open_session started finished ordered find_task count_handshakes
open_session-IsTold definitions limit = record {
  told_start = λ n t e. cc;
  still_open = λ n t e. cc;
  unheard = λ n k. refl;
  unborn = λ n k. refl;
  in_order = refl;
}

-- In every run, each notification that is sent stands behind the response which gave the client its
-- subscription id, and no notification of a subscription follows its terminal one: a subscription
-- ends once at most.
pub session_run-ordered :
    (id_text : ℕ → String) (params_model : String → Option (Fields → Option RpcError))
    (definitions : List String) (limit : ℕ) (es : List SessionEvent)
    → ordered (session_run id_text params_model (open_session definitions limit) es).log ≡ true
session_run-ordered id_text params_model definitions limit es =
    (run-IsTold id_text params_model (open_session definitions limit) es
      (open_session-SessionInv definitions limit) (open_session-IsTold definitions limit)).in_order
