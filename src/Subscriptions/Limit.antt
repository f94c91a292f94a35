-- ===== src/Subscriptions/Limit.antt =====
-- The limit of a session, in any run.
use pyrpckit.Prelude.{
  Bool-cases, List, Option, Option-cases, String, [], arith, inl, inr, leb, length, none, refl,
  some, ℕ, ◌+◌, ◌∷◌,
}
use pyrpckit.Json.{Fields, get}
use pyrpckit.Connection.Rejection.{RpcError}
use pyrpckit.Wire.Envelope.{Params, RequestEnvelope, RequestId, expects_response, named, positional}
use pyrpckit.Subscriptions.{
  Action, Session, SessionEvent, act, action_of, answers_unsubscribe, cancel_task, check_params,
  closes_session, ends_task, fails_handshake, handle_params, handle_request, handles, named_task,
  open_session, runs, send, sends_handshake, session_run, session_step, subscribe, subscribes,
  unsubscribe, unsubscribes,
}
use pyrpckit.Subscriptions.Invariant.{
  SessionInv, close-SessionInv, count_handshakes, count_tasks, handshake_failed-SessionInv,
  handshake_sent-SessionInv, run_task-SessionInv, task_done-SessionInv, update-SessionInv,
}

module _ (id_text : ℕ → String) (params_model : String → Option (Fields → Option RpcError))
    {bound : ℕ} where
  subscribe-SessionInv :
      (name : String) (raw : Fields) (request : RequestId) (s : Session)
      → SessionInv bound s
      → SessionInv bound (subscribe id_text params_model name raw request s)
  unfolding subscribe send
  subscribe-SessionInv name raw request s v =
      elim (Bool-cases (leb s.limit (length s.tasks + length s.handshakes))) [
        | inl full ↦ rw full v
        | inr room ↦ elim (Option-cases (check_params (params_model name) raw)) [
          | inr (error, bad) ↦ rw room (rw (bad, subscribe) v)
          | inl good ↦ rw room (
              rw (good, subscribe)
                (record {
                  same_limit = v.same_limit;
                  bounded = ground (arith, room, v.same_limit);
                  unique = λ n. unfold count_handshakes in ground (arith, v.unique n, v.fresh n);
                  fresh = λ n k. unfold count_handshakes in ground (arith, v.fresh n);
                }))
        ]
      ]

  unsubscribe-SessionInv :
      (name : String) (raw : Fields) (request : RequestId) (s : Session)
      → SessionInv bound s
      → SessionInv bound (unsubscribe id_text params_model name raw request s)
  unfolding unsubscribe send
  unsubscribe-SessionInv name raw request s v =
      elim (Option-cases (named_task id_text params_model name (get "subscriptionId" raw) s)) [
        | inl unknown ↦ rw (unknown, unsubscribe) v
        | inr (t, known) ↦
            rw (known, unsubscribe) (update-SessionInv t.number cancel_task s (λ k. refl) v)
      ]

  act-SessionInv :
      (action : Option Action) (raw : Fields) (request : RequestId) (s : Session)
      → SessionInv bound s
      → SessionInv bound (act id_text params_model action raw request s)
  unfolding act
  act-SessionInv none raw request s v = v
  act-SessionInv (some (subscribes name)) raw request s v =
      subscribe-SessionInv name raw request s v
  act-SessionInv (some (unsubscribes name)) raw request s v =
      unsubscribe-SessionInv name raw request s v

  handle_params-SessionInv :
      (params : Params) (method : String) (request : RequestId) (s : Session)
      → SessionInv bound s
      → SessionInv bound (handle_params id_text params_model params method request s)
  unfolding handle_params send
  handle_params-SessionInv (positional vs) method request s v = v
  handle_params-SessionInv (named raw) method request s v =
      act-SessionInv (action_of method s.definitions) raw request s v

  handle_request-SessionInv :
      (request : RequestEnvelope) (s : Session)
      → SessionInv bound s
      → SessionInv bound (handle_request id_text params_model request s)
  unfolding handle_request
  handle_request-SessionInv request s v = elim (Bool-cases (expects_response request)) [
    | inl asked ↦ rw asked (handle_params-SessionInv request.params request.method request.id s v)
    | inr quiet ↦ rw quiet v
  ]

  pub session_step-SessionInv :
      (s : Session) (e : SessionEvent)
      → SessionInv bound s
      → SessionInv bound (session_step id_text params_model s e)
  unfolding session_step send
  session_step-SessionInv s (handles request) v = handle_request-SessionInv request s v
  session_step-SessionInv s (sends_handshake n) v = handshake_sent-SessionInv n s v
  session_step-SessionInv s (fails_handshake n) v = handshake_failed-SessionInv n s v
  session_step-SessionInv s (ends_task n) v = task_done-SessionInv n s v
  session_step-SessionInv s (runs n next) v = run_task-SessionInv n next s v
  session_step-SessionInv s (answers_unsubscribe request) v = v
  session_step-SessionInv s closes_session v = close-SessionInv s v

  run_keeps :
      (s : Session) (es : List SessionEvent)
      → SessionInv bound s
      → SessionInv bound (session_run id_text params_model s es)
  unfolding session_run
  run_keeps s [] v = v
  run_keeps s (e ∷ es) v =
      run_keeps (session_step id_text params_model s e) es (session_step-SessionInv s e v)

pub open_session-SessionInv :
    (definitions : List String) (limit : ℕ) → SessionInv limit (open_session definitions limit)
unfolding open_session count_tasks count_handshakes
open_session-SessionInv definitions limit = record {
  same_limit = refl;
  bounded = omega arith;
  unique = λ n. omega arith;
  fresh = λ n k. refl;
}

-- Whatever requests, answers, notifications and ends of tasks happen, in any order: the running
-- subscriptions and the handshakes in flight number at most the limit, and no two share a number.
pub session_run-SessionInv :
    (id_text : ℕ → String) (params_model : String → Option (Fields → Option RpcError))
    (definitions : List String) (limit : ℕ) (es : List SessionEvent)
    → SessionInv limit (session_run id_text params_model (open_session definitions limit) es)
session_run-SessionInv id_text params_model definitions limit es =
    run_keeps id_text params_model (open_session definitions limit) es
      (open_session-SessionInv definitions limit)
