-- ===== src/Runtime/Replies/Batch.antt =====
-- The answers to the calls of a frame, in one message.
use pyrpckit.Prelude.{
  All, Bool, Bool-cases, List, Option, Result, [], ap, arith, err, false, inl, inr, map, none, not,
  ok, refl, some, subst, true, ◌++◌, ◌||◌, ◌∷◌, ◌≡◌,
}
use pyrpckit.Json.{Json}
use pyrpckit.Errors.Types.{request_cancelled}
use pyrpckit.Server.Response.{Response, response_id}
use pyrpckit.Server.Dispatch.{Server, handle_failure, raised_rpc}
use pyrpckit.Runtime.State.{Call, Control, bad_ping, pong}
use pyrpckit.Server.Dispatch.Answer.{Answers, IsAnswered, handle_failure-IsAnswered}
use pyrpckit.Server.Dispatch.Batch.{asked_ids, responses_given}
use pyrpckit.Wire.Envelope.{no_id}
use pyrpckit.Runtime.Replies.{
  Answer, CollectError, IsHonest, Outcome, Outgoing, answer_id, answers_of, collect_all,
  collect_one, compose, control_ids, defined, invoke, members, messages, returned, sent,
  task_cancelled, task_failed, with_first,
}

module _ {V : Type 0} (server : Server V) (closed cancelling : Bool) where
  defined_lem :
      (raw : Json) (answered : Option (Option (Response V))) (answer : Option (Response V))
      → IsAnswered raw answered
      → defined answered ≡ ok answer
      → Answers raw answer
  defined_lem raw answered answer (r, e, given) h =
      let same : r ≡ answer = ground arith in subst (Answers raw) same given

  collect_one-Answers :
      (call : Call) (outcome : Outcome V) (answer : Option (Response V))
      → IsHonest (call, outcome)
      → collect_one server closed cancelling call outcome ≡ ok answer
      → Answers call.message answer
  unfolding collect_one
  collect_one-Answers call (returned given) answer honest h =
      let same : given ≡ answer = ground arith in subst (Answers call.message) same honest
  collect_one-Answers call task_failed answer honest h = absurd (ground arith)
  collect_one-Answers call task_cancelled answer honest h =
      elim (Bool-cases (call.started || not call.cancel_requested || closed || cancelling)) [
        | inl raises ↦ absurd (ground arith)
        | inr asks ↦
            let refusal = handle_failure server call.message (raised_rpc request_cancelled) in
            let e : defined refusal ≡ ok answer = ground arith in
            defined_lem call.message refusal answer
              (handle_failure-IsAnswered server call.message (raised_rpc request_cancelled)) e
      ]

  -- The ids that the answers to a list of messages carry.
  answered_ids-step :
      (raw : Json) (raws : List Json) (answer : Option (Response V))
      (answers : List (Option (Response V)))
      → Answers raw answer
      → map response_id (responses_given answers) ≡ asked_ids raws
      → map response_id (responses_given (answer ∷ answers)) ≡ asked_ids (raw ∷ raws)
  unfolding responses_given
  answered_ids-step raw raws none answers quiet ids = rw quiet ids
  answered_ids-step raw raws (some r) answers (asked, same) ids = ground arith

  collect_all_lem :
      (tasks : List (Call × Outcome V)) (answers : List (Option (Response V)))
      → All IsHonest tasks
      → collect_all server closed cancelling tasks ≡ ok answers
      → map response_id (responses_given answers) ≡ asked_ids (messages tasks)
  unfolding collect_all with_first
  collect_all_lem [] answers honest h =
      let e : [] ≡ answers = ground arith in
      subst (λ a. map response_id (responses_given a) ≡ []) e (unfold responses_given in refl)
  collect_all_lem ((call, outcome) ∷ rest) answers (first, others) h =
      joined (collect_one server closed cancelling call outcome)
        (collect_all server closed cancelling rest) refl
        (λ more e. collect_all_lem rest more others e) h
    where
      joined :
          (one : Result CollectError (Option (Response V)))
          (all_others : Result CollectError (List (Option (Response V))))
          → collect_one server closed cancelling call outcome ≡ one
          → ((more : List (Option (Response V)))
              → all_others ≡ ok more
              → map response_id (responses_given more) ≡ asked_ids (messages rest))
          → (elim one [ err e ↦ err e | ok answer ↦ with_first answer all_others ]) ≡ ok answers
          → map response_id (responses_given answers) ≡ asked_ids (call.message ∷ messages rest)
      joined (err e) all_others e1 deeper k = cc
      joined (ok answer) (err e) e1 deeper k = cc
      joined (ok answer) (ok more) e1 deeper k =
          let same : (answer ∷ more) ≡ answers = ground arith in
          subst
            (λ a. map response_id (responses_given a) ≡ asked_ids (call.message ∷ messages rest))
            same
            (answered_ids-step call.message (messages rest) answer more
              (collect_one-Answers call outcome answer first e1) (deeper more refl))

  answers_of_lem :
      (controls : List Control) (answers : List (Option (Response V)))
      → map answer_id (answers_of controls answers)
        ≡ control_ids controls ++ map response_id (responses_given answers)
  unfolding answers_of responses_given
  answers_of_lem (pong key ∷ controls) answers =
      ap (λ ids. key ∷ ids) (answers_of_lem controls answers)
  answers_of_lem (bad_ping ∷ controls) answers =
      ap (λ ids. no_id ∷ ids) (answers_of_lem controls answers)
  answers_of_lem [] [] = refl
  answers_of_lem [] (none ∷ answers) = answers_of_lem [] answers
  answers_of_lem [] (some r ∷ answers) = ap (λ ids. response_id r ∷ ids) (answers_of_lem [] answers)

  members-compose : (answers : List (Answer V)) → members (compose false true answers) ≡ answers
  unfolding compose
  members-compose [] = refl
  members-compose (a ∷ answers) = refl

  -- When the tasks of a batch have answered their messages as these ask, and the connection is open,
  -- the one message that `invoke` sends holds the controls and then one response for each message
  -- that is no notification, in the order of the frame and under their ids.
  pub invoke_lem :
      (tasks : List (Call × Outcome V)) (controls : List Control) (out : Outgoing V)
      → closed ≡ false
      → All IsHonest tasks
      → invoke server closed cancelling tasks true controls ≡ ok out
      → map answer_id (members out) ≡ control_ids controls ++ asked_ids (messages tasks)
  unfolding invoke
  invoke_lem tasks controls out open_ honest h =
      go (collect_all server closed cancelling tasks) refl h
    where
      go :
          (all_answers : Result CollectError (List (Option (Response V))))
          → collect_all server closed cancelling tasks ≡ all_answers
          → sent server closed cancelling true controls all_answers ≡ ok out
          → map answer_id (members out) ≡ control_ids controls ++ asked_ids (messages tasks)
      go (err e) k1 k2 = unfold sent in absurd (ground arith)
      go (ok answers) k1 k2 =
          let composed : out ≡ compose closed true (answers_of controls answers) =
            unfold sent in ground arith in
          let whole = members-compose (answers_of controls answers) in
          rw
            (
              composed,
              open_,
              whole,
              answers_of_lem controls answers,
              collect_all_lem tasks answers honest k1,
            )
            refl
