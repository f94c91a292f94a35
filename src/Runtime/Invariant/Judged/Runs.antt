-- ===== src/Runtime/Invariant/Judged/Runs.antt =====
-- The judgement of calls, in any run of an endpoint.
use pyrpckit.Prelude.{
  Bool, List, Option, Option-cases, [], inl, inr, none, refl, some, true, ℕ, ◌∷◌,
}
use pyrpckit.Connection.Close.{internal_error}
use pyrpckit.Wire.Envelope.{RequestId}
use pyrpckit.Runtime.State.{Loop, find_call, registered}
use pyrpckit.Runtime.Reader.{Library}
use pyrpckit.Runtime.Tasks.{
  LoopEvent, call_done, call_ends, call_is_done, call_starts, called_back, closes, collector_done,
  drains, end_call, ended, finish, forget_key, invocation_done, is_call, loop_run, loop_step,
  receives, start, start_call,
}
use pyrpckit.Runtime.Invariant.Judged.{
  AreJudged, close_loop-AreJudged, if-AreJudged, release-AreJudged, remove-AreJudged,
  update-AreJudged,
}
use pyrpckit.Runtime.Invariant.Judged.Reading.{receive-AreJudged}

module _ (lib : Library) (drained : Bool) (bound : ℕ → ℕ) where
  start_call-AreJudged :
      (i : ℕ) (l : Loop)
      → AreJudged lib drained bound l
      → AreJudged lib drained bound (start_call i l)
  unfolding start_call
  start_call-AreJudged i l v =
      update-AreJudged lib drained bound i start l (λ c. (refl, refl, refl)) v

  end_call-AreJudged :
      (i : ℕ) (l : Loop)
      → AreJudged lib drained bound l
      → AreJudged lib drained bound (end_call i l)
  unfolding end_call
  end_call-AreJudged i l v = elim (Option-cases (find_call i l.calls)) [
    | inl absent ↦ rw (absent, ended) v
    | inr (c, found) ↦
        let finished =
          update-AreJudged lib drained bound c.ident finish l (λ d. (refl, refl, refl)) v in
        rw (found, ended)
          (if-AreJudged lib drained bound c.done l _ v (
            if-AreJudged lib drained bound c.started _ _
              (release-AreJudged lib drained bound c.reservation _ finished) finished))
  ]

  forget_key-AreJudged :
      (key : Option RequestId) (i : ℕ) (l : Loop)
      → AreJudged lib drained bound l
      → AreJudged lib drained bound (forget_key key i l)
  unfolding forget_key
  forget_key-AreJudged none i l v = v
  forget_key-AreJudged (some k) i l v =
      if-AreJudged lib drained bound (is_call i (registered k l.requests)) _ l v v

  call_done-AreJudged :
      (i : ℕ) (l : Loop)
      → AreJudged lib drained bound l
      → AreJudged lib drained bound (call_done i l)
  unfolding call_done
  call_done-AreJudged i l v = elim (Option-cases (find_call i l.calls)) [
    | inl absent ↦ rw (absent, called_back) v
    | inr (c, found) ↦
        rw (found, called_back)
          (if-AreJudged lib drained bound c.done _ l
            (forget_key-AreJudged c.key c.ident _ (
              release-AreJudged lib drained bound c.reservation _
                (remove-AreJudged lib drained bound c.ident l v)))
            v)
  ]

  invocation_done-AreJudged :
      (i : ℕ) (failed : Bool) (l : Loop)
      → AreJudged lib drained bound l
      → AreJudged lib drained bound (invocation_done i failed l)
  unfolding invocation_done
  invocation_done-AreJudged i failed l v =
      if-AreJudged lib drained bound failed _ _
        (close_loop-AreJudged lib drained bound internal_error _ none _ v) v

  drain-AreJudged :
      (l : Loop)
      → AreJudged lib drained bound l
      → AreJudged lib drained bound (record l { draining = true })
  drain-AreJudged l v = record { judged = v.judged; drains_on = λ d. refl; bounded = v.bounded }

  loop_step-AreJudged :
      (l : Loop) (e : LoopEvent)
      → AreJudged lib drained bound l
      → AreJudged lib drained bound (loop_step lib l e)
  unfolding loop_step
  loop_step-AreJudged l (receives now frame) v = receive-AreJudged lib drained bound now frame l v
  loop_step-AreJudged l (call_starts i) v = start_call-AreJudged i l v
  loop_step-AreJudged l (call_ends i) v = end_call-AreJudged i l v
  loop_step-AreJudged l (call_is_done i) v = call_done-AreJudged i l v
  loop_step-AreJudged l (collector_done i failed) v = invocation_done-AreJudged i failed l v
  loop_step-AreJudged l drains v = drain-AreJudged l v
  loop_step-AreJudged l (closes code reason) v =
      close_loop-AreJudged lib drained bound code reason none l v

  pub loop_run-AreJudged :
      (l : Loop) (es : List LoopEvent)
      → AreJudged lib drained bound l
      → AreJudged lib drained bound (loop_run lib l es)
  unfolding loop_run
  loop_run-AreJudged l [] v = v
  loop_run-AreJudged l (e ∷ es) v =
      loop_run-AreJudged (loop_step lib l e) es (loop_step-AreJudged l e v)
