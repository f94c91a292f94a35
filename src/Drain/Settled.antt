-- ===== src/Drain/Settled.antt =====
-- What is left of a session once the grace is over.
use pyrpckit.Prelude.{
  Bool, Bool-cases, List, Option, [], all, arith, false, if◌then◌else◌, inl, inr, none, not, refl,
  some, true, ℕ, ◌&&◌, ◌||◌, ◌∷◌, ◌≡◌,
}
use pyrpckit.Connection.Life.{Connection, stop}
use pyrpckit.Drain.{
  DrainEvent, Phase, RpcDrain, Session, attach, attaches, becomes_ready, begin_session, begins,
  cancel_pending, cleanup, cleanup_over, drain, drain_run, drain_step, draining, end_cleanup,
  end_grace, end_task, enter, grace_over, in_cleanup, leave, leave_session, make_ready, new_drain,
  on_session, over, start_drain, stop_connection, stop_session, stop_unfinished, task_ends, tick,
  with_session,
}

has_code : Connection → Bool
has_code c = elim c.close_code [ none ↦ false | some code ↦ true ]

-- A session that has left, or that was cancelled with a close code on its connection.
unfoldable pub settled : Session → Bool
unfolding has_code
settled s = s.finished || (s.cancelled && (elim s.connection [ none ↦ true | some c ↦ has_code c ]))

unfoldable pub past_grace : Phase → Bool
past_grace cleanup = true
past_grace over = true
past_grace _ = false

abbrev pub all_settled : RpcDrain → Bool
all_settled d = not (past_grace d.phase) || all settled d.sessions

has_code-stop : (c : Connection) → has_code (stop c) ≡ true
unfolding has_code stop
has_code-stop c = ground arith

stopped :
    (c : Option Connection)
    → (elim (stop_connection c) [ none ↦ true | some c' ↦ has_code c' ]) ≡ true
unfolding stop_connection
stopped none = refl
stopped (some c) = has_code-stop c

settled-stop : (s : Session) → settled (if s.finished then s else stop_session s) ≡ true
unfolding settled stop_session stop_connection
settled-stop s = elim (Bool-cases s.finished) [
  | inl e ↦ rw e refl
  | inr e ↦ rw e (stopped s.connection)
]

settled-stop_unfinished : (sessions : List Session) → all settled (stop_unfinished sessions) ≡ true
unfolding stop_unfinished
settled-stop_unfinished [] = refl
settled-stop_unfinished (s ∷ sessions) = rw (settled-stop s, settled-stop_unfinished sessions) refl

all-with_session :
    (n : ℕ) (change : Session → Session) (sessions : List Session)
    → ((s : Session) → settled s ≡ true → settled (change s) ≡ true)
    → all settled sessions ≡ true
    → all settled (with_session n change sessions) ≡ true
unfolding with_session
all-with_session n change [] keeps h = refl
all-with_session n change (s ∷ sessions) keeps h =
    ground (arith, h, keeps s, all-with_session n change sessions keeps)

on_session-all_settled :
    (n : ℕ) (change : Session → Session) (d : RpcDrain)
    → ((s : Session) → settled s ≡ true → settled (change s) ≡ true)
    → all_settled d ≡ true
    → all_settled (on_session n change d) ≡ true
unfolding on_session
on_session-all_settled n change d keeps h =
    ground (arith, h, all-with_session n change d.sessions keeps)

keeps-attach :
    (c : Option Connection) (b : Bool) (s : Session)
    → settled s ≡ true
    → settled (attach c b s) ≡ true
unfolding attach settled
keeps-attach c b s h = elim (Bool-cases (s.cancelled || s.finished)) [
  | inl e ↦ rw e h
  | inr e ↦ absurd (ground (arith, h, e))
]

keeps-make_ready : (s : Session) → settled s ≡ true → settled (make_ready s) ≡ true
unfolding make_ready settled
keeps-make_ready s h = ground (arith, h)

keeps-leave : (s : Session) → settled s ≡ true → settled (leave_session s) ≡ true
unfolding leave_session settled
keeps-leave s h = refl

keeps-end_task : (s : Session) → settled s ≡ true → settled (end_task s) ≡ true
unfolding end_task settled
keeps-end_task s h = ground (arith, h)

keeps-begin : (b : Bool) (s : Session) → settled s ≡ true → settled (begin_session b s) ≡ true
unfolding begin_session settled
keeps-begin b s h = ground (arith, h)

settled-cancel_pending :
    (sessions : List Session)
    → all settled sessions ≡ true
    → all settled (cancel_pending sessions) ≡ true
unfolding cancel_pending settled
settled-cancel_pending [] h = refl
settled-cancel_pending (s ∷ sessions) h = ground (arith, h, settled-cancel_pending sessions)

drain_step-settled :
    (d : RpcDrain) (e : DrainEvent) → all_settled d ≡ true → all_settled (drain_step d e) ≡ true
unfolding drain_step past_grace draining
drain_step-settled d (enter n) h = ground (arith, h)
drain_step-settled d (leave n) h =
    on_session-all_settled n leave_session d (λ s k. keeps-leave s k) h
drain_step-settled d (becomes_ready n) h =
    on_session-all_settled n make_ready d (λ s k. keeps-make_ready s k) h
drain_step-settled d (task_ends n) h =
    on_session-all_settled n end_task d (λ s k. keeps-end_task s k) h
drain_step-settled d (attaches n c b) h =
    on_session-all_settled n (attach c b) d (λ s k. keeps-attach c b s k) h
drain_step-settled d (begins n fails) h =
    ground
      (arith, h, on_session-all_settled n (begin_session fails) d (λ s k. keeps-begin fails s k) h)
drain_step-settled d (drain timeout) h = unfold start_drain in ground (arith, h)
drain_step-settled d grace_over h =
    unfold end_grace in ground (arith, h, settled-stop_unfinished d.sessions)
drain_step-settled d cleanup_over h =
    unfold end_cleanup in_cleanup in ground (arith, h, settled-cancel_pending d.sessions)
drain_step-settled d tick h = h

drain_run-settled :
    (d : RpcDrain) (es : List DrainEvent)
    → all_settled d ≡ true
    → all_settled (drain_run d es) ≡ true
unfolding drain_run
drain_run-settled d [] h = h
drain_run-settled d (e ∷ es) h = drain_run-settled (drain_step d e) es (drain_step-settled d e h)

-- In every run of a service from its start: once the grace of a drain is over, every session has left
-- or has been cancelled, and the connection of a cancelled one, if it has one, has a close code.
pub drained_sessions_are_settled :
    (es : List DrainEvent)
    → past_grace (drain_run new_drain es).phase ≡ true
    → all settled (drain_run new_drain es).sessions ≡ true
drained_sessions_are_settled es h =
    ground (arith, h, drain_run-settled new_drain es (unfold past_grace in refl))
