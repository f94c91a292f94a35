-- ===== src/Drain/Deadline.antt =====
-- A drain ends by its deadline.
use pyrpckit.Prelude.{List, [], ap, arith, false, refl, true, ℕ, ◌++◌, ◌+◌, ◌∙◌, ◌∷◌, ◌≡◌, ◌≤◌}
use pyrpckit.Drain.{
  DrainEvent, RpcDrain, Session, attaches, becomes_ready, begins, cleanup_over, drain, drain_run,
  drain_step, draining, end_cleanup, end_grace, enter, grace_over, in_cleanup, in_grace, leave,
  on_session, over, start_drain, task_ends, tick,
}

unfoldable pub passes : DrainEvent → ℕ
passes tick = 1
passes _ = 0

-- The time that passes in a run.
unfoldable pub ticks : List DrainEvent → ℕ
unfolding passes
ticks [] = 0
ticks (e ∷ es) = passes e + ticks es

-- A drain has begun, and its deadline is so many ticks away.
abbrev pub Within : ℕ → RpcDrain → Type 0
Within left d =
    (draining d.phase ≡ true) × (d.grace_until ≤ d.deadline) × (d.deadline ≤ d.now + left)

on_session-Within :
    (left n : ℕ) (change : Session → Session) (d : RpcDrain)
    → Within left d
    → Within left (on_session n change d)
unfolding on_session
on_session-Within left n change d h = h

drain_step-Within :
    (left : ℕ) (d : RpcDrain) (e : DrainEvent)
    → Within (passes e + left) d
    → Within left (drain_step d e)
unfolding drain_step passes draining
drain_step-Within left d (enter n) (b, g, t) =
    (ground (arith, b), ground (arith, g), ground (arith, t))
drain_step-Within left d (leave n) (b, g, t) = unfold on_session in (b, g, omega (arith, t))
drain_step-Within left d (becomes_ready n) (b, g, t) = unfold on_session in (b, g, omega (arith, t))
drain_step-Within left d (task_ends n) (b, g, t) = unfold on_session in (b, g, omega (arith, t))
drain_step-Within left d (attaches n c ready) (b, g, t) =
    unfold on_session in (b, g, omega (arith, t))
drain_step-Within left d (begins n fails) (b, g, t) =
    unfold on_session in (ground (arith, b), ground (arith, g), ground (arith, t))
drain_step-Within left d (drain timeout) (b, g, t) =
    unfold start_drain draining in (ground (arith, b), ground (arith, b, g), ground (arith, b, t))
drain_step-Within left d grace_over (b, g, t) =
    unfold end_grace draining in (ground (arith, b), ground (arith, g), ground (arith, t))
drain_step-Within left d cleanup_over (b, g, t) =
    unfold end_cleanup draining in (ground (arith, b), ground (arith, g), ground (arith, t))
drain_step-Within left d tick (b, g, t) = (b, g, omega (arith, t))

drain_run-Within :
    (d : RpcDrain) (es : List DrainEvent) → Within (ticks es) d → Within 0 (drain_run d es)
unfolding drain_run ticks
drain_run-Within d [] h = h
drain_run-Within d (e ∷ es) h =
    drain_run-Within (drain_step d e) es (drain_step-Within (ticks es) d e h)

-- The two waits of a drain return at its deadline at the latest.
waits_return :
    (d : RpcDrain) → Within 0 d → (drain_run d (grace_over ∷ cleanup_over ∷ [])).phase ≡ over
unfolding drain_run drain_step end_grace end_cleanup in_grace in_cleanup draining
waits_return d (b, g, t) = ground (arith, b, g, t)

drain_run-append :
    (d : RpcDrain) (es fs : List DrainEvent)
    → drain_run d (es ++ fs) ≡ drain_run (drain_run d es) fs
unfolding drain_run
drain_run-append d [] fs = refl
drain_run-append d (e ∷ es) fs = drain_run-append (drain_step d e) es fs

started-Within :
    (d : RpcDrain) (timeout left : ℕ)
    → draining d.phase ≡ false
    → timeout ≤ left
    → Within left (drain_step d (drain timeout))
unfolding drain_step start_drain draining
started-Within d timeout left b t = (ground (arith, b), ground (arith, b), ground (arith, b, t))

-- Whatever the sessions do meanwhile, and however they end or fail to end: when the time of a drain
-- has passed, its two waits return and it is over.
pub drain_ends :
    (d : RpcDrain) (es : List DrainEvent) (timeout : ℕ)
    → draining d.phase ≡ false
    → timeout ≤ ticks es
    → (drain_run d (drain timeout ∷ es ++ grace_over ∷ cleanup_over ∷ [])).phase ≡ over
unfolding drain_run
drain_ends d es timeout b t =
    let started = drain_step d (drain timeout) in
    ap (λ (x : RpcDrain). x.phase) (drain_run-append started es (grace_over ∷ cleanup_over ∷ []))
    ∙ waits_return (drain_run started es)
        (drain_run-Within started es (started-Within d timeout (ticks es) b t))
