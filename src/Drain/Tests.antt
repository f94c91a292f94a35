-- ===== src/Drain/Tests.antt =====
-- Runs and witnesses of the theorems on drains.
use pyrpckit.Prelude.{List, [], all, arith, false, refl, some, true, ◌++◌, ◌∷◌, ◌≡◌}
use pyrpckit.Connection.Life.{create}
use pyrpckit.Drain.{
  DrainEvent, attaches, becomes_ready, begins, cleanup, cleanup_over, drain, drain_run, drain_step,
  draining, enter, grace_over, leave, new_drain, over, tick,
}
use pyrpckit.Drain.Settled.{drained_sessions_are_settled, past_grace, settled}
use pyrpckit.Drain.Deadline.{drain_ends, ticks}

-- Two sessions are open; one leaves in time, the other never does.
abbrev shutdown : List DrainEvent
shutdown =
    enter 1
    ∷ enter 2
    ∷ attaches 2 (some create) true
    ∷ becomes_ready 1
    ∷ drain 10
    ∷ begins 1 false
    ∷ leave 1
    ∷ tick
    ∷ tick
    ∷ tick
    ∷ tick
    ∷ tick
    ∷ tick
    ∷ tick
    ∷ tick
    ∷ tick
    ∷ grace_over
    ∷ []

drained_sessions_are_settled_example : all settled (drain_run new_drain shutdown).sessions ≡ true
unfolding drain_run drain_step past_grace
drained_sessions_are_settled_example = drained_sessions_are_settled shutdown refl

in_the_cleanup : (drain_run new_drain shutdown).phase ≡ cleanup
unfolding drain_run drain_step
in_the_cleanup = refl

abbrev stuck : List DrainEvent
stuck = enter 3 ∷ tick ∷ grace_over ∷ tick ∷ cleanup_over ∷ []

drain_ends_example :
    (drain_run
      (drain_step new_drain (enter 1))
      (drain 2 ∷ stuck ++ grace_over ∷ cleanup_over ∷ [])).phase
    ≡ over
unfolding drain_step draining ticks
drain_ends_example = drain_ends (drain_step new_drain (enter 1)) stuck 2 refl (omega arith)
