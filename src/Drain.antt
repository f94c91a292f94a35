-- ===== src/Drain.antt =====
-- rpckit/drain.py: `RpcDrain` and `_DrainSession` as a state machine. An event is a piece of code
-- that runs without an await; one that is not enabled leaves the state as it is. Times are ticks.
pub mod Settled
pub mod Deadline
mod Tests
use pyrpckit.Prelude.{
  Bool, List, Option, [], all, false, if◌then◌else◌, leb, none, not, some, suc, true, ℕ, ◌&&◌, ◌*◌,
  ◌+◌, ◌/◌, ◌==◌, ◌||◌, ◌∷◌,
}
use pyrpckit.Connection.Life.{Connection, stop}

-- `_DrainSession`, with what became of its task and of its grace task.
pub record Session : Type 0 where
  pub session_ident : ℕ
  pub connection : Option Connection
  pub has_begin : Bool
  pub ready : Bool
  pub finished : Bool
  -- `begin` was called by `finish`; it raised
  pub begun : Bool
  pub begin_failed : Bool
  -- `task.cancel()` was called; the task is done
  pub cancelled : Bool
  pub task_done : Bool

-- Where `_drain` stands; `not_draining` is `_task is None`.
pub data Phase : Type 0 where
  not_draining grace cleanup over : Phase

-- `_sessions` is those sessions that are not finished.
pub record RpcDrain : Type 0 where
  pub sessions : List Session
  pub phase : Phase
  pub now : ℕ
  pub grace_until : ℕ
  pub deadline : ℕ

abbrev pub new_drain : RpcDrain
new_drain = record { sessions = []; phase = not_draining; now = 0; grace_until = 0; deadline = 0 }

abbrev pub new_session : ℕ → Session
new_session n = record {
  session_ident = n;
  connection = none;
  has_begin = false;
  ready = false;
  finished = false;
  begun = false;
  begin_failed = false;
  cancelled = false;
  task_done = false;
}

-- `RpcDrain.draining`
unfoldable pub draining : Phase → Bool
draining not_draining = false
draining _ = true

in_grace : Phase → Bool
in_grace grace = true
in_grace _ = false

in_cleanup : Phase → Bool
in_cleanup cleanup = true
in_cleanup _ = false

-- `RpcDrain.connection_count`
unfoldable pub connection_count : List Session → ℕ
connection_count [] = 0
connection_count (s ∷ sessions) =
    let rest = connection_count sessions in if s.finished then rest else suc rest

unfoldable pub with_session : ℕ → (Session → Session) → List Session → List Session
with_session n change [] = []
with_session n change (s ∷ sessions) =
    let rest = with_session n change sessions in
    if s.session_ident == n then change s ∷ rest else s ∷ rest

stop_connection : Option Connection → Option Connection
stop_connection none = none
stop_connection (some c) = some (stop c)

-- `_DrainSession.stop`
unfoldable pub stop_session : Session → Session
unfolding stop_connection
stop_session s = record s { connection = stop_connection s.connection; cancelled = true }

-- `for session in sessions: if not session.finished.is_set(): session.stop()`
unfoldable pub stop_unfinished : List Session → List Session
unfolding stop_session
stop_unfinished [] = []
stop_unfinished (s ∷ sessions) =
    (if s.finished then s else stop_session s) ∷ stop_unfinished sessions

-- A grace task is done when `finish` returns or `begin` raises.
abbrev pub grace_done : List Session → Bool
grace_done sessions = all (λ s. s.finished || s.begin_failed) sessions

abbrev pub work_done : List Session → Bool
work_done sessions = all (λ s. s.task_done) sessions

-- What the code of a session does; a cancelled task only leaves.
attach : Option Connection → Bool → Session → Session
attach c is_ready s =
    if s.cancelled || s.finished
    then s
    else record s { connection = c; ready = s.ready || is_ready }

make_ready : Session → Session
make_ready s = if s.cancelled || s.finished then s else record s { has_begin = true; ready = true }

-- The `finally` of `_session`.
unfoldable pub leave_session : Session → Session
leave_session s = record s { finished = true; ready = true }

end_task : Session → Session
end_task s = if s.finished then record s { task_done = true } else s

-- `finish` behind `ready.wait()`.
begin_session : Bool → Session → Session
begin_session fails s =
    if s.ready && not s.finished && s.has_begin && not s.begun
    then record s { begun = true; begin_failed = fails }
    else s

pub data DrainEvent : Type 0 where
  enter leave becomes_ready task_ends : ℕ → DrainEvent
  attaches : ℕ → Option Connection → Bool → DrainEvent
  begins : ℕ → Bool → DrainEvent
  -- `drain(timeout=...)` and the two waits of `_drain`
  drain : ℕ → DrainEvent
  grace_over cleanup_over tick : DrainEvent

on_session : ℕ → (Session → Session) → RpcDrain → RpcDrain
unfolding with_session
on_session n change d = record d { sessions = with_session n change d.sessions }

-- A second call of `drain` waits for the first one's task, which itself is never cancelled.
start_drain : ℕ → RpcDrain → RpcDrain
start_drain timeout d = if draining d.phase then d else record d {
  phase = grace;
  grace_until = d.now + timeout * 9 / 10;
  deadline = d.now + timeout;
}

end_grace : RpcDrain → RpcDrain
end_grace d =
    if in_grace d.phase && (grace_done d.sessions || leb d.grace_until d.now)
    then record d { sessions = stop_unfinished d.sessions; phase = cleanup }
    else d

-- `for task in pending: task.cancel()`
cancel_pending : List Session → List Session
cancel_pending [] = []
cancel_pending (s ∷ sessions) =
    (if s.task_done then s else record s { cancelled = true }) ∷ cancel_pending sessions

end_cleanup : RpcDrain → RpcDrain
unfolding cancel_pending
end_cleanup d =
    if in_cleanup d.phase && (work_done d.sessions || leb d.deadline d.now)
    then record d { sessions = cancel_pending d.sessions; phase = over }
    else d

unfoldable pub drain_step : RpcDrain → DrainEvent → RpcDrain
unfolding draining in_grace in_cleanup on_session attach make_ready leave_session end_task
    begin_session start_drain end_grace end_cleanup
drain_step d (enter n) =
    if draining d.phase then d else record d { sessions = new_session n ∷ d.sessions }
drain_step d (leave n) = on_session n leave_session d
drain_step d (becomes_ready n) = on_session n make_ready d
drain_step d (task_ends n) = on_session n end_task d
drain_step d (attaches n c is_ready) = on_session n (attach c is_ready) d
drain_step d (begins n fails) = if in_grace d.phase then on_session n (begin_session fails) d else d
drain_step d (drain timeout) = start_drain timeout d
drain_step d grace_over = end_grace d
drain_step d cleanup_over = end_cleanup d
drain_step d tick = record d { now = suc d.now }

unfoldable pub drain_run : RpcDrain → List DrainEvent → RpcDrain
drain_run d [] = d
drain_run d (e ∷ es) = drain_run (drain_step d e) es
