-- ===== src/Middleware.antt =====
-- `_middleware_scope` of rpckit/middleware.py: the managers of a chain are entered in order and left
-- in reverse. A manager is known by a number; what its enter and exit raise is given, and the
-- exit sees the error of the scope. Timing, logging and the recorded outcome are left out.
pub mod Scope
mod Tests
use pyrpckit.Prelude.{Bool, List, Option, [], false, if◌then◌else◌, none, some, true, ℕ, ◌++◌, ◌∷◌}

-- A raised exception: `except Exception` catches it if `is_exception`, and a cancellation is none.
pub record Failure : Type 0 where
  pub ident : ℕ
  pub is_exception : Bool

pub record Manager : Type 0 where
  pub number : ℕ
  -- What making and entering the manager raises.
  pub enter : Option Failure
  pub exit : Option Failure → Option Failure

-- A call of `__aexit__`, with the error that it was given.
pub record Exit : Type 0 where
  pub manager : ℕ
  pub error : Option Failure

pub record Entering : Type 0 where
  pub entered : List Manager
  pub interrupted : Option Failure

-- What entering one manager makes of the rest of the loop.
unfoldable pub with_enter : Manager → Option Failure → Entering → Entering
with_enter m none rest = record rest { entered = m ∷ rest.entered }
with_enter m (some failure) rest =
    if failure.is_exception then rest else record { entered = []; interrupted = some failure }

-- The loop that enters: an `Exception` skips its manager, anything else ends the loop.
unfoldable pub enter_all : List Manager → Entering
unfolding with_enter
enter_all [] = record { entered = []; interrupted = none }
enter_all (m ∷ ms) = with_enter m m.enter (enter_all ms)

abbrev fatal_of : Option Failure → Option Failure → Option Failure
fatal_of none previous = previous
fatal_of (some failure) previous = if failure.is_exception then previous else some failure

-- The loop that exits: the last failure that is no `Exception` is kept.
unfoldable pub exit_all : Option Failure → List Manager → Option Failure → Option Failure
exit_all error [] interrupted = interrupted
exit_all error (m ∷ ms) interrupted = exit_all error ms (fatal_of (m.exit error) interrupted)

unfoldable pub exits_of : Option Failure → List Manager → List Exit
exits_of error [] = []
exits_of error (m ∷ ms) = record { manager = m.number; error = error } ∷ exits_of error ms

-- `reversed(...)`
unfoldable pub reversed {ℓ} : {A : Type ℓ} → List A → List A
reversed [] = []
reversed (x ∷ xs) = reversed xs ++ x ∷ []

pub record ScopeResult : Type 0 where
  -- What the scope raises.
  pub raised : Option Failure
  -- Whether the code in the scope was run.
  pub ran : Bool
  pub exits : List Exit

abbrev or_else : Option Failure → Option Failure → Option Failure
or_else (some error) interrupted = some error
or_else none interrupted = interrupted

unfoldable pub leave : Option Failure → Bool → List Manager → ScopeResult
unfolding exit_all exits_of reversed
leave error ran entered = record {
  raised = or_else error (exit_all error (reversed entered) none);
  ran = ran;
  exits = exits_of error (reversed entered);
}

-- `body`: what the code in the scope raises.
unfoldable pub middleware_scope : List Manager → Option Failure → ScopeResult
unfolding enter_all leave
middleware_scope managers body = elim (enter_all managers).interrupted [
  | some failure ↦ leave (some failure) false (enter_all managers).entered
  | none ↦ leave body true (enter_all managers).entered
]
