-- ===== src/Server/Dispatch/Bounded/Ended.antt =====
-- How a request ends, whatever happens while it runs (`_run_bounded` of rpckit/server.py).
use pyrpckit.Prelude.{List, any, false, true, ℕ, ◌≡◌, ◌⊎◌}
use pyrpckit.Server.Dispatch.{Server}
use pyrpckit.Server.Dispatch.Bounded.{
  Ending, Finish, Moment, answered, deadline_of, reraised, returns, unwinds,
}
use pyrpckit.Json.{Json}
use pyrpckit.Server.Dispatch.Answer.{IsAnswered}
use pyrpckit.Server.Dispatch.Bounded.Moments.{client_is_last, is_close, is_due}

module _ {V : Type 0} (server : Server V) where
  abbrev pub IsWellEnded : Json → ℕ → List Moment → Finish → Ending V → Type 0
  IsWellEnded raw started moments finish (answered answer) = IsAnswered raw answer
  IsWellEnded raw started moments returns reraised = ⊥
  IsWellEnded raw started moments unwinds reraised =
      (is_due (deadline_of server raw started) moments ≡ false)
      × ((any is_close moments ≡ true) ⊎ (client_is_last moments ≡ false))
