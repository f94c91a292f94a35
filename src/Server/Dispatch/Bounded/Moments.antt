-- ===== src/Server/Dispatch/Bounded/Moments.antt =====
-- What interrupts a request, read off the moments of its run (`_run_bounded` of rpckit/server.py).
use pyrpckit.Prelude.{
  Bool, Bool-cases, List, Option, [], any, ap, arith, false, if◌then◌else◌, inl, inr, leb, none,
  not, refl, some, true, ℕ, ◌&&◌, ◌||◌, ◌∙◌, ◌∷◌, ◌≡◌,
}
use pyrpckit.Server.Dispatch.Bounded.{
  Cause, Moment, Waiting, by_client, by_others, by_timer, client_cancels, clock, closes,
  interruption, no_cause, others_cancel, pass, tick, wait, waiting,
}
use pyrpckit.Errors.Types.{request_cancelled, request_timeout}

-- At some moment the clock stands at the deadline or behind it.
abbrev pub is_late : ℕ → Moment → Bool
is_late deadline (clock now) = leb deadline now
is_late deadline client_cancels = false
is_late deadline others_cancel = false
is_late deadline closes = false

abbrev pub is_due : Option ℕ → List Moment → Bool
is_due none moments = false
is_due (some deadline) moments = any (is_late deadline) moments

abbrev pub is_close : Moment → Bool
is_close closes = true
is_close (clock now) = false
is_close client_cancels = false
is_close others_cancel = false

abbrev pub is_cancel : Moment → Bool
is_cancel client_cancels = true
is_cancel others_cancel = true
is_cancel closes = false
is_cancel (clock now) = false

-- The last cancellation that does not come from the timer is the client's.
abbrev pub client_is_last : List Moment → Bool
client_is_last [] = false
client_is_last (client_cancels ∷ moments) = not (any is_cancel moments) || client_is_last moments
client_is_last (others_cancel ∷ moments) = client_is_last moments
client_is_last (closes ∷ moments) = client_is_last moments
client_is_last (clock now ∷ moments) = client_is_last moments

expired-wait :
    (deadline : Option ℕ) (w : Waiting) (moments : List Moment)
    → (wait deadline w moments).expired ≡ w.expired || is_due deadline moments
unfolding wait pass tick
expired-wait none w [] = ground arith
expired-wait (some deadline) w [] = ground arith
expired-wait none w (m ∷ moments) = expired-wait none (pass none w m) moments ∙ same m
  where
    same : (k : Moment) → ((pass none w k).expired || false) ≡ (w.expired || false)
    same (clock now) = refl
    same client_cancels = refl
    same others_cancel = refl
    same closes = refl
expired-wait (some deadline) w (clock now ∷ moments) =
    ground (arith, expired-wait (some deadline) (pass (some deadline) w (clock now)) moments)
expired-wait (some deadline) w (client_cancels ∷ moments) =
    expired-wait (some deadline) (pass (some deadline) w client_cancels) moments
expired-wait (some deadline) w (others_cancel ∷ moments) =
    expired-wait (some deadline) (pass (some deadline) w others_cancel) moments
expired-wait (some deadline) w (closes ∷ moments) =
    expired-wait (some deadline) (pass (some deadline) w closes) moments

closed-tick :
    (deadline : Option ℕ) (now : ℕ) (w : Waiting) → (tick deadline now w).closed ≡ w.closed
unfolding tick
closed-tick none now w = refl
closed-tick (some deadline) now w = ground arith

closed-wait :
    (deadline : Option ℕ) (w : Waiting) (moments : List Moment)
    → (wait deadline w moments).closed ≡ w.closed || any is_close moments
unfolding wait pass
closed-wait deadline w [] = ground arith
closed-wait deadline w (clock now ∷ moments) =
    ground (
      arith,
      closed-wait deadline (pass deadline w (clock now)) moments,
      closed-tick deadline now w,
    )
closed-wait deadline w (client_cancels ∷ moments) =
    closed-wait deadline (pass deadline w client_cancels) moments
closed-wait deadline w (others_cancel ∷ moments) =
    closed-wait deadline (pass deadline w others_cancel) moments
closed-wait deadline w (closes ∷ moments) =
    ground (arith, closed-wait deadline (pass deadline w closes) moments)

abbrev is_client : Cause → Bool
is_client by_client = true
is_client no_cause = false
is_client by_timer = false
is_client by_others = false

on_time-tick :
    (deadline : Option ℕ) (now : ℕ) (moments : List Moment) (w : Waiting)
    → is_due deadline (clock now ∷ moments) ≡ false
    → tick deadline now w ≡ w
unfolding tick
on_time-tick none now moments w h = refl
on_time-tick (some deadline) now moments w h = ground (arith, h)

on_time-rest :
    (deadline : Option ℕ) (m : Moment) (moments : List Moment)
    → is_due deadline (m ∷ moments) ≡ false
    → is_due deadline moments ≡ false
on_time-rest none m moments h = refl
on_time-rest (some deadline) m moments h = ground (arith, h)

silent_last :
    (moments : List Moment) → any is_cancel moments ≡ false → client_is_last moments ≡ false
silent_last [] h = refl
silent_last (clock now ∷ moments) h = silent_last moments h
silent_last (client_cancels ∷ moments) h = cc
silent_last (others_cancel ∷ moments) h = cc
silent_last (closes ∷ moments) h = silent_last moments h

-- Until the timer fires, the cause is the last cancellation.
cause-wait :
    (deadline : Option ℕ) (w : Waiting) (moments : List Moment)
    → is_due deadline moments ≡ false
    → is_client (wait deadline w moments).cause
      ≡ (if any is_cancel moments then client_is_last moments else is_client w.cause)
unfolding wait pass
cause-wait deadline w [] h = refl
cause-wait deadline w (clock now ∷ moments) h =
    ap (λ v. is_client (wait deadline v moments).cause) (on_time-tick deadline now moments w h)
    ∙ cause-wait deadline w moments (on_time-rest deadline (clock now) moments h)
cause-wait deadline w (client_cancels ∷ moments) h = ground (
  arith,
  cause-wait deadline (pass deadline w client_cancels) moments
      (on_time-rest deadline client_cancels moments h),
)
cause-wait deadline w (others_cancel ∷ moments) h = ground (
  arith,
  cause-wait deadline (pass deadline w others_cancel) moments
      (on_time-rest deadline others_cancel moments h),
  silent_last moments,
)
cause-wait deadline w (closes ∷ moments) h =
    cause-wait deadline (pass deadline w closes) moments (on_time-rest deadline closes moments h)

by_cause :
    (w : Waiting) (cause : Cause)
    → w.cause ≡ cause
    → interruption w ≡ (
        if w.expired
        then some request_timeout
        else if is_client cause && not w.closed
        then some request_cancelled
        else none)
unfolding interruption
by_cause w no_cause e = rw e refl
by_cause w by_timer e = rw e refl
by_cause w by_others e = rw e refl
by_cause w by_client e = rw e (ground arith)

-- What a `CancelledError` that leaves the operation is answered by, read off the moments.
pub interruption-wait :
    (deadline : Option ℕ) (moments : List Moment)
    → interruption (wait deadline waiting moments) ≡ (
        if is_due deadline moments
        then some request_timeout
        else if client_is_last moments && not (any is_close moments)
        then some request_cancelled
        else none)
interruption-wait deadline moments =
    let w = wait deadline waiting moments in
    by_cause w w.cause refl ∙ elim (Bool-cases (is_due deadline moments)) [
      | inl late ↦ ground (arith, late, expired-wait deadline waiting moments)
      | inr timely ↦ ground (
        arith,
        timely,
        expired-wait deadline waiting moments,
        closed-wait deadline waiting moments,
        cause-wait deadline waiting moments timely,
        silent_last moments,
      )
    ]
