-- ===== src/Middleware/Scope.antt =====
-- What middleware can do to the code that it surrounds.
use pyrpckit.Prelude.{
  All, Bool, Bool-cases, List, Option, Option-cases, [], arith, false, inl, inr, none, not, refl,
  some, subst, sym, true, ◌++◌, ◌∷◌, ◌≡◌,
}
use pyrpckit.Middleware.{
  Entering, Failure, Manager, enter_all, exit_all, fatal_of, leave, middleware_scope, or_else,
  reversed, with_enter,
}

abbrev pub is_fatal : Option Failure → Bool
is_fatal none = false
is_fatal (some failure) = not failure.is_exception

-- A manager whose own failures are instances of `Exception`.
abbrev pub IsHarmless : Manager → Type 0
IsHarmless m =
    (is_fatal m.enter ≡ false) × ((error : Option Failure) → is_fatal (m.exit error) ≡ false)

abbrev IsCalm : Entering → Type 0
IsCalm e = (e.interrupted ≡ none) × All IsHarmless e.entered

with_enter-IsCalm :
    (m : Manager) (raised : Option Failure) (rest : Entering)
    → IsHarmless m
    → is_fatal raised ≡ false
    → IsCalm rest
    → IsCalm (with_enter m raised rest)
unfolding with_enter
with_enter-IsCalm m none rest harmless h (same, others) = (same, (harmless, others))
with_enter-IsCalm m (some failure) rest harmless h calm = elim (Bool-cases failure.is_exception) [
  | inl caught ↦ rw caught calm
  | inr fatal ↦ absurd (ground arith)
]

enter_all-IsCalm : (ms : List Manager) → All IsHarmless ms → IsCalm (enter_all ms)
unfolding enter_all
enter_all-IsCalm [] h = (refl, tt)
enter_all-IsCalm (m ∷ ms) (first, others) =
    with_enter-IsCalm m m.enter (enter_all ms) first first.0 (enter_all-IsCalm ms others)

exit_all-harmless :
    (error : Option Failure) (ms : List Manager) → All IsHarmless ms → exit_all error ms none ≡ none
unfolding exit_all
exit_all-harmless error [] h = refl
exit_all-harmless error (m ∷ ms) (first, others) =
    subst (λ o. exit_all error ms o ≡ none) (sym (nothing (m.exit error) (first.1 error)))
      (exit_all-harmless error ms others)
  where
    nothing : (raised : Option Failure) → is_fatal raised ≡ false → fatal_of raised none ≡ none
    nothing none h = refl
    nothing (some failure) h = ground arith

All-append :
    (ms ns : List Manager) → All IsHarmless ms → All IsHarmless ns → All IsHarmless (ms ++ ns)
All-append [] ns h k = k
All-append (m ∷ ms) ns (first, others) k = (first, All-append ms ns others k)

All-reversed : (ms : List Manager) → All IsHarmless ms → All IsHarmless (reversed ms)
unfolding reversed
All-reversed [] h = tt
All-reversed (m ∷ ms) (first, others) =
    All-append (reversed ms) (m ∷ []) (All-reversed ms others) (first, tt)

or_else-none : (o : Option Failure) → or_else o none ≡ o
or_else-none none = refl
or_else-none (some failure) = refl

-- Middleware whose own failures are instances of `Exception` is invisible: the code in the scope is
-- run, and the scope raises exactly what that code raises.
pub middleware_is_transparent :
    (ms : List Manager) (body : Option Failure)
    → All IsHarmless ms
    → ((middleware_scope ms body).ran ≡ true) × ((middleware_scope ms body).raised ≡ body)
unfolding middleware_scope leave
middleware_is_transparent ms body h =
    let (calm, entered) = enter_all-IsCalm ms h in
    rw (calm, middleware_scope)
      (rw
        (exit_all-harmless body (reversed (enter_all ms).entered)
          (All-reversed (enter_all ms).entered entered))
        (refl, or_else-none body))

-- A failure of the code in the scope is raised as it is: no manager can suppress or replace it.
pub scope_failure_is_kept :
    (ms : List Manager) (failure : Failure)
    → (middleware_scope ms (some failure)).ran ≡ true
    → (middleware_scope ms (some failure)).raised ≡ some failure
unfolding middleware_scope leave
scope_failure_is_kept ms failure h = elim (Option-cases (enter_all ms).interrupted) [
  | inl calm ↦ rw (calm, middleware_scope) refl
  | inr (other, stopped) ↦ absurd (ground arith)
]
