-- ===== src/Middleware/Tests.antt =====
-- Runs and witnesses of the theorems on middleware.
use pyrpckit.Prelude.{List, [], false, none, refl, some, true, ◌∷◌, ◌≡◌}
use pyrpckit.Middleware.{
  Failure, Manager, enter_all, exits_of, leave, middleware_scope, reversed, with_enter,
}
use pyrpckit.Middleware.Scope.{middleware_is_transparent}

abbrev bug : Failure
bug = record { ident = 1; is_exception = true }

abbrev cancelled : Failure
cancelled = record { ident = 2; is_exception = false }

-- The second manager cannot be entered, the third fails when it is left.
abbrev managers : List Manager
managers =
    record { number = 1; enter = none; exit = λ error. none }
    ∷ record { number = 2; enter = some bug; exit = λ error. none }
    ∷ record { number = 3; enter = none; exit = λ error. some bug }
    ∷ []

scope_exits :
    (middleware_scope managers (some cancelled)).exits
    ≡ record { manager = 3; error = some cancelled }
      ∷ record { manager = 1; error = some cancelled }
      ∷ []
unfolding middleware_scope enter_all with_enter leave exits_of reversed
scope_exits = refl

middleware_is_transparent_example :
    ((middleware_scope managers none).ran ≡ true) × ((middleware_scope managers none).raised ≡ none)
middleware_is_transparent_example =
    middleware_is_transparent managers none
      ((refl, λ error. refl), ((refl, λ error. refl), ((refl, λ error. refl), tt)))
