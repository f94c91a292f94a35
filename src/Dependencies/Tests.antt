-- ===== src/Dependencies/Tests.antt =====
-- Runs and witnesses of the theorems on resolvers.
use pyrpckit.Prelude.{List, [], false, ok, refl, some, true, ℕ, ◌∷◌, ◌≡◌}
use pyrpckit.Dependencies.{
  Context, Resolver, call_scope, connected, connection_scope, context_resolver, context_values,
  enter_connection, enter_scope, function_resolver, no_connection, no_scope, object,
  object_resolver, resolve,
}
use pyrpckit.Dependencies.Layers.{bottom, call-layered, layered, layers}
use pyrpckit.Dependencies.Parameters.{
  Parameter, inject, keyword_only, other, positional_or_keyword, router_params_model,
}

-- A container whose connections answer 1, and whose calls answer 2 and 3.
abbrev container : Resolver ℕ
container =
    object_resolver (λ d. ok 0) no_scope
      (enter_connection (λ values.
        context_resolver
          (object_resolver (λ d. ok 1) (enter_scope (function_resolver (λ d. ok 3))) no_connection)
          ((7, 2) ∷ [])))

abbrev request_context : Context ℕ
request_context = object 5 40

call-layered_example :
    resolve (call_scope (connection_scope container request_context)) 7
    ≡ layered
        (context_values request_context
          ∷ layers (connected container (context_values request_context)))
        (resolve (call_scope (bottom (connected container (context_values request_context)))))
        7
call-layered_example = call-layered container request_context 7

from_context : resolve (call_scope (connection_scope container request_context)) 5 ≡ ok 40
unfolding resolve call_scope connection_scope
from_context = refl

from_call : resolve (call_scope (connection_scope container request_context)) 8 ≡ ok 3
unfolding resolve call_scope connection_scope
from_call = refl

abbrev handler : List Parameter
handler =
    record {
      param_name = "params";
      annotation = some (other true);
      param_kind = positional_or_keyword;
      has_default = false;
    }
    ∷ record {
      param_name = "db";
      annotation = some (inject (some 9));
      param_kind = keyword_only;
      has_default = false;
    }
    ∷ []

handler_model : router_params_model handler ≡ some (some "params", ("db", 9) ∷ [])
unfolding router_params_model
handler_model = refl
