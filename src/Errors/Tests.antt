-- ===== src/Errors/Tests.antt =====
-- Runs and witnesses of the theorems on declared errors.
use pyrpckit.Prelude.{List, [], false, none, refl, some, ℕ, ◌∷◌, ◌≡◌}
use pyrpckit.Json.{negsuc}
use pyrpckit.Connection.Rejection.{Exception, plain}
use pyrpckit.Errors.Types.{ErrorBinding, ErrorClass, ErrorType, no_details}
use pyrpckit.Errors.Bindings.{
  Bound, MostSpecific, bind_contracts, bind_from, contract_for, contract_for-MostSpecific, find,
  first_bound,
}
use pyrpckit.Errors.Declarations.Compatible.{bind_contracts-eq-compatible, compatible, is_accepted}

abbrev missing_class : ErrorClass
missing_class = record {
  ident = 100;
  bases = 10 ∷ 1 ∷ 0 ∷ [];
  class_code = "missing";
  class_message = "Missing";
  class_rpc_code = negsuc 31999;
  details_type = none;
  class_builtin = false;
}

abbrev bind : ℕ → ℕ → ErrorBinding
bind ident cls = record {
  binding_ident = ident;
  exception = cls;
  error_type = missing_class;
  rejection = none;
  message = none;
  details = no_details;
}

-- Two bindings: of `LookupError` (30), and of its subclass `KeyError` (31).
abbrev both : List ErrorBinding
both = bind 200 30 ∷ bind 201 31 ∷ []

abbrev bound_both : Bound
bound_both = (30, bind 200 30) ∷ (31, bind 201 31) ∷ []

abbrev key_error : Exception
key_error = record { mro = 31 ∷ 30 ∷ 1 ∷ 0 ∷ []; text = "'x'"; kind = plain }

contract_for-MostSpecific_example : MostSpecific (31 ∷ 30 ∷ 1 ∷ 0 ∷ []) bound_both (bind 201 31)
unfolding contract_for first_bound find
contract_for-MostSpecific_example =
    contract_for-MostSpecific key_error bound_both (bind 201 31) refl

-- Another binding of `LookupError` beside the first is refused.
bind_contracts-eq-compatible_example :
    is_accepted (bind_contracts (bind 202 30 ∷ both)) ≡ compatible (bind 202 30 ∷ both)
bind_contracts-eq-compatible_example = bind_contracts-eq-compatible (bind 202 30 ∷ both)

refused_binding : bind_contracts (bind 202 30 ∷ both) ≡ none
unfolding bind_contracts bind_from find
refused_binding = refl

abbrev missing : ErrorType
missing = record { error_class = missing_class; contract = some (bind 200 30) }

abbrev own : ErrorType
own = record { error_class = missing_class; contract = some (bind 202 30) }
