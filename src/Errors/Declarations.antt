-- ===== src/Errors/Declarations.antt =====
-- `declared_error`, `error_declarations` and `merge_error_declarations` of rpckit/errors.py: the
-- errors that an operation declares, over those that it inherits from its channel. `none` is the
-- `ProtocolDefinitionError`.
pub mod Compatible
pub mod Merge
use pyrpckit.Prelude.{
  Bool, List, Option, [], any, if◌then◌else◌, keep_if, none, not, some, true, ℕ, ◌++◌, ◌==◌, ◌>>=◌,
  ◌||◌, ◌∷◌,
}
use pyrpckit.Connection.Rejection.{mem_num}
use pyrpckit.Errors.Types.{ErrorBinding, ErrorType}
use pyrpckit.Errors.Bindings.{bind_contracts}

-- `type[RpcError] | RpcErrorBinding`, or a value that is neither.
pub data ErrorDeclaration : Type 0 where
  class_declared : ErrorType → ErrorDeclaration
  binding_declared : ErrorBinding → ErrorDeclaration
  no_declaration : ErrorDeclaration

-- `RpcError` itself.
abbrev pub rpc_error_class : ℕ
rpc_error_class = 10

unfoldable pub declared_error : ErrorDeclaration → Option ErrorType
declared_error (class_declared error) =
    if error.error_class.ident == rpc_error_class || error.error_class.class_builtin
    then none
    else some error
declared_error (binding_declared binding) =
    some (record { error_class = binding.error_type; contract = some binding })
declared_error no_declaration = none

unfoldable pub declared_errors : List ErrorDeclaration → Option (List ErrorType)
declared_errors [] = some []
declared_errors (raised ∷ rest) = do
  error ← declared_error raised
  errors ← declared_errors rest
  some (error ∷ errors)

-- `tuple(dict.fromkeys(errors))`: each class once, at its first place.
unfoldable pub from_keys : List ℕ → List ErrorType → List ErrorType
from_keys seen [] = []
from_keys seen (error ∷ errors) =
    let again = from_keys seen errors in
    let fresh = error ∷ from_keys (error.error_class.ident ∷ seen) errors in
    if mem_num error.error_class.ident seen then again else fresh

-- `binding for error in errors if (binding := contract_of(error)) is not None`
unfoldable pub contracts_of : List ErrorType → List ErrorBinding
contracts_of [] = []
contracts_of (error ∷ errors) = elim error.contract [
  | none ↦ contracts_of errors
  | some binding ↦ binding ∷ contracts_of errors
]

unfoldable pub error_declarations : List ErrorDeclaration → Option (List ErrorType)
error_declarations raises = do
  errors ← declared_errors raises
  bound ← bind_contracts (contracts_of (from_keys [] errors))
  some (from_keys [] errors)

-- `binding is None or binding.exception not in overridden`
unfoldable pub is_kept : List ErrorBinding → ErrorType → Bool
is_kept overriding error = elim error.contract [
  | none ↦ true
  | some binding ↦ not (any (λ b. b.exception == binding.exception) overriding)
]

unfoldable pub merge_error_declarations :
    List ErrorType → List ErrorDeclaration → Option (List ErrorType)
merge_error_declarations inherited raises = do
  local ← error_declarations raises
  some (from_keys [] (keep_if (is_kept (contracts_of local)) inherited ++ local))
