-- ===== src/Server/Mapping.antt =====
-- `RpcServer._rpc_error` of rpckit/server.py: the RPC error that answers a failure. `none` is the
-- `ProtocolDefinitionError` of `bind_contracts`, the one exception that leaves the method.
pub mod Strict
use pyrpckit.Prelude.{
  Bool, List, Option, Result, String, any, err, false, if◌then◌else◌, none, not, ok, some, true,
  ◌&&◌, ◌>>=◌,
}
use pyrpckit.Connection.Rejection.{Exception, Kind, RpcError, mem_num, rpc}
use pyrpckit.Errors.Types.{ErrorBinding, ErrorType, internal, to_error}
use pyrpckit.Errors.Bindings.{Bound, bind_contracts, contract_for}
use pyrpckit.Errors.Declarations.{contracts_of}

-- What a user's error mapper returns: an RPC error, `None`, or anything else.
pub data Mapped : Type 0 where
  rpc_value : RpcError → Mapped
  no_value : Mapped
  foreign_value : Mapped

abbrev pub ErrorMapper : Type 0
ErrorMapper = Option (Exception → Result Exception Mapped)

-- `isinstance(mapped, declared)`
unfoldable pub is_declared : RpcError → List ErrorType → Bool
is_declared error declared = any (λ d. mem_num d.error_class.ident error.classes) declared

abbrev is_given {ℓ} : {A : Type ℓ} → Option A → Bool
is_given none = false
is_given (some a) = true

-- The check of `strict_errors`.
unfoldable pub admit : Bool → Option String → List ErrorType → RpcError → RpcError
unfolding is_declared
admit strict method declared mapped =
    if strict && is_given method && not mapped.builtin && not (is_declared mapped declared)
    then internal
    else mapped

-- The error mapper's branch: a failing mapper and a foreign value are internal errors.
by_mapper : Bool → Option String → List ErrorType → ErrorMapper → Exception → RpcError
unfolding admit
by_mapper strict method declared none error = internal
by_mapper strict method declared (some f) error = elim (f error) [
  | err raised ↦ internal
  | ok no_value ↦ internal
  | ok foreign_value ↦ internal
  | ok (rpc_value mapped) ↦ admit strict method declared mapped
]

-- The binding's branch.
by_contract : Bool → Option String → List ErrorType → ErrorBinding → Exception → RpcError
unfolding admit
by_contract strict method declared contract error = elim (to_error contract error) [
  | err raised ↦ internal
  | ok mapped ↦ admit strict method declared mapped
]

by_index : Bool → Option String → List ErrorType → ErrorMapper → Exception → Bound → RpcError
unfolding by_contract by_mapper
by_index strict method declared error_mapper error bound = elim (contract_for error bound) [
  | some contract ↦ by_contract strict method declared contract error
  | none ↦ by_mapper strict method declared error_mapper error
]

-- `isinstance(error, RpcError)`
abbrev as_rpc : Kind → Option RpcError
as_rpc (rpc error) = some error
as_rpc _ = none

module _ (strict : Bool) (error_mapper : ErrorMapper) where
  unfoldable pub rpc_error : Exception → Option String → List ErrorType → Option RpcError
  unfolding by_index
  rpc_error error method declared = elim (as_rpc error.kind) [
    | some mapped ↦ some (admit strict method declared mapped)
    | none ↦ do
      bound ← bind_contracts (contracts_of declared)
      some (by_index strict method declared error_mapper error bound)
  ]
