-- ===== src/Errors/Rejects.antt =====
-- `rejecting_contracts` and `contract_rejections` of rpckit/errors.py: the `rejects=` of a service,
-- an endpoint or a raw socket, and the mapper that they make. `none` is the
-- `ProtocolDefinitionError`.
pub mod Mapped
use pyrpckit.Prelude.{List, Option, Result, [], if◌then◌else◌, none, ok, some, ℕ, ◌>>=◌, ◌∷◌}
use pyrpckit.Connection.Rejection.{Exception, Rejections, RpcReject, mapper, mem_num}
use pyrpckit.Errors.Types.{ErrorBinding, reject_for}
use pyrpckit.Errors.Bindings.{Bound, bind_contracts, contract_for}

-- `rejects` holds bindings, or values of other types.
rejects_once : List ℕ → List (Option ErrorBinding) → Option (List ErrorBinding)
rejects_once seen [] = some []
rejects_once seen (none ∷ rejects) = none
rejects_once seen (some contract ∷ rejects) =
    let again = rejects_once seen rejects in
    let rest = rejects_once (contract.binding_ident ∷ seen) rejects in
    if mem_num contract.binding_ident seen then again else elim contract.rejection [
      | none ↦ none
      | some rejection ↦ do contracts ← rest; some (contract ∷ contracts)
    ]

unfoldable pub rejecting_contracts : List (Option ErrorBinding) → Option (List ErrorBinding)
unfolding rejects_once
rejecting_contracts rejects = do
  contracts ← rejects_once [] rejects
  bound ← bind_contracts contracts
  some contracts

-- The `reject` of a mapper.
unfoldable pub reject_bound : Bound → Exception → Result Exception (Option RpcReject)
reject_bound bound error = elim (contract_for error bound) [
  | none ↦ ok none
  | some contract ↦ reject_for contract error
]

unfoldable pub contract_rejections : List ErrorBinding → Option (Option Rejections)
unfolding reject_bound
contract_rejections contracts = elim (bind_contracts contracts) [
  | none ↦ none
  | some [] ↦ some none
  | some (entry ∷ bound) ↦ some (some (mapper (reject_bound (entry ∷ bound))))
]
