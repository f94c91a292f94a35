-- ===== src/Server/Mapping/Strict.antt =====
-- What a client may see of a failure.
use pyrpckit.Prelude.{
  Bool, Bool-cases, List, Option, Option-cases, String, arith, err, inl, inr, none, ok, refl, some,
  subst, true, ◌≡◌, ◌⊎◌,
}
use pyrpckit.Connection.Rejection.{Exception, RpcError}
use pyrpckit.Errors.Types.{ErrorBinding, ErrorType, internal, to_error}
use pyrpckit.Errors.Bindings.{Bound, bind_contracts, contract_for}
use pyrpckit.Errors.Declarations.{contracts_of}
use pyrpckit.Errors.Declarations.Compatible.{is_accepted}
use pyrpckit.Server.Mapping.{
  ErrorMapper, admit, as_rpc, by_contract, by_index, by_mapper, foreign_value, is_declared,
  no_value, rpc_error, rpc_value,
}

abbrev pub IsPublic : List ErrorType → RpcError → Type 0
IsPublic declared error = (error.builtin ≡ true) ⊎ (is_declared error declared ≡ true)

admit-IsPublic :
    (method : String) (declared : List ErrorType) (e : RpcError)
    → IsPublic declared (admit true (some method) declared e)
unfolding admit
admit-IsPublic method declared e = elim (Bool-cases e.builtin) [
  | inl builtin ↦ inl (ground arith)
  | inr foreign ↦ elim (Bool-cases (is_declared e declared)) [
    | inl known ↦ inr (ground arith)
    | inr unknown ↦ inl (ground arith)
  ]
]

converted-IsPublic :
    (method : String) (declared : List ErrorType) (contract : ErrorBinding) (error : Exception)
    → IsPublic declared (by_contract true (some method) declared contract error)
unfolding by_contract
converted-IsPublic method declared contract error =
    elim (to_error contract error)
      as (λ r.
        IsPublic declared (elim r [
          | err raised ↦ internal
          | ok mapped ↦ admit true (some method) declared mapped
        ])) [ err raised ↦ inl refl | ok mapped ↦ admit-IsPublic method declared mapped ]

mapped-IsPublic :
    (method : String) (declared : List ErrorType) (f : ErrorMapper) (error : Exception)
    → IsPublic declared (by_mapper true (some method) declared f error)
unfolding by_mapper
mapped-IsPublic method declared none error = inl refl
mapped-IsPublic method declared (some f) error =
    elim (f error)
      as (λ r. IsPublic declared (elim r [
        | err raised ↦ internal
        | ok no_value ↦ internal
        | ok foreign_value ↦ internal
        | ok (rpc_value mapped) ↦ admit true (some method) declared mapped
      ])) [
        | err raised ↦ inl refl
        | ok no_value ↦ inl refl
        | ok foreign_value ↦ inl refl
        | ok (rpc_value mapped) ↦ admit-IsPublic method declared mapped
      ]

by_index-IsPublic :
    (method : String) (declared : List ErrorType) (f : ErrorMapper) (error : Exception)
    (bound : Bound)
    → IsPublic declared (by_index true (some method) declared f error bound)
unfolding by_index
by_index-IsPublic method declared f error bound = elim (Option-cases (contract_for error bound)) [
  | inl unbound ↦ rw (unbound, by_index) (mapped-IsPublic method declared f error)
  | inr (contract, found) ↦ rw (found, by_index) (converted-IsPublic method declared contract error)
]

module _ (error_mapper : ErrorMapper) (error : Exception) (declared : List ErrorType) where
  -- Under `strict_errors` and for a message that names a method, whatever is raised, and whatever the
  -- bindings and the error mapper return or raise: the error that answers it is a built-in one, or
  -- an instance of an error that the method declares.
  pub rpc_error-IsPublic :
      (method : String) (e : RpcError)
      → rpc_error true error_mapper error (some method) declared ≡ some e
      → IsPublic declared e
  unfolding rpc_error
  rpc_error-IsPublic method e h = elim (Option-cases (as_rpc error.kind)) [
    | inl foreign ↦ elim (Option-cases (bind_contracts (contracts_of declared))) [
      | inl failed ↦ absurd (ground arith)
      | inr (bound, bound_ok) ↦
          let same : by_index true (some method) declared error_mapper error bound ≡ e =
            ground arith in
          subst (IsPublic declared) same
            (by_index-IsPublic method declared error_mapper error bound)
    ]
    | inr (raised, is_rpc) ↦
        let same : admit true (some method) declared raised ≡ e = ground arith in
        subst (IsPublic declared) same (admit-IsPublic method declared raised)
  ]

  -- Every failure of a method whose declared bindings fit together is answered by an RPC error.
  pub rpc_error_total :
      (strict : Bool) (method : Option String)
      → is_accepted (bind_contracts (contracts_of declared)) ≡ true
      → (e : RpcError) × (rpc_error strict error_mapper error method declared ≡ some e)
  unfolding rpc_error
  rpc_error_total strict method h = elim (Option-cases (as_rpc error.kind)) [
    | inl foreign ↦ elim (Option-cases (bind_contracts (contracts_of declared))) [
      | inl failed ↦ absurd (ground arith)
      | inr (bound, bound_ok) ↦
          (by_index strict method declared error_mapper error bound, ground arith)
    ]
    | inr (raised, is_rpc) ↦ (admit strict method declared raised, ground arith)
  ]
