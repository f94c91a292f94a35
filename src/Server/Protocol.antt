-- ===== src/Server/Protocol.antt =====
-- `RpcMethodDefinition` and the method table of `RpcProtocol` (rpckit/protocol.py). `V` is the type
-- of Python values; Pydantic's adapters and the user's functions are fields that may raise. A
-- `ValidationError` is its issues, of which there is at least one.
use pyrpckit.Prelude.{
  Bool, Bool-cases, List, Option, Result, String, [], all, any, arith, if◌then◌else◌, inl, inr,
  none, not, some, str_eq, subst, true, ℕ, ◌&&◌, ◌∷◌, ◌≡◌,
}
use pyrpckit.Json.{Fields, Json}
use pyrpckit.Connection.Rejection.{Exception}
use pyrpckit.Errors.Types.{ErrorType}
use pyrpckit.Errors.Bindings.{bind_contracts}
use pyrpckit.Errors.Declarations.{contracts_of}
use pyrpckit.Errors.Declarations.Compatible.{is_accepted}

pub record Issue : Type 0 where
  pub location : String
  pub issue_message : String
  pub issue : Json

pub record ValidationError : Type 0 where
  pub first : Issue
  pub others : List Issue

-- `method.params` with `method.params_origin`: the wire model, and the user's model that its value
-- is validated again with.
pub record ParamsModel (V : Type 0) : Type 0 where
  pub validate : Fields → Result ValidationError V
  pub has_origin : Bool
  -- `type(validated) is method.params_origin`, and `params_origin.model_validate(...)`
  pub is_origin : V → Bool
  pub revalidate : V → Result ValidationError V

pub record MethodDefinition (V : Type 0) : Type 0 where
  pub name : String
  pub params : Option (ParamsModel V)
  pub raises : List ErrorType
  pub function : Option (List (String × V) → Result Exception V)
  pub has_scope : Bool
  -- `(parameter.name, parameter.dependency)`
  pub injected_parameters : List (String × ℕ)
  pub params_parameter : Option String
  -- `adapter(method.result).validate_python(...)`, and `isinstance(result, BaseModel)`
  pub validate_result : V → Result Exception V
  pub is_model : V → Bool
  -- `_has_timeout` and `timeout`, in ticks
  pub has_timeout : Bool
  pub timeout : Option ℕ

module _ {V : Type 0} where
  unfoldable pub find_method : String → List (MethodDefinition V) → Option (MethodDefinition V)
  find_method name [] = none
  find_method name (m ∷ ms) = if str_eq m.name name then some m else find_method name ms

  -- `_unique`
  unfoldable pub unique : List (MethodDefinition V) → Bool
  unique [] = true
  unique (m ∷ ms) = not (any (λ k. str_eq k.name m.name) ms) && unique ms

  unfoldable pub bindings_fit : List (MethodDefinition V) → Bool
  bindings_fit ms = all (λ m. is_accepted (bind_contracts (contracts_of m.raises))) ms

  -- `RpcProtocol(methods=...)`; `none` is the `ProtocolDefinitionError`.
  unfoldable pub protocol : List (MethodDefinition V) → Option (List (MethodDefinition V))
  unfolding unique bindings_fit
  protocol methods = if unique methods && bindings_fit methods then some methods else none

  -- What `RpcServer` may rely on for every method that it finds in a protocol.
  abbrev pub IsProtocol : List (MethodDefinition V) → Type 0
  IsProtocol methods = protocol methods ≡ some methods

  find_fits :
      (name : String) (ms : List (MethodDefinition V)) (m : MethodDefinition V)
      → bindings_fit ms ≡ true
      → find_method name ms ≡ some m
      → is_accepted (bind_contracts (contracts_of m.raises)) ≡ true
  unfolding find_method bindings_fit
  find_fits name [] m h f = cc
  find_fits name (k ∷ ms) m h f = elim (Bool-cases (str_eq k.name name)) [
    | inl hit ↦
        let same : k ≡ m = ground arith in
        subst (λ j. is_accepted (bind_contracts (contracts_of j.raises)) ≡ true) same (ground arith)
    | inr miss ↦ find_fits name ms m (ground arith) (ground arith)
  ]

  -- The bindings that a method of a protocol declares fit together in one index.
  pub find_method-fits :
      (methods : List (MethodDefinition V)) (name : String) (m : MethodDefinition V)
      → IsProtocol methods
      → find_method name methods ≡ some m
      → is_accepted (bind_contracts (contracts_of m.raises)) ≡ true
  find_method-fits methods name m h f = find_fits name methods m (unfold protocol in ground arith) f
