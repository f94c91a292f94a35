-- ===== src/Server/Dispatch.antt =====
-- `RpcDispatcher` (rpckit/dispatch.py) and the request path of `RpcServer` (rpckit/server.py).
-- A section takes the size of encoded metadata, the resolver, the error mapper and `strict_errors`.
pub mod Answer
pub mod Bounded
pub mod Batch
use pyrpckit.Prelude.{
  Bool, List, Option, Result, String, [], err, if◌then◌else◌, none, not, ok, some, str_append, ℕ,
  ◌&&◌, ◌++◌, ◌>>=◌, ◌∷◌,
}
use pyrpckit.Json.{Fields, Items, Json, cons, is_empty, nil}
use pyrpckit.Connection.Rejection.{Exception, RpcError, plain, rpc}
use pyrpckit.Errors.Types.{ErrorType, invalid_params, invalid_request, method_not_found}
use pyrpckit.Wire.Envelope.{
  Params, RequestEnvelope, envelope_validate, expects_response, named, positional,
}
use pyrpckit.Wire.Inspect.{looks_like_notification, request_id, request_method}
use pyrpckit.Server.Response.{Response, from_error, success}
use pyrpckit.Server.Mapping.{ErrorMapper, rpc_error}
use pyrpckit.Server.Protocol.{Issue, MethodDefinition, ParamsModel, ValidationError, find_method}

-- An RPC error as the exception that is raised.
abbrev pub raised_rpc : RpcError → Exception
raised_rpc error = record { mro = error.classes; text = error.message; kind = rpc error }

abbrev issue_items : List Issue → Items
issue_items [] = nil
issue_items (i ∷ is) = cons i.issue (issue_items is)

-- `RpcInvalidParamsError.from_validation_error`
unfoldable pub from_validation_error : ValidationError → RpcError
from_validation_error error =
    invalid_params
      (str_append "Invalid params at "
        (str_append error.first.location (str_append ": " error.first.issue_message)))
      (cons error.first.issue (issue_items error.others))

abbrev protocol_error_text : String → Exception
protocol_error_text why = record { mro = 3 ∷ 1 ∷ 0 ∷ []; text = why; kind = plain }

pub record Invocation (V : Type 0) : Type 0 where
  pub request : RequestEnvelope
  pub method : MethodDefinition V
  pub params : Option V

module _ {V : Type 0} where
  -- The second validation, with the user's own model.
  unfoldable pub own_model : ParamsModel V → V → Result ValidationError V
  own_model model value =
      if model.has_origin && not (model.is_origin value) then model.revalidate value else ok value

  unfoldable pub validated_fields : ParamsModel V → Fields → Result ValidationError V
  unfolding own_model
  validated_fields model raw_params = elim (model.validate raw_params) [
    | err error ↦ err error
    | ok value ↦ own_model model value
  ]

  -- `_validated_params`; the unexpected members of a method without params stand in the issues.
  unfoldable pub validated_params :
      (Fields → ValidationError) → MethodDefinition V → Params → Result Exception (Option V)
  unfolding validated_fields from_validation_error
  validated_params unexpected method (positional vs) =
      err (raised_rpc (invalid_params "RPC methods require named params" nil))
  validated_params unexpected method (named raw_params) = elim method.params [
    | none ↦
        if is_empty raw_params
        then ok none
        else err (raised_rpc (from_validation_error (unexpected raw_params)))
    | some model ↦ elim (validated_fields model raw_params) [
      | err error ↦ err (raised_rpc (from_validation_error error))
      | ok value ↦ ok (some value)
    ]
  ]

  -- `{parameter.name: await resolver.resolve(parameter.dependency) for ...}`
  unfoldable pub resolve_all :
      (ℕ → Result Exception V) → List (String × ℕ) → Result Exception (List (String × V))
  resolve_all resolve [] = ok []
  resolve_all resolve ((parameter, dependency) ∷ rest) =
      let others = resolve_all resolve rest in
      elim (resolve dependency) [
        | err raised ↦ err raised
        | ok value ↦ elim others [
          | err raised ↦ err raised
          | ok arguments ↦ ok ((parameter, value) ∷ arguments)
        ]
      ]

  unfoldable pub with_params :
      MethodDefinition V → Option V → List (String × V) → Result Exception (List (String × V))
  with_params method none arguments = ok arguments
  with_params method (some value) arguments = elim method.params_parameter [
    | none ↦ err (protocol_error_text "method has no params parameter")
    | some parameter ↦ ok (arguments ++ (parameter, value) ∷ [])
  ]

  unfoldable pub checked_result : MethodDefinition V → V → Result Exception V
  checked_result method result = elim (method.validate_result result) [
    | err raised ↦ err raised
    | ok validated ↦ ok (if method.is_model result then result else validated)
  ]

  unfoldable pub call_function :
      MethodDefinition V
      → (List (String × V) → Result Exception V)
      → List (String × V)
      → Result Exception V
  unfolding checked_result
  call_function method function arguments = elim (function arguments) [
    | err raised ↦ err raised
    | ok result ↦ checked_result method result
  ]

  -- The body of `execute` inside the resolver's scope.
  unfoldable pub run_method :
      (ℕ → Result Exception V)
      → MethodDefinition V
      → (List (String × V) → Result Exception V)
      → Option V
      → Result Exception V
  unfolding resolve_all with_params call_function
  run_method resolve method function values =
      elim (resolve_all resolve method.injected_parameters) [
        | err raised ↦ err raised
        | ok injected ↦ elim (with_params method values injected) [
          | err raised ↦ err raised
          | ok arguments ↦ call_function method function arguments
        ]
      ]

  -- `RpcDispatcher.execute`
  unfoldable pub execute : (ℕ → Result Exception V) → Invocation V → Result Exception V
  unfolding run_method
  execute resolve invocation = elim invocation.method.function [
    | none ↦ err (protocol_error_text "method is not executable")
    | some function ↦
        if invocation.method.has_scope
        then run_method resolve invocation.method function invocation.params
        else err (protocol_error_text "method is not executable")
  ]

-- What a server is made of: `RpcServer._from_channel`, and the libraries that it calls.
pub record Server (V : Type 0) : Type 0 where
  pub methods : List (MethodDefinition V)
  pub resolve : ℕ → Result Exception V
  pub error_mapper : ErrorMapper
  pub strict_errors : Bool
  pub max_batch_size : ℕ
  -- `limits.request_timeout`, in ticks
  pub limit_request_timeout : Option ℕ
  -- The size of encoded metadata, and Pydantic's error for unexpected members.
  pub encoded_size : Fields → Option ℕ
  pub unexpected : Fields → ValidationError

module _ {V : Type 0} (server : Server V) where
  unfoldable pub with_validated :
      RequestEnvelope
      → MethodDefinition V
      → Result Exception (Option V)
      → Result Exception (Invocation V)
  with_validated envelope method (err raised) = err raised
  with_validated envelope method (ok values) =
      ok (record { request = envelope; method = method; params = values })

  -- `RpcDispatcher.parse_request`
  unfoldable pub parse_request : Json → Result Exception (Invocation V)
  unfolding with_validated
  parse_request raw = elim (envelope_validate server.encoded_size raw) [
    | none ↦ err (raised_rpc invalid_request)
    | some envelope ↦ elim (find_method envelope.method server.methods) [
      | none ↦ err (raised_rpc (method_not_found envelope.method))
      | some method ↦
          with_validated envelope method (validated_params server.unexpected method envelope.params)
    ]
  ]

  -- `_failure_response`; the outer `none` is a `ProtocolDefinitionError` of the error mapping.
  unfoldable pub failure_response : Json → Exception → List ErrorType → Option (Option (Response V))
  failure_response raw error declared = do
    mapped ← rpc_error server.strict_errors server.error_mapper error (request_method raw) declared
    some (if looks_like_notification raw then none else some (from_error (request_id raw) mapped))

  unfoldable pub answer_result :
      Json → Invocation V → Result Exception V → Option (Option (Response V))
  answer_result raw invocation (err error) = failure_response raw error invocation.method.raises
  answer_result raw invocation (ok result) = some (
      if expects_response invocation.request
      then some (success invocation.request.id result)
      else none)

  unfoldable pub answer_parsed :
      Json → Result Exception (Invocation V) → Option (Option (Response V))
  unfolding answer_result
  answer_parsed raw (err error) = failure_response raw error []
  answer_parsed raw (ok invocation) =
      answer_result raw invocation (execute server.resolve invocation)

  -- `_dispatch_request` without a failure given.
  unfoldable pub dispatch_request : Json → Option (Option (Response V))
  unfolding answer_parsed
  dispatch_request raw = answer_parsed raw (parse_request raw)

  -- `_handle_failure`
  unfoldable pub handle_failure : Json → Exception → Option (Option (Response V))
  handle_failure raw error = failure_response raw error []
