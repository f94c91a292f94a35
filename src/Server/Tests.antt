-- ===== src/Server/Tests.antt =====
-- Runs and witnesses of the theorems on requests. Values are numbers.
use pyrpckit.Prelude.{List, [], false, none, ok, refl, some, true, ℕ, ◌∷◌, ◌≡◌}
use pyrpckit.Json.{Json, arr, cons, end, field, negsuc, nil, null, obj, str}
use pyrpckit.Connection.Rejection.{RpcError}
use pyrpckit.Errors.Types.{internal}
use pyrpckit.Errors.Bindings.{bind_contracts, bind_from}
use pyrpckit.Errors.Declarations.{contracts_of}
use pyrpckit.Wire.Envelope.{envelope_validate, text_id}
use pyrpckit.Server.Response.{success}
use pyrpckit.Server.Mapping.{admit, is_declared, rpc_error}
use pyrpckit.Server.Mapping.Strict.{IsPublic, rpc_error-IsPublic}
use pyrpckit.Server.Protocol.{
  IsProtocol, MethodDefinition, bindings_fit, find_method, protocol, unique,
}
use pyrpckit.Server.Dispatch.{
  Server, answer_parsed, answer_result, call_function, checked_result, dispatch_request, execute,
  parse_request, raised_rpc, resolve_all, run_method, validated_params, with_params, with_validated,
}
use pyrpckit.Server.Dispatch.Answer.{IsAnswered, dispatch_request-IsAnswered}
use pyrpckit.Server.Dispatch.Bounded.{Moment, client_cancels, clock}
use pyrpckit.Server.Dispatch.Batch.{ResponseMessage, asked_ids, handle, handle_batch, ids_of}

-- A user's error that no method declares.
abbrev secret : RpcError
secret = record {
  classes = 100 ∷ 10 ∷ 1 ∷ 0 ∷ [];
  code = "secret";
  message = "Secret";
  details = none;
  rpc_code = negsuc 31999;
  builtin = false;
}

rpc_error-IsPublic_example : IsPublic [] internal
unfolding rpc_error admit is_declared
rpc_error-IsPublic_example = rpc_error-IsPublic none (raised_rpc secret) [] "echo" internal refl

-- A method without params that returns a number, within 50 ticks.
abbrev answer_method : MethodDefinition ℕ
answer_method = record {
  name = "answer";
  params = none;
  raises = [];
  function = some (λ arguments. ok 42);
  has_scope = true;
  injected_parameters = [];
  params_parameter = none;
  validate_result = λ value. ok value;
  is_model = λ value. false;
  has_timeout = true;
  timeout = some 50;
}

abbrev server : Server ℕ
server = record {
  methods = answer_method ∷ [];
  resolve = λ dependency. ok dependency;
  error_mapper = none;
  strict_errors = true;
  max_batch_size = 3;
  limit_request_timeout = none;
  encoded_size = λ fs. some 2;
  unexpected = λ fs. record {
    first = record {
      location = "x";
      issue_message = "Extra inputs are not permitted";
      issue = null;
    };
    others = [];
  };
}

server-IsProtocol : IsProtocol (answer_method ∷ [])
unfolding protocol unique bindings_fit bind_contracts bind_from contracts_of
server-IsProtocol = refl

abbrev request : Json
request =
    obj (field "jsonrpc" (str "2.0") (field "id" (str "a") (field "method" (str "answer") end)))

abbrev notification : Json
notification = obj (field "jsonrpc" (str "2.0") (field "method" (str "answer") end))

request_answered : dispatch_request server request ≡ some (some (success (text_id "a") 42))
unfolding dispatch_request parse_request envelope_validate find_method validated_params
    with_validated answer_parsed answer_result execute run_method resolve_all with_params
    call_function checked_result
request_answered = refl

dispatch_request-IsAnswered_example : IsAnswered request (dispatch_request server request)
dispatch_request-IsAnswered_example = dispatch_request-IsAnswered server request server-IsProtocol

-- The clock passes the deadline, and the client cancels behind it.
abbrev late_cancel : List Moment
late_cancel = clock 30 ∷ clock 55 ∷ client_cancels ∷ []

handle_batch_example :
    (m : ResponseMessage ℕ) × (handle server (arr (cons request (cons notification nil))) ≡ some m)
    × (ids_of server m ≡ asked_ids (request ∷ notification ∷ []))
handle_batch_example = handle_batch server (cons request (cons notification nil)) server-IsProtocol
