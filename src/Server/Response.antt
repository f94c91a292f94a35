-- ===== src/Server/Response.antt =====
-- `RpcSuccess`, `RpcFailure` and `RpcFailure.from_error` of rpckit/envelopes.py. `V` is the type of
-- Python values; a result is serialised only when the response is encoded.
use pyrpckit.Prelude.{Option, String}
use pyrpckit.Json.{Json, ℤ}
use pyrpckit.Connection.Rejection.{RpcError}
use pyrpckit.Wire.Envelope.{RequestId}

pub record ErrorData : Type 0 where
  pub code : ℤ
  pub message : String
  pub payload_code : String
  pub payload_details : Option Json

pub data Response (V : Type 0) : Type 0 where
  success : RequestId → V → Response V
  failure : RequestId → ErrorData → Response V

module _ {V : Type 0} where
  abbrev pub response_id : Response V → RequestId
  response_id (success request result) = request
  response_id (failure request data_) = request

  -- `RpcFailure.from_error`
  unfoldable pub from_error : RequestId → RpcError → Response V
  from_error request error = failure request (record {
    code = error.rpc_code;
    message = error.message;
    payload_code = error.code;
    payload_details = error.details;
  })
