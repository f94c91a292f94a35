-- ===== src/Sockets.antt =====
-- How a failed stream or raw socket closes its connection: `_rejection`, `_leaf_exceptions`,
-- `close_stream_error` of `_run_stream_endpoint` and `close_failure` of `_run_raw_socket`
-- (rpckit/runtime.py). Logging is left out.
pub mod Groups
pub mod Raw
mod Tests
use pyrpckit.Prelude.{
  Bool, List, Option, Result, String, [], err, false, if◌then◌else◌, none, ok, some, str_append,
  true, ◌++◌, ◌∷◌,
}
use pyrpckit.Connection.Close.{
  ConnectionClose, internal_error, normal, policy_violation, rejection_closes,
}
use pyrpckit.Connection.Rejection.{
  Exception, Rejections, RpcError, RpcReject, disconnected, rejection_for, rpc, stream_close,
}
use pyrpckit.Connection.Life.{Connection, request_close, stream_handler}
use pyrpckit.Errors.Types.{reject_for}
use pyrpckit.Errors.Bindings.{Bound, contract_for}

-- An exception, or an `ExceptionGroup` with its `exceptions`.
mutual
  pub data Failure : Type 0 where
    single : Exception → Failure
    group : Failures → Failure

  pub data Failures : Type 0 where
    nil : Failures
    cons : Failure → Failures → Failures

-- `_leaf_exceptions`
unfoldable mutual
  pub leaf_exceptions : Failure → List Exception
  leaf_exceptions (single error) = error ∷ []
  leaf_exceptions (group failures) = leaves_of failures

  pub leaves_of : Failures → List Exception
  leaves_of nil = []
  leaves_of (cons failure failures) = leaf_exceptions failure ++ leaves_of failures

-- `_rejection`: a mapper that fails rejects nothing.
unfoldable pub rejection : Exception → Option Rejections → Option RpcReject
rejection error rejections = elim (rejection_for error rejections) [
  | ok found ↦ found
  | err raised ↦ none
]

unfoldable pub is_disconnect : Exception → Bool
is_disconnect error = elim error.kind [ disconnected d ↦ true | _ ↦ false ]

-- `next((e for e in leaves if not isinstance(e, RpcDisconnect)), None)`
unfoldable pub first_failure : List Exception → Option Exception
unfolding is_disconnect
first_failure [] = none
first_failure (error ∷ errors) = if is_disconnect error then first_failure errors else some error

-- `binding.reject(failure)` of the bound exception; a binding that fails rejects nothing.
bound_reject : Bound → Exception → Option RpcReject
bound_reject closes failure = elim (contract_for failure closes) [
  | none ↦ none
  | some binding ↦ elim (reject_for binding failure) [ ok found ↦ found | err raised ↦ none ]
]

abbrev pub Close : Type 0
Close = ConnectionClose × String

close_of : Option RpcReject → Close
close_of none = (internal_error, "Internal error")
close_of (some rejected) = (rejection_closes rejected.rejection, rejected.reason)

abbrev or_else : Option RpcReject → Option RpcReject → Option RpcReject
or_else none other = other
or_else (some rejected) other = some rejected

-- What `close_failure` of a raw socket asks for.
unfoldable pub failure_close : Bound → Option Rejections → Option Exception → Close
unfolding bound_reject rejection close_of
failure_close closes rejections none = (normal, "")
failure_close closes rejections (some failure) =
    close_of (or_else (bound_reject closes failure) (rejection failure rejections))

unfoldable pub raw_close : Bound → Option Rejections → List Exception → Close
unfolding first_failure failure_close
raw_close closes rejections leaves = failure_close closes rejections (first_failure leaves)

unfoldable pub close_failure : Bound → Option Rejections → Failure → Connection → Connection
unfolding raw_close
close_failure closes rejections failure c =
    let (code, reason) = raw_close closes rejections (leaf_exceptions failure) in
    request_close stream_handler code reason none c

-- `error_mapper(error)`, which may raise.
abbrev pub ErrorMapper : Type 0
ErrorMapper = Exception → Result Exception (Option RpcError)

mapped_error : Option ErrorMapper → Exception → Option RpcError
mapped_error error_mapper error = elim error.kind [
  | rpc e ↦ some e
  | _ ↦ elim error_mapper [
    | none ↦ none
    | some f ↦ elim (f error) [ ok found ↦ found | err raised ↦ none ]
  ]
]

mapped_close : Option RpcError → Close
mapped_close none = (internal_error, "Internal error")
mapped_close (some e) = (policy_violation, str_append e.code (str_append ": " e.message))

-- What `close_stream_error` asks for.
unfoldable pub stream_error_close : Option Rejections → Option ErrorMapper → Exception → Close
unfolding rejection mapped_error mapped_close
stream_error_close rejections error_mapper error = elim error.kind [
  | stream_close code reason ↦ (code, reason)
  | _ ↦ elim (rejection error rejections) [
    | some rejected ↦ (rejection_closes rejected.rejection, rejected.reason)
    | none ↦ mapped_close (mapped_error error_mapper error)
  ]
]

unfoldable pub close_stream_error :
    Option Rejections → Option ErrorMapper → Exception → Connection → Connection
unfolding stream_error_close
close_stream_error rejections error_mapper error c =
    let (code, reason) = stream_error_close rejections error_mapper error in
    request_close stream_handler code reason none c
