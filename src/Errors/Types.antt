-- ===== src/Errors/Types.antt =====
-- Error classes, their instances, and `RpcErrorBinding` (rpckit/errors.py). A Python class or
-- binding is known by a number, its identity. Callables that a user supplies are functions that may
-- raise.
use pyrpckit.Prelude.{
  Bool, List, Option, Result, String, [], err, false, if◌then◌else◌, none, ok, some, str_eq, true,
  ℕ, ◌∷◌,
}
use pyrpckit.Json.{Items, Json, arr, end, field, negsuc, obj, str, ℤ}
use pyrpckit.Connection.Close.{Rejection}
use pyrpckit.Connection.Rejection.{Exception, RpcError, RpcReject, is_instance, plain}

-- A subclass of `RpcError`, after `__init_subclass__`.
pub record ErrorClass : Type 0 where
  pub ident : ℕ
  pub bases : List ℕ
  pub class_code : String
  pub class_message : String
  pub class_rpc_code : ℤ
  -- `isinstance(details, details_type)`
  pub details_type : Option (Json → Bool)
  pub class_builtin : Bool

pub data Details : Type 0 where
  no_details : Details
  details_model : (Exception → Result Exception Json) → Details
  details_function : (Exception → Result Exception (Option Json)) → Details

pub record ErrorBinding : Type 0 where
  pub binding_ident : ℕ
  pub exception : ℕ
  pub error_type : ErrorClass
  pub rejection : Option Rejection
  -- A callable `message=`; a text is the class's message.
  pub message : Option (Exception → Result Exception String)
  pub details : Details

-- An error class with the binding in its own `__dict__`, if it was made by one.
pub record ErrorType : Type 0 where
  pub error_class : ErrorClass
  pub contract : Option ErrorBinding

-- The exceptions that rpckit's own code raises here, as Python's `TypeError`.
abbrev pub type_error : String → Exception
type_error why = record { mro = 2 ∷ 1 ∷ 0 ∷ []; text = why; kind = plain }

-- The RPC errors that rpckit raises itself. Their classes are known by the numbers below 100.
abbrev pub builtin_error : ℕ → String → String → ℤ → Option Json → RpcError
builtin_error cls code message rpc_code details = record {
  classes = cls ∷ 10 ∷ 1 ∷ 0 ∷ [];
  code = code;
  message = message;
  details = details;
  rpc_code = rpc_code;
  builtin = true;
}

abbrev pub parse_error : RpcError
parse_error = builtin_error 11 "parse_error" "Parse error" (negsuc 32699) none

abbrev pub invalid_request : RpcError
invalid_request = builtin_error 12 "invalid_request" "Invalid request" (negsuc 32599) none

abbrev pub method_not_found : String → RpcError
method_not_found name =
    builtin_error 13 "method_not_found" "Method not found" (negsuc 32600)
      (some (obj (field "method" (str name) end)))

-- `RpcInvalidParamsError(message=...)`: the issues default to none.
abbrev pub invalid_params : String → Items → RpcError
invalid_params message issues =
    builtin_error 14 "invalid_params" message (negsuc 32601)
      (some (obj (field "issues" (arr issues) end)))

abbrev pub internal : RpcError
internal = builtin_error 15 "internal_error" "Internal error" (negsuc 32602) none

abbrev pub request_timeout : RpcError
request_timeout = builtin_error 16 "request_timeout" "Request timeout" (negsuc 31999) none

abbrev pub request_cancelled : RpcError
request_cancelled = builtin_error 17 "request_cancelled" "Request cancelled" (negsuc 32799) none

abbrev pub server_shutting_down : RpcError
server_shutting_down =
    builtin_error 18 "server_shutting_down" "Server shutting down" (negsuc 31999) none

-- `RpcPendingLimitError` of rpckit/runtime.py.
abbrev pub pending_limit : RpcError
pending_limit = builtin_error 19 "pending_limit" "Too many pending requests" (negsuc 31999) none

-- `RpcSubscriptionLimitError` of rpckit/subscriptions.py, which is not marked as built in.
abbrev pub subscription_limit : RpcError
subscription_limit =
    record (builtin_error 20 "subscription_limit" "Too many subscriptions" (negsuc 31999) none) {
      builtin = false;
    }

-- `message or type(self).message`
abbrev or_message : String → String → String
or_message given fallback = if str_eq given "" then fallback else given

-- `RpcError.__init__(details, message=message)`
unfoldable pub construct : ErrorClass → Option Json → String → Result Exception RpcError
construct cls given why = elim cls.details_type [
  | none ↦ elim given [
    | none ↦ ok (record {
      classes = cls.ident ∷ cls.bases;
      code = cls.class_code;
      message = or_message why cls.class_message;
      details = none;
      rpc_code = cls.class_rpc_code;
      builtin = cls.class_builtin;
    })
    | some value ↦ err (type_error "does not accept details")
  ]
  | some accepts ↦ elim given [
    | none ↦ err (type_error "requires details")
    | some value ↦
        if accepts value
        then ok (record {
          classes = cls.ident ∷ cls.bases;
          code = cls.class_code;
          message = or_message why cls.class_message;
          details = some value;
          rpc_code = cls.class_rpc_code;
          builtin = cls.class_builtin;
        })
        else err (type_error "details of another type")
  ]
]

unfoldable pub message_for : ErrorBinding → Exception → Result Exception String
message_for binding error = elim binding.message [
  | none ↦ ok binding.error_type.class_message
  | some f ↦ f error
]

details_for : Details → Exception → Result Exception (Option Json)
details_for no_details error = ok none
details_for (details_model validate) error = elim (validate error) [
  | ok value ↦ ok (some value)
  | err raised ↦ err raised
]
details_for (details_function f) error = f error

-- `RpcErrorBinding.to_error`
unfoldable pub to_error : ErrorBinding → Exception → Result Exception RpcError
unfolding details_for message_for construct
to_error binding error =
    if is_instance error binding.exception
    then elim (details_for binding.details error) [
      | err raised ↦ err raised
      | ok value ↦ elim (message_for binding error) [
        | err raised ↦ err raised
        | ok why ↦ construct binding.error_type value why
      ]
    ]
    else err (type_error "expected another exception")

-- `RpcErrorBinding.reject`
unfoldable pub reject_for : ErrorBinding → Exception → Result Exception (Option RpcReject)
unfolding message_for
reject_for binding error = elim binding.rejection [
  | none ↦ ok none
  | some rejection ↦ elim (message_for binding error) [
    | err raised ↦ err raised
    | ok why ↦ ok (some (record { rejection = rejection; reason = why; headers = none }))
  ]
]
