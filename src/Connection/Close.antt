-- ===== src/Connection/Close.antt =====
-- `RpcRejection`, `RpcConnectionClose`, `RpcDisconnect` and `REJECTION_CLOSES` of
-- rpckit/connection.py.
use pyrpckit.Prelude.{Option, String, if◌then◌else◌, none, some, ℕ, ◌==◌}

pub data Rejection : Type 0 where
  unauthorized forbidden not_found rejected_protocol unavailable rejected_internal : Rejection

pub data ConnectionClose : Type 0 where
  normal shutdown service_restart protocol_error policy_violation message_too_big : ConnectionClose
  internal_error try_again_later other_close : ConnectionClose

-- `isinstance(close, RpcConnectionClose)`, or a WebSocket close code.
pub data CloseArgument : Type 0 where
  named : ConnectionClose → CloseArgument
  raw : ℕ → CloseArgument

pub record Disconnect : Type 0 where
  pub code : ConnectionClose
  pub reason : String
  pub raw_close_code : Option ℕ

close_of_raw : ℕ → ConnectionClose
close_of_raw n =
    if n == 1000
    then normal
    else if n == 1001
    then shutdown
    else if n == 1002
    then protocol_error
    else if n == 1008
    then policy_violation
    else if n == 1009
    then message_too_big
    else if n == 1011
    then internal_error
    else if n == 1012
    then service_restart
    else if n == 1013
    then try_again_later
    else other_close

-- `RpcDisconnect(close, reason)`
unfoldable pub disconnect : CloseArgument → String → Disconnect
unfolding close_of_raw
disconnect (named close) why = record { code = close; reason = why; raw_close_code = none }
disconnect (raw n) why = record { code = close_of_raw n; reason = why; raw_close_code = some n }

unfoldable pub rejection_closes : Rejection → ConnectionClose
rejection_closes unauthorized = policy_violation
rejection_closes forbidden = policy_violation
rejection_closes not_found = policy_violation
rejection_closes rejected_protocol = protocol_error
rejection_closes unavailable = try_again_later
rejection_closes rejected_internal = internal_error
