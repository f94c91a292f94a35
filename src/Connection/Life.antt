-- ===== src/Connection/Life.antt =====
-- `RpcConnection` of rpckit/connection.py with the `request_close` closure that its endpoint
-- installs (rpckit/runtime.py). One state holds both, since each writes the other's fields. Times
-- are numbers; `isfinite` is settled before an expiry is set.
pub mod Invariant
pub mod FirstClose
use pyrpckit.Prelude.{
  Bool, List, Option, Result, String, [], err, false, if◌then◌else◌, none, not, ok, some, str_eq,
  true, ℕ, ◌&&◌, ◌||◌, ◌∷◌,
}
use pyrpckit.Connection.Close.{
  ConnectionClose, Disconnect, normal, policy_violation, service_restart,
}

-- Which closure `_on_close` is: that of `_run_rpc_endpoint`, or the one that
-- `_run_stream_endpoint` and `_run_raw_socket` share.
pub data CloseHandler : Type 0 where
  rpc_handler stream_handler : CloseHandler

pub record Connection : Type 0 where
  pub accepted : Bool
  pub closed : Bool
  pub close_code : Option ConnectionClose
  pub close_reason : String
  pub raw_close_code : Option ℕ
  pub on_close : Option CloseHandler
  pub expires_at : Option ℕ
  -- The deadline of the armed timer.
  pub expiry_timer : Option ℕ
  -- Whether `_startup_task` is set, and whether it was cancelled.
  pub startup_task : Bool
  pub startup_cancelled : Bool
  -- `close_event`, `close_value` and `client_closed` of the endpoint.
  pub close_event : Bool
  pub value_code : ConnectionClose
  pub value_reason : String
  pub client_closed : Bool

-- `RpcConnection._create`, and the endpoint's `close_value = [NORMAL, ""]`.
unfoldable pub create : Connection
create = record {
  accepted = false;
  closed = false;
  close_code = none;
  close_reason = "";
  raw_close_code = none;
  on_close = none;
  expires_at = none;
  expiry_timer = none;
  startup_task = false;
  startup_cancelled = false;
  close_event = false;
  value_code = normal;
  value_reason = "";
  client_closed = false;
}

unfoldable pub arm_expiry : Connection → Connection
arm_expiry c =
    if c.accepted && not c.closed
    then record c { expiry_timer = c.expires_at }
    else record c { expiry_timer = none }

unfoldable pub expire_at : Option ℕ → Connection → Connection
unfolding arm_expiry
expire_at timestamp c = arm_expiry (record c { expires_at = timestamp })

-- The end of `_prepare`: the socket is accepted and the expiry armed.
unfoldable pub accept : Connection → Connection
unfolding arm_expiry
accept c = arm_expiry (record c { accepted = true })

unfoldable pub record_close : ConnectionClose → String → Option ℕ → Connection → Connection
record_close code reason raw_code c = record c {
  value_code = code;
  value_reason = reason;
  close_code = some code;
  close_reason = reason;
  raw_close_code = raw_code;
  close_event = true;
}

abbrev pub is_normal : ConnectionClose → Bool
is_normal normal = true
is_normal _ = false

-- `request_close` of each endpoint.
unfoldable pub request_close :
    CloseHandler → ConnectionClose → String → Option ℕ → Connection → Connection
unfolding record_close
request_close rpc_handler code reason raw_code c =
    if c.close_event then c else record_close code reason raw_code c
request_close stream_handler code reason raw_code c =
    if not c.close_event || not c.client_closed && is_normal c.value_code && not (is_normal code)
    then record_close code reason raw_code c
    else c

abbrev pub credentials_expired : String
credentials_expired = "credentials_expired"

expire_close : Option CloseHandler → Connection → Connection
unfolding request_close
expire_close (some handler) c = request_close handler policy_violation credentials_expired none c
expire_close none c = record c {
  close_code = some policy_violation;
  close_reason = credentials_expired;
}

cancel_startup : Connection → Connection
cancel_startup c =
    if c.startup_task then record c { startup_task = false; startup_cancelled = true } else c

abbrev is_some {ℓ} : {A : Type ℓ} → Option A → Bool
is_some none = false
is_some (some a) = true

-- `_expire`, the callback of the timer.
unfoldable pub expire : Connection → Connection
unfolding expire_close cancel_startup
expire c =
    let fired = record c { expiry_timer = none } in
    if c.closed || is_some c.close_code
    then fired
    else cancel_startup (expire_close c.on_close fired)

unfoldable pub set_close_handler : CloseHandler → Connection → Connection
unfolding request_close
set_close_handler handler c =
    let c' = record c { on_close = some handler } in
    if str_eq c.close_reason credentials_expired
    then request_close handler policy_violation credentials_expired none c'
    else c'

unfoldable pub mark_closed : Connection → Connection
mark_closed c = record c { closed = true; startup_task = false; expiry_timer = none }

-- `connection.close(...)`: `err` is the `RuntimeError` before the connection was accepted.
unfoldable pub close : ConnectionClose → String → Connection → Result String Connection
unfolding request_close
close code reason c =
    if c.accepted
    then elim c.on_close [
      | none ↦ ok c
      | some handler ↦ ok (request_close handler code reason none c)
    ]
    else err "RpcConnection.close() is only valid after the connection was accepted"

-- The peer's disconnect: `client_closed = True`, then `request_close`. Only the raw socket's
-- `client_disconnected` tests `client_closed` first.
unfoldable pub client_disconnected : Bool → CloseHandler → Disconnect → Connection → Connection
unfolding request_close
client_disconnected once handler error c =
    if once && c.client_closed
    then c
    else request_close handler error.code error.reason error.raw_close_code
        (record c { client_closed = true })

-- `_DrainSession.stop` of rpckit/drain.py, which writes the close code behind the handler's back.
unfoldable pub stop : Connection → Connection
stop c = elim c.close_code [
  | none ↦ record c { close_code = some service_restart; close_reason = "Server restarting" }
  | some code ↦ c
]

pub data Event : Type 0 where
  accepts expires closes_for_good stops : Event
  sets_expiry : Option ℕ → Event
  installs : CloseHandler → Event
  requests : ConnectionClose → String → Option ℕ → Event
  disconnects : Bool → Disconnect → Event

-- A request through the handler, if one is installed.
via : Option CloseHandler → (CloseHandler → Connection → Connection) → Connection → Connection
via none act c = c
via (some handler) act c = act handler c

-- One call of the connection's interface. A timer fires only while it is armed.
unfoldable pub step : Connection → Event → Connection
unfolding via
step c accepts = accept c
step c expires = elim c.expiry_timer [ none ↦ c | some deadline ↦ expire c ]
step c closes_for_good = mark_closed c
step c stops = stop c
step c (sets_expiry timestamp) = expire_at timestamp c
step c (installs handler) = set_close_handler handler c
step c (requests code reason raw_code) =
    via c.on_close (λ handler. request_close handler code reason raw_code) c
step c (disconnects once error) =
    via c.on_close (λ handler. client_disconnected once handler error) c

unfoldable pub run : Connection → List Event → Connection
run c [] = c
run c (e ∷ es) = run (step c e) es
