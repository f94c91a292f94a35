-- ===== src/Connection/Tests.antt =====
-- Runs and witnesses of the connection's theorems.
use pyrpckit.Prelude.{List, Option, [], err, inr, none, ok, refl, some, ◌∷◌, ◌≡◌}
use pyrpckit.Json.{pos}
use pyrpckit.Connection.Close.{forbidden, internal_error, normal, policy_violation, unauthorized}
use pyrpckit.Connection.Rejection.{
  Exception, Rejections, RpcReject, chain_rejections, chain_rejections_lem, consult, plain,
  rejection_for, table,
}
use pyrpckit.Connection.Limits.{RpcLimits, infinity, number, post_init, ticks}
use pyrpckit.Connection.Life.{
  Connection, Event, accept, accepts, closes_for_good, create, expire, expire_at, expires, installs,
  mark_closed, request_close, requests, rpc_handler, run, set_close_handler, sets_expiry, step,
  stream_handler,
}
use pyrpckit.Connection.Life.Invariant.{Inv, life_run-Inv}
use pyrpckit.Connection.Life.FirstClose.{SameClose, final_close_stays}

-- The defaults of the dataclass, a second being 1000 ticks.
abbrev default_limits : RpcLimits
default_limits = record {
  max_concurrency = pos 32;
  max_queue_size = pos 128;
  max_message_bytes = some (pos 1048576);
  client_method_timeout = some (ticks (pos 30000));
  send_timeout = some (ticks (pos 10000));
  max_batch_size = pos 32;
  max_subscriptions = pos 100;
  max_pending_requests = pos 1024;
  request_timeout = none;
}

infinite_request_timeout :
    post_init (record default_limits { request_timeout = some (number infinity) })
    ≡ err "request_timeout must be finite and positive or None"
unfolding post_init
infinite_request_timeout = refl

abbrev denied : RpcReject
denied = record { rejection = forbidden; reason = "denied"; headers = none }

abbrev failure : Exception
failure = record { mro = 7 ∷ 1 ∷ []; text = "denied"; kind = plain }

abbrev levels : List (Option Rejections)
levels = none ∷ some (table ((9, unauthorized) ∷ [])) ∷ some (table ((1, forbidden) ∷ [])) ∷ []

chain_rejections_lem_example : rejection_for failure (chain_rejections levels) ≡ ok (some denied)
unfolding consult rejection_for
chain_rejections_lem_example = chain_rejections_lem levels failure refl

abbrev script : List Event
script =
    sets_expiry (some 50)
    ∷ accepts
    ∷ installs rpc_handler
    ∷ expires
    ∷ requests normal "" none
    ∷ closes_for_good
    ∷ []

life_run-Inv_example : Inv (run create script)
life_run-Inv_example = life_run-Inv script

expired_value : (run create script).value_code ≡ policy_violation
unfolding run step create accept expire_at expire set_close_handler request_close mark_closed
expired_value = refl

abbrev ready : Connection
ready = run create (accepts ∷ installs stream_handler ∷ [])

-- A stream that ended normally, and then failed while it was torn down.
abbrev torn_down : Connection
torn_down =
    step (step ready (requests normal "" none)) (requests internal_error "Internal error" none)

final_close_stays_example : SameClose torn_down (run torn_down (requests normal "" none ∷ []))
unfolding run step create accept set_close_handler request_close
final_close_stays_example =
    final_close_stays stream_handler torn_down (requests normal "" none ∷ []) (tt, tt) refl
      (refl, inr refl)
