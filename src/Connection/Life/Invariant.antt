-- ===== src/Connection/Life/Invariant.antt =====
-- What holds of a connection at every moment of its life.
use pyrpckit.Prelude.{List, [], arith, false, some, true, ℕ, ◌∷◌, ◌≡◌}
use pyrpckit.Connection.Life.{
  Connection, Event, accept, accepts, client_disconnected, closes_for_good, create, disconnects,
  expire, expire_at, expires, installs, mark_closed, request_close, requests, run,
  set_close_handler, sets_expiry, step, stop, stops,
}

pub record Inv (c : Connection) : Type 0 where
  -- An armed timer stands at the current expiry of an accepted connection that is not closed.
  pub armed :
      (t : ℕ)
      → c.expiry_timer ≡ some t
      → (c.expires_at ≡ some t) × (c.accepted ≡ true) × (c.closed ≡ false)
  -- Once a close was requested, the connection reports a close code.
  pub reported : c.close_event ≡ true → c.close_code ≡ some c.value_code

create-Inv : Inv create
unfolding create
create-Inv = record { armed = λ t h. cc; reported = λ h. cc }

-- Each call keeps the invariant.
step-Inv : (c : Connection) (e : Event) → Inv c → Inv (step c e)
unfolding step accept mark_closed expire expire_at stop set_close_handler request_close
    client_disconnected
step-Inv c accepts v = record {
  armed = λ t h. ground (arith, v.armed t);
  reported = λ h. ground (arith, v.reported);
}
step-Inv c expires v = record {
  armed = λ t h. ground (arith, v.armed t);
  reported = λ h. ground (arith, v.reported);
}
step-Inv c closes_for_good v = record { armed = λ t h. cc; reported = v.reported }
step-Inv c stops v = record {
  armed = λ t h. ground (arith, v.armed t);
  reported = λ h. ground (arith, v.reported);
}
step-Inv c (sets_expiry timestamp) v = record {
  armed = λ t h. ground (arith, v.armed t);
  reported = λ h. ground (arith, v.reported);
}
step-Inv c (installs handler) v = record {
  armed = λ t h. ground (arith, v.armed t);
  reported = λ h. ground (arith, v.reported);
}
step-Inv c (requests code reason raw_code) v = record {
  armed = λ t h. ground (arith, v.armed t);
  reported = λ h. ground (arith, v.reported);
}
step-Inv c (disconnects once error) v = record {
  armed = λ t h. ground (arith, v.armed t);
  reported = λ h. ground (arith, v.reported);
}

run_keeps : (c : Connection) (es : List Event) → Inv c → Inv (run c es)
unfolding run
run_keeps c [] v = v
run_keeps c (e ∷ es) v = run_keeps (step c e) es (step-Inv c e v)

-- After any calls in any order, an armed expiry timer stands at the connection's current expiry,
-- and only while the connection is accepted and not closed; and once a close was requested the
-- connection reports exactly the close code that the endpoint will send.
pub life_run-Inv : (es : List Event) → Inv (run create es)
life_run-Inv es = run_keeps create es create-Inv
