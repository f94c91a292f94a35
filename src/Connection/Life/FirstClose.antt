-- ===== src/Connection/Life/FirstClose.antt =====
-- Which close request decides, for each of the two `request_close` closures.
use pyrpckit.Prelude.{All, List, [], arith, false, refl, some, true, ◌∙◌, ◌∷◌, ◌≡◌, ◌⊎◌}
use pyrpckit.Connection.Life.{
  CloseHandler, Connection, Event, accept, accepts, client_disconnected, closes_for_good,
  disconnects, expire, expire_at, expires, installs, is_normal, mark_closed, request_close,
  requests, rpc_handler, run, set_close_handler, sets_expiry, step, stop, stops, stream_handler,
}

-- No call installs another handler than `handler`.
abbrev pub InstallsOnly : CloseHandler → Event → Type 0
InstallsOnly handler (installs other) = other ≡ handler
InstallsOnly handler _ = Unit

-- The value that the endpoint will send can no longer change.
abbrev pub IsFinal : CloseHandler → Connection → Type 0
IsFinal rpc_handler c = c.close_event ≡ true
IsFinal stream_handler c =
    (c.close_event ≡ true) × ((c.client_closed ≡ true) ⊎ (is_normal c.value_code ≡ false))

-- The same handler, and the same close value.
abbrev pub SameClose : Connection → Connection → Type 0
SameClose c d = (d.value_code ≡ c.value_code) × (d.value_reason ≡ c.value_reason)

abbrev Kept : CloseHandler → Connection → Connection → Type 0
Kept handler c d = (d.on_close ≡ some handler) × IsFinal handler d × SameClose c d

step_final :
    (handler : CloseHandler) (c : Connection) (e : Event)
    → InstallsOnly handler e
    → c.on_close ≡ some handler
    → IsFinal handler c
    → Kept handler c (step c e)
unfolding step accept mark_closed expire expire_at stop set_close_handler request_close
    client_disconnected
step_final rpc_handler c accepts i h f = ground arith
step_final rpc_handler c expires i h f = ground arith
step_final rpc_handler c closes_for_good i h f = ground arith
step_final rpc_handler c stops i h f = ground arith
step_final rpc_handler c (sets_expiry timestamp) i h f = ground arith
step_final rpc_handler c (installs other) i h f = ground arith
step_final rpc_handler c (requests code reason raw_code) i h f = ground arith
step_final rpc_handler c (disconnects once error) i h f = ground arith
step_final stream_handler c accepts i h f = ground arith
step_final stream_handler c expires i h f = ground arith
step_final stream_handler c closes_for_good i h f = ground arith
step_final stream_handler c stops i h f = ground arith
step_final stream_handler c (sets_expiry timestamp) i h f = ground arith
step_final stream_handler c (installs other) i h f = ground arith
step_final stream_handler c (requests code reason raw_code) i h f = ground arith
step_final stream_handler c (disconnects once error) i h f = ground arith

-- Once the close is final, no call changes the close code or the reason that the endpoint sends.
-- It is final for a JSON-RPC endpoint after its first close request; for a stream or a raw socket
-- after a request other than a normal close, or when the client has disconnected.
pub final_close_stays :
    (handler : CloseHandler) (c : Connection) (es : List Event)
    → All (InstallsOnly handler) es
    → c.on_close ≡ some handler
    → IsFinal handler c
    → SameClose c (run c es)
unfolding run
final_close_stays handler c [] i h f = (refl, refl)
final_close_stays handler c (e ∷ es) i h f =
    let (installed, final, same) = step_final handler c e i.0 h f in
    let rest = final_close_stays handler (step c e) es i.1 installed final in
    (rest.0 ∙ same.0, rest.1 ∙ same.1)

-- Calls that leave the close open: for a stream or a raw socket, normal close requests too.
abbrev pub IsOpenEnded : CloseHandler → Event → Type 0
IsOpenEnded handler accepts = Unit
IsOpenEnded handler closes_for_good = Unit
IsOpenEnded handler stops = Unit
IsOpenEnded stream_handler (requests code reason raw_code) = is_normal code ≡ true
IsOpenEnded handler _ = ⊥

-- No abnormal close was asked for, and the client is there.
abbrev pub IsUndecided : CloseHandler → Connection → Type 0
IsUndecided rpc_handler c = (c.client_closed ≡ false) × (c.close_event ≡ false)
IsUndecided stream_handler c =
    (c.client_closed ≡ false) × ((c.close_event ≡ false) ⊎ (is_normal c.value_code ≡ true))
