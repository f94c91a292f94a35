-- ===== src/Sockets/Tests.antt =====
-- Runs and witnesses of the theorems on failures and raw sockets. A binary message is a number, its
-- length.
use pyrpckit.Prelude.{List, Option, [], false, none, refl, some, true, ℕ, ◌∷◌, ◌≡◌}
use pyrpckit.Connection.Close.{forbidden, normal, protocol_error}
use pyrpckit.Connection.Rejection.{Exception, Rejections, disconnected, plain, table}
use pyrpckit.Connection.Life.{create, request_close}
use pyrpckit.Sockets.{Failure, cons, group, nil, single}
use pyrpckit.Sockets.Raw.{
  RawEvent, RawMessage, RawSocket, asks, binary_message, declared, handler_receives, handler_sends,
  is_closed, is_idle, message_arrives, open_socket, put, put_resumes, raw_run, raw_step, read_raw,
  receive_raw, resume_put, send_raw, sent_as, taken, text_message,
}
use pyrpckit.Sockets.Raw.Declared.{IsRelayed, raw_run-IsRelayed}

abbrev gone_client : Exception
gone_client = record {
  mro = 1 ∷ [];
  text = "";
  kind = disconnected (record { code = normal; reason = ""; raw_close_code = none });
}

abbrev failed_upstream : Exception
failed_upstream = record { mro = 2 ∷ []; text = "not yours"; kind = plain }

abbrev rejected_ones : Option Rejections
rejected_ones = some (table ((2, forbidden) ∷ []))

-- The disconnect of the client and the failure of an upstream, each in its own group.
abbrev nested : Failure
nested = group (
    cons (group (cons (single gone_client) nil))
      (cons (group (cons (single failed_upstream) (cons (single gone_client) nil))) nil))

abbrev message_size : RawMessage ℕ → ℕ
message_size (text_message t) = 4
message_size (binary_message n) = n

-- A socket for binary messages of at most 100 bytes, with a queue for one.
abbrev opened : RawSocket ℕ
opened = open_socket false true (some 100) 1 create

abbrev raw_script : List (RawEvent ℕ)
raw_script =
    message_arrives (binary_message 5)
    ∷ message_arrives (binary_message 7)
    ∷ handler_receives
    ∷ put_resumes
    ∷ handler_sends (binary_message 9) taken
    ∷ handler_sends (text_message "no") taken
    ∷ handler_receives
    ∷ message_arrives (text_message "ping")
    ∷ []

raw_script_relays :
    ((raw_run message_size opened raw_script).received ≡ binary_message 5 ∷ binary_message 7 ∷ [])
    × (((raw_run message_size opened raw_script).sent ≡ binary_message 9 ∷ [])
        × ((raw_run message_size opened raw_script).connection.close_code ≡ some protocol_error))
unfolding raw_run raw_step open_socket read_raw declared put receive_raw resume_put is_idle send_raw
    is_closed sent_as asks request_close create
raw_script_relays = (refl, (refl, refl))

raw_run-IsRelayed_example : IsRelayed message_size (raw_run message_size opened raw_script)
raw_run-IsRelayed_example = raw_run-IsRelayed message_size false true (some 100) 1 create raw_script
