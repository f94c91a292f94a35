-- ===== src/Streams/Tests.antt =====
-- Runs and witnesses of the theorems on streams. A frame is a number, its length.
use pyrpckit.Prelude.{Bool, List, String, [], none, refl, some, str_eq, true, ℕ, ◌∷◌, ◌≡◌}
use pyrpckit.Connection.Close.{policy_violation}
use pyrpckit.Connection.Life.{create}
use pyrpckit.Streams.{
  Stream, StreamEvent, accept_end, accept_frame, binary, close_requested, frame_arrives,
  handler_receives, handler_sends, open_stream, put, put_resumes, read_stream, receive_input,
  resume_put, stream_run, stream_step, take_frame, text,
}
use pyrpckit.Streams.Fifo.{IsFifo}
use pyrpckit.Streams.Delivery.{stream_run-IsFifo}

abbrev frame_size : ℕ → ℕ
frame_size n = n

abbrev text_size : String → ℕ
text_size t = 14

abbrev is_end_text : String → Bool
is_end_text t = str_eq t "end"

-- Two frames and the end, through a queue for one item.
abbrev script : List (StreamEvent ℕ)
script =
    frame_arrives (binary 5)
    ∷ frame_arrives (binary 7)
    ∷ handler_receives
    ∷ put_resumes
    ∷ handler_receives
    ∷ frame_arrives (text "end")
    ∷ handler_receives
    ∷ []

abbrev finished : Stream ℕ
finished = stream_run frame_size text_size is_end_text (open_stream true (some 100) 1 create) script

finished_delivered : finished.delivered ≡ 5 ∷ 7 ∷ []
unfolding stream_run stream_step open_stream read_stream take_frame accept_frame accept_end put
    resume_put receive_input
finished_delivered = refl

stream_run-IsFifo_example : IsFifo finished
stream_run-IsFifo_example =
    stream_run-IsFifo frame_size text_size is_end_text true (some 100) 1 create script

abbrev closing : Stream ℕ
closing =
    stream_run frame_size text_size is_end_text (open_stream true none 1 create)
      (handler_sends 3 ∷ close_requested policy_violation "late" ∷ [])
