-- ===== src/Streams/Output.antt =====
-- The output of a stream on a connection that is closing (`RpcBinaryOutput.send`).
use pyrpckit.Prelude.{
  Bool, List, String, [], arith, if◌then◌else◌, refl, true, ℕ, ◌++◌, ◌||◌, ◌∙◌, ◌∷◌, ◌≡◌,
}
use pyrpckit.Connection.Life.{client_disconnected, mark_closed, request_close}
use pyrpckit.Streams.{
  InputItem, Stream, StreamEvent, accept_end, accept_frame, binary, chunk, close_requested,
  connection_closes, end_mark, frame_arrives, handler_receives, handler_sends, is_waiting,
  peer_disconnects, put, put_resumes, read_stream, receive_input, resume_put, send_output,
  stop_reading, stream_run, stream_step, take_frame, text,
}

module _ {B : Type 0} (size : B → ℕ) (encoded_length : String → ℕ)
    (is_input_end : String → Bool) where
  abbrev pub IsClosing : Stream B → Type 0
  IsClosing s = (s.connection.closed || is_waiting s.connection.close_code) ≡ true

  step_silent :
      (s : Stream B) (e : StreamEvent B)
      → IsClosing s
      → let t = stream_step size encoded_length is_input_end s e in (t.sent ≡ s.sent) × IsClosing t
  unfolding stream_step read_stream take_frame stop_reading accept_end accept_frame put resume_put
      receive_input send_output mark_closed request_close client_disconnected
  step_silent s (frame_arrives (text t)) h = ground arith
  step_silent s (frame_arrives (binary frame)) h = ground arith
  step_silent s put_resumes h = ground arith
  step_silent s handler_receives h = go s.queue
    where
      go :
          (q : List (InputItem B))
          → let t = if s.ended then s else (elim q [
            | [] ↦ s
            | chunk frame ∷ rest ↦ record s { queue = rest; delivered = s.delivered ++ frame ∷ [] }
            | end_mark ∷ rest ↦ record s { queue = rest; ended = true }
          ]) in
            (t.sent ≡ s.sent) × IsClosing t
      go [] = ground arith
      go (chunk frame ∷ rest) = ground arith
      go (end_mark ∷ rest) = ground arith
  step_silent s connection_closes h = ground arith
  step_silent s (handler_sends frame) h = ground arith
  step_silent s (close_requested code reason) h = ground arith
  step_silent s (peer_disconnects by_reader error) h = ground arith

  -- Once the connection is closed or has a close code, the handler's output sends nothing more,
  -- whatever happens.
  pub closing_output_is_silent :
      (s : Stream B) (es : List (StreamEvent B))
      → IsClosing s
      → (stream_run size encoded_length is_input_end s es).sent ≡ s.sent
  unfolding stream_run
  closing_output_is_silent s [] h = refl
  closing_output_is_silent s (e ∷ es) h =
      let (same, closing) = step_silent s e h in
      closing_output_is_silent (stream_step size encoded_length is_input_end s e) es closing ∙ same
