-- ===== src/Streams/Delivery.antt =====
-- What the handler receives of a stream's input.
use pyrpckit.Prelude.{
  Bool, Bool-cases, List, Option, Option-cases, String, [], ap, append_assoc, arith, false,
  if◌then◌else◌, inl, inr, length, none, not, refl, some, subst, sym, true, ℕ, ◌++◌, ◌||◌, ◌∙◌, ◌∷◌,
  ◌≡◌, ◌≤◌, ◌⊎◌,
}
use pyrpckit.Connection.Life.{Connection}
use pyrpckit.Streams.{
  InputItem, Stream, StreamEvent, StreamFrame, binary, chunk, close_requested, connection_closes,
  end_mark, frame_arrives, handler_receives, handler_sends, is_waiting, open_stream,
  peer_disconnects, put_resumes, read_stream, receive_input, send_output, stop_reading, stream_run,
  stream_step, take_frame, text,
}
use pyrpckit.Streams.Fifo.{
  IsFifo, accept_end-IsFifo, accept_frame-IsFifo, chunks, end_is_last, no_end, pipeline,
  pipeline-cons, resume_put-IsFifo,
}

module _ {B : Type 0} where
  end_stands_alone :
      (items : List (InputItem B)) → end_is_last (end_mark ∷ items) ≡ true → items ≡ []
  unfolding end_is_last
  end_stands_alone [] h = refl
  end_stands_alone (item ∷ items) h = cc

  receive_item-IsFifo :
      (s : Stream B) (queue : List (InputItem B))
      → s.ended ≡ false
      → s.queue ≡ queue
      → IsFifo s
      → IsFifo (elim queue [
        | [] ↦ s
        | chunk frame ∷ rest ↦ record s { queue = rest; delivered = s.delivered ++ frame ∷ [] }
        | end_mark ∷ rest ↦ record s { queue = rest; ended = true }
      ])
  receive_item-IsFifo s [] open_ e v = v
  receive_item-IsFifo s (chunk frame ∷ rest) open_ e v =
      let split : pipeline s.queue s.blocked ≡ chunk frame ∷ pipeline rest s.blocked =
        ap (λ q. pipeline q s.blocked) e ∙ pipeline-cons (chunk frame) rest s.blocked in
      record {
        in_order =
            subst (λ p. s.accepted ≡ s.delivered ++ chunks p) split v.in_order
            ∙ (unfold chunks in
                sym (append_assoc s.delivered (frame ∷ []) (chunks (pipeline rest s.blocked))));
        bounded = ground (arith, subst (λ q. length q ≤ s.max_queue_size) e v.bounded);
        last = unfold end_is_last in subst (λ p. end_is_last p ≡ true) split v.last;
        unended = λ h. unfold no_end in subst (λ p. no_end p ≡ true) split (v.unended h);
        drained = λ h. absurd (ground arith);
        ends = v.ends;
      }
  receive_item-IsFifo s (end_mark ∷ rest) open_ e v =
      let split : pipeline s.queue s.blocked ≡ end_mark ∷ pipeline rest s.blocked =
        ap (λ q. pipeline q s.blocked) e ∙ pipeline-cons end_mark rest s.blocked in
      let alone : pipeline rest s.blocked ≡ [] =
        end_stands_alone (pipeline rest s.blocked)
          (subst (λ p. end_is_last p ≡ true) split v.last) in
      record {
        in_order =
            unfold chunks in subst (λ p. s.accepted ≡ s.delivered ++ chunks p) split v.in_order;
        bounded = ground (arith, subst (λ q. length q ≤ s.max_queue_size) e v.bounded);
        last = unfold end_is_last in rw alone refl;
        unended = λ h. unfold no_end in rw alone refl;
        drained = λ h. alone;
        ends = λ h. elim (Bool-cases s.input_ended) [
          | inl over ↦ over
          | inr more ↦
              absurd (
                unfold no_end in
                ground (arith, subst (λ p. no_end p ≡ true) split (v.unended more)))
        ];
      }

  guarded :
      (b : Bool) (x y : Stream B) → IsFifo x → (b ≡ false → IsFifo y) → IsFifo (if b then x else y)
  guarded true x y hx hy = hx
  guarded false x y hx hy = hy refl

  receive_input-IsFifo : (s : Stream B) → IsFifo s → IsFifo (receive_input s)
  unfolding receive_input
  receive_input-IsFifo s v =
      guarded s.ended s _ v (λ open_. receive_item-IsFifo s s.queue open_ refl v)

  send_output-IsFifo : (frame : B) (s : Stream B) → IsFifo s → IsFifo (send_output frame s)
  unfolding send_output
  send_output-IsFifo frame s v = guarded _ s _ v (λ open_. v)

  open_stream-IsFifo :
      (has_input : Bool) (bytes : Option ℕ) (queue_size : ℕ) (connection : Connection)
      → IsFifo {B = B} (open_stream has_input bytes queue_size connection)
  unfolding open_stream chunks end_is_last no_end
  open_stream-IsFifo has_input bytes queue_size connection = record {
    in_order = refl;
    bounded = omega arith;
    last = refl;
    unended = λ h. refl;
    drained = λ h. refl;
    ends = λ h. cc;
  }

module _ {B : Type 0} (size : B → ℕ) (encoded_length : String → ℕ)
    (is_input_end : String → Bool) where
  take_frame-IsFifo :
      (frame : StreamFrame B) (s : Stream B)
      → s.blocked ≡ none
      → IsFifo s
      → IsFifo (take_frame size encoded_length is_input_end frame s)
  unfolding take_frame stop_reading
  take_frame-IsFifo (text t) s free v =
      guarded (s.input_ended || not (is_input_end t)) _ _ v
        (λ open_. accept_end-IsFifo s (ground arith) free v)
  take_frame-IsFifo (binary frame) s free v =
      guarded s.input_ended _ _ v (λ open_. accept_frame-IsFifo frame s open_ free v)

  read_stream-IsFifo :
      (frame : StreamFrame B) (s : Stream B)
      → IsFifo s
      → IsFifo (read_stream size encoded_length is_input_end frame s)
  unfolding read_stream stop_reading
  read_stream-IsFifo frame s v = guarded _ s _ v (λ open_.
      guarded (not s.has_input) _ _ v (λ two_way.
        guarded _ _ _ v
          (λ fits. take_frame-IsFifo frame s (free (Option-cases s.blocked) open_) v)))
    where
      free :
          (s.blocked ≡ none) ⊎ ((item : InputItem B) × (s.blocked ≡ some item))
          → (not s.reading || is_waiting s.blocked) ≡ false
          → s.blocked ≡ none
      free (inl e) h = e
      free (inr (item, e)) h = absurd (ground arith)

  stream_step-IsFifo :
      (s : Stream B) (e : StreamEvent B)
      → IsFifo s
      → IsFifo (stream_step size encoded_length is_input_end s e)
  unfolding stream_step
  stream_step-IsFifo s (frame_arrives frame) v = read_stream-IsFifo frame s v
  stream_step-IsFifo s put_resumes v = resume_put-IsFifo s v
  stream_step-IsFifo s handler_receives v = receive_input-IsFifo s v
  stream_step-IsFifo s connection_closes v = v
  stream_step-IsFifo s (handler_sends frame) v = send_output-IsFifo frame s v
  stream_step-IsFifo s (close_requested code reason) v = v
  stream_step-IsFifo s (peer_disconnects by_reader error) v = v

  run_keeps :
      (s : Stream B) (es : List (StreamEvent B))
      → IsFifo s
      → IsFifo (stream_run size encoded_length is_input_end s es)
  unfolding stream_run
  run_keeps s [] v = v
  run_keeps s (e ∷ es) v =
      run_keeps (stream_step size encoded_length is_input_end s e) es (stream_step-IsFifo s e v)

  -- Whatever frames arrive and however the handler reads: the frames that the reader took from the
  -- socket are those that the handler received followed by those on their way, in the same order;
  -- the queue holds `max_queue_size` items at most; nothing stands behind the mark of the end; and
  -- when the handler sees the end of its input, nothing is left behind it.
  pub stream_run-IsFifo :
      (has_input : Bool) (bytes : Option ℕ) (queue_size : ℕ) (connection : Connection)
      (es : List (StreamEvent B))
      → IsFifo (
          stream_run size encoded_length is_input_end
            (open_stream has_input bytes queue_size connection)
            es)
  stream_run-IsFifo has_input bytes queue_size connection es =
      run_keeps (open_stream has_input bytes queue_size connection) es
        (open_stream-IsFifo has_input bytes queue_size connection)

  -- Once the handler sees the end of its input, it has received every frame that the reader took from
  -- the socket, in order, and the client had ended its input.
  pub ended_input_is_complete :
      (has_input : Bool) (bytes : Option ℕ) (queue_size : ℕ) (connection : Connection)
      (es : List (StreamEvent B))
      → let s =
          stream_run size encoded_length is_input_end
            (open_stream has_input bytes queue_size connection)
            es in
        s.ended ≡ true → (s.delivered ≡ s.accepted) × (s.input_ended ≡ true)
  unfolding chunks
  ended_input_is_complete has_input bytes queue_size connection es h =
      let s =
        stream_run size encoded_length is_input_end
          (open_stream has_input bytes queue_size connection) es in
      let v = stream_run-IsFifo has_input bytes queue_size connection es in
      let order : s.accepted ≡ s.delivered ++ [] =
        subst (λ p. s.accepted ≡ s.delivered ++ chunks p) (v.drained h) v.in_order in
      (sym (order ∙ whole s.delivered), v.ends h)
    where
      whole : (xs : List B) → xs ++ [] ≡ xs
      whole [] = refl
      whole (x ∷ xs) = ap (λ l. x ∷ l) (whole xs)
