-- ===== src/Sockets/Raw/Declared.antt =====
-- What passes through a raw socket.
use pyrpckit.Prelude.{
  Bool, Bool-cases, List, Option, Option-cases, String, [], all, ap, append-nil, append_assoc,
  arith, false, if◌then◌else◌, inl, inr, length, ltb, none, not, refl, some, sym, true, ℕ, ◌&&◌,
  ◌++◌, ◌+◌, ◌==◌, ◌||◌, ◌∙◌, ◌∷◌, ◌≡◌, ◌≤◌, ◌⊎◌,
}
use pyrpckit.Connection.Close.{ConnectionClose}
use pyrpckit.Sockets.Raw.{
  RawEvent, RawMessage, RawSocket, SendOutcome, asks, declared, gone, handler_ends,
  handler_receives, handler_sends, is_closed, is_idle, message_arrives, open_socket, put,
  put_resumes, raw_run, raw_step, read_raw, reader_disconnects, reader_fails, receive_raw,
  resume_put, send_raw, sent_as, taken, timed_out, too_big,
}
use pyrpckit.Connection.Life.{Connection}

module _ {B : Type 0} (size : RawMessage B → ℕ) where
  -- A message that the endpoint declares and its limit admits.
  unfoldable pub passes : Bool → Bool → Option ℕ → RawMessage B → Bool
  passes takes_text takes_binary limit m =
      declared takes_text takes_binary m && not (too_big limit (size m))

  abbrev pub waiting : Option (RawMessage B) → List (RawMessage B)
  waiting none = []
  waiting (some m) = m ∷ []

  -- The reader takes only messages that pass, the handler gets them in their order, the queue is
  -- bounded, and only declared messages are sent.
  pub record IsRelayed (s : RawSocket B) : Type 0 where
    pub in_order : s.accepted ≡ s.received ++ (s.queue ++ waiting s.blocked)
    pub bounded : (s.max_queue_size ≡ 0) ⊎ (length s.queue ≤ s.max_queue_size)
    pub admitted : all (passes s.takes_text s.takes_binary s.max_message_bytes) s.accepted ≡ true
    pub sends : all (declared s.takes_text s.takes_binary) s.sent ≡ true

  -- What the connection and the reader do apart from the messages.
  same_traffic :
      (s : RawSocket B) (connection : Connection) (reading : Bool)
      → IsRelayed s
      → IsRelayed (record s { connection = connection; reading = reading })
  same_traffic s connection reading v = record {
    in_order = v.in_order;
    bounded = v.bounded;
    admitted = v.admitted;
    sends = v.sends;
  }

  guarded :
      (b : Bool) (x y : RawSocket B)
      → (b ≡ true → IsRelayed x)
      → (b ≡ false → IsRelayed y)
      → IsRelayed (if b then x else y)
  guarded true x y hx hy = hx refl
  guarded false x y hx hy = hy refl

  all-append :
      (test : RawMessage B → Bool) (xs : List (RawMessage B)) (m : RawMessage B)
      → all test xs ≡ true
      → test m ≡ true
      → all test (xs ++ m ∷ []) ≡ true
  all-append test [] m h e = rw e refl
  all-append test (x ∷ xs) m h e = ground (arith, h, e, all-append test xs m)

  length-snoc :
      (xs : List (RawMessage B)) (m : RawMessage B) → length (xs ++ m ∷ []) ≡ length xs + 1
  length-snoc [] m = refl
  length-snoc (x ∷ xs) m = ground (arith, length-snoc xs m)

  room_left :
      (size : ℕ) (queue : List (RawMessage B)) (m : RawMessage B)
      → (size == 0 || ltb (length queue) size) ≡ true
      → (size ≡ 0) ⊎ (length (queue ++ m ∷ []) ≤ size)
  room_left size queue m room = elim (Bool-cases (size == 0)) [
    | inl unbounded ↦ inl (ground arith)
    | inr limited ↦ inr (ground (arith, length-snoc queue m))
  ]

  -- `put`, where the message is the last one that was accepted and not yet queued.
  put-IsRelayed :
      (m : RawMessage B) (s : RawSocket B)
      → s.accepted ≡ s.received ++ (s.queue ++ m ∷ [])
      → (s.max_queue_size ≡ 0) ⊎ (length s.queue ≤ s.max_queue_size)
      → all (passes s.takes_text s.takes_binary s.max_message_bytes) s.accepted ≡ true
      → all (declared s.takes_text s.takes_binary) s.sent ≡ true
      → IsRelayed (put m s)
  unfolding put
  put-IsRelayed m s in_order bounded admitted sends =
      guarded (s.max_queue_size == 0 || ltb (length s.queue) s.max_queue_size) _ _
        (λ room. record {
          in_order = in_order ∙ ap (λ q. s.received ++ q) (sym (append-nil (s.queue ++ m ∷ [])));
          bounded = room_left (s.max_queue_size) s.queue m room;
          admitted = admitted;
          sends = sends;
        })
        (λ full. record {
          in_order = in_order;
          bounded = bounded;
          admitted = admitted;
          sends = sends;
        })

  asks-IsRelayed :
      (code : ConnectionClose) (reason : String) (s : RawSocket B)
      → IsRelayed s
      → IsRelayed (asks code reason s)
  unfolding asks
  asks-IsRelayed code reason s v = same_traffic s _ _ v

  all_queued :
      (s : RawSocket B)
      → s.blocked ≡ none
      → s.received ++ (s.queue ++ waiting s.blocked) ≡ s.received ++ s.queue
  all_queued s free = rw free (ap (λ q. s.received ++ q) (append-nil s.queue))

  snoc :
      (accepted received queue : List (RawMessage B)) (m : RawMessage B)
      → accepted ≡ received ++ queue
      → accepted ++ m ∷ [] ≡ received ++ (queue ++ m ∷ [])
  snoc accepted received queue m e = rw e (append_assoc received queue (m ∷ []))

  read_raw-IsRelayed :
      (m : RawMessage B) (s : RawSocket B)
      → s.blocked ≡ none
      → IsRelayed s
      → IsRelayed (read_raw size m s)
  unfolding read_raw asks passes
  read_raw-IsRelayed m s free v =
      guarded (too_big s.max_message_bytes (size m)) _ _ (λ big. same_traffic s _ _ v)
        (λ fits.
          guarded (not (declared s.takes_text s.takes_binary m)) _ _ (λ other. same_traffic s _ _ v)
            (λ known.
              put-IsRelayed m (record s { accepted = s.accepted ++ m ∷ [] })
                (snoc s.accepted s.received s.queue m (v.in_order ∙ all_queued s free)) v.bounded
                (all-append (passes s.takes_text s.takes_binary s.max_message_bytes) s.accepted m
                  v.admitted (unfold passes in ground (arith, fits, known)))
                v.sends))

  receive_queue-IsRelayed :
      (s : RawSocket B) (queue : List (RawMessage B))
      → s.queue ≡ queue
      → IsRelayed s
      → IsRelayed (elim queue [
        | [] ↦ s
        | m ∷ rest ↦ record s { queue = rest; received = s.received ++ m ∷ [] }
      ])
  receive_queue-IsRelayed s [] e v = v
  receive_queue-IsRelayed s (m ∷ rest) e v = record {
    in_order =
        v.in_order ∙ (rw e (sym (append_assoc s.received (m ∷ []) (rest ++ waiting s.blocked))));
    bounded = elim v.bounded [
      | inl unbounded ↦ inl unbounded
      | inr room ↦ inr (ground (arith, e, room))
    ];
    admitted = v.admitted;
    sends = v.sends;
  }

  receive_raw-IsRelayed : (s : RawSocket B) → IsRelayed s → IsRelayed (receive_raw s)
  unfolding receive_raw
  receive_raw-IsRelayed s v = receive_queue-IsRelayed s s.queue refl v

  sent_as-IsRelayed :
      (m : RawMessage B) (outcome : SendOutcome) (s : RawSocket B)
      → declared s.takes_text s.takes_binary m ≡ true
      → IsRelayed s
      → IsRelayed (sent_as outcome m s)
  unfolding sent_as
  sent_as-IsRelayed m taken s known v = record {
    in_order = v.in_order;
    bounded = v.bounded;
    admitted = v.admitted;
    sends = all-append _ s.sent m v.sends known;
  }
  sent_as-IsRelayed m timed_out s known v = asks-IsRelayed _ _ s v
  sent_as-IsRelayed m (gone error) s known v = same_traffic s _ _ v

  idle-free : (s : RawSocket B) → is_idle s ≡ true → s.blocked ≡ none
  unfolding is_idle
  idle-free s idle = elim (Option-cases s.blocked) [
    | inl free ↦ free
    | inr (m, e) ↦ absurd (ground arith)
  ]

  resume_put-IsRelayed :
      (s : RawSocket B) (blocked : Option (RawMessage B))
      → s.blocked ≡ blocked
      → IsRelayed s
      → IsRelayed (elim blocked [ none ↦ s | some m ↦ put m s ])
  resume_put-IsRelayed s none e v = v
  resume_put-IsRelayed s (some m) e v =
      put-IsRelayed m s (v.in_order ∙ rw e refl) v.bounded v.admitted v.sends

  send_raw-IsRelayed :
      (m : RawMessage B) (outcome : SendOutcome) (s : RawSocket B)
      → IsRelayed s
      → IsRelayed (send_raw m outcome s)
  unfolding send_raw
  send_raw-IsRelayed m outcome s v =
      guarded (not (declared s.takes_text s.takes_binary m)) s _ (λ other. v)
        (λ known.
          guarded (is_closed s) s _ (λ over. v)
            (λ open_. sent_as-IsRelayed m outcome s (ground arith) v))

  pub raw_step-IsRelayed :
      (s : RawSocket B) (e : RawEvent B) → IsRelayed s → IsRelayed (raw_step size s e)
  unfolding raw_step resume_put
  raw_step-IsRelayed s (message_arrives m) v =
      guarded (is_idle s) _ s (λ idle. read_raw-IsRelayed m s (idle-free s idle) v) (λ busy. v)
  raw_step-IsRelayed s put_resumes v =
      guarded s.reading _ s (λ going. resume_put-IsRelayed s s.blocked refl v) (λ over. v)
  raw_step-IsRelayed s handler_receives v = receive_raw-IsRelayed s v
  raw_step-IsRelayed s reader_fails v =
      guarded (is_idle s) _ s (λ idle. unfold asks in same_traffic s _ _ v) (λ busy. v)
  raw_step-IsRelayed s (handler_sends m outcome) v = send_raw-IsRelayed m outcome s v
  raw_step-IsRelayed s (reader_disconnects error) v =
      guarded (is_idle s) _ s (λ idle. same_traffic s _ _ v) (λ busy. v)
  raw_step-IsRelayed s (handler_ends (code, reason)) v = asks-IsRelayed code reason s v

  keeps_relaying :
      (s : RawSocket B) (es : List (RawEvent B)) → IsRelayed s → IsRelayed (raw_run size s es)
  unfolding raw_run
  keeps_relaying s [] v = v
  keeps_relaying s (e ∷ es) v = keeps_relaying (raw_step size s e) es (raw_step-IsRelayed s e v)

  -- Whatever messages arrive, and however the handler reads, sends and ends: the messages that the
  -- reader took are those that the handler got followed by those on their way, in order; all of
  -- them are declared and within the limit, the queue is bounded, and only declared messages are
  -- sent.
  pub raw_run-IsRelayed :
      (takes_text takes_binary : Bool) (limit : Option ℕ) (queue_size : ℕ) (connection : Connection)
      (es : List (RawEvent B))
      → IsRelayed
          (raw_run size (open_socket takes_text takes_binary limit queue_size connection) es)
  raw_run-IsRelayed takes_text takes_binary limit queue_size connection es =
      keeps_relaying (open_socket takes_text takes_binary limit queue_size connection) es (
        unfold open_socket in
        record { in_order = refl; bounded = inr (omega arith); admitted = refl; sends = refl })
