-- ===== src/Streams/Fifo.antt =====
-- The items of a stream's input, from the socket to the handler.
use pyrpckit.Prelude.{
  Bool, Bool-cases, List, Option, Option-cases, [], ap, arith, false, inl, inr, length,
  length-append, ltb, none, refl, some, subst, sym, true, ℕ, ◌&&◌, ◌++◌, ◌∙◌, ◌∷◌, ◌≡◌, ◌≤◌,
}
use pyrpckit.Streams.{InputItem, Stream, accept_end, accept_frame, chunk, end_mark, put, resume_put}

module _ {B : Type 0} where
  -- The frames among the items of a queue.
  unfoldable pub chunks : List (InputItem B) → List B
  chunks [] = []
  chunks (chunk frame ∷ items) = frame ∷ chunks items
  chunks (end_mark ∷ items) = chunks items

  -- The items that were taken and not yet received: the queue, and the one that waits for room.
  abbrev pub pipeline : List (InputItem B) → Option (InputItem B) → List (InputItem B)
  pipeline queue none = queue
  pipeline queue (some item) = queue ++ item ∷ []

  -- Nothing stands behind the mark of the end.
  unfoldable pub end_is_last : List (InputItem B) → Bool
  end_is_last [] = true
  end_is_last (chunk frame ∷ items) = end_is_last items
  end_is_last (end_mark ∷ []) = true
  end_is_last (end_mark ∷ item ∷ items) = false

  unfoldable pub no_end : List (InputItem B) → Bool
  no_end [] = true
  no_end (chunk frame ∷ items) = no_end items
  no_end (end_mark ∷ items) = false

  chunks-append : (xs ys : List (InputItem B)) → chunks (xs ++ ys) ≡ chunks xs ++ chunks ys
  unfolding chunks
  chunks-append [] ys = refl
  chunks-append (chunk frame ∷ xs) ys = ap (λ l. frame ∷ l) (chunks-append xs ys)
  chunks-append (end_mark ∷ xs) ys = chunks-append xs ys

  pub append_assoc : (xs ys zs : List B) → (xs ++ ys) ++ zs ≡ xs ++ (ys ++ zs)
  append_assoc [] ys zs = refl
  append_assoc (x ∷ xs) ys zs = ap (λ l. x ∷ l) (append_assoc xs ys zs)

  no_end-append : (xs ys : List (InputItem B)) → no_end (xs ++ ys) ≡ (no_end xs && no_end ys)
  unfolding no_end
  no_end-append [] ys = refl
  no_end-append (chunk frame ∷ xs) ys = no_end-append xs ys
  no_end-append (end_mark ∷ xs) ys = refl

  end_is_last-append :
      (xs : List (InputItem B)) (y : InputItem B)
      → no_end xs ≡ true
      → end_is_last (xs ++ y ∷ []) ≡ true
  unfolding no_end end_is_last
  end_is_last-append [] (chunk frame) h = refl
  end_is_last-append [] end_mark h = refl
  end_is_last-append (chunk frame ∷ xs) y h = end_is_last-append xs y h
  end_is_last-append (end_mark ∷ xs) y h = cc

  pub record Fifo (max : ℕ) (blocked : Option (InputItem B)) (input_ended : Bool)
      (queue : List (InputItem B)) (ended : Bool) (accepted delivered : List B) : Type 0 where
    -- What was taken from the socket is what was delivered and what is on its way, in order.
    pub in_order : accepted ≡ delivered ++ chunks (pipeline queue blocked)
    pub bounded : length queue ≤ max
    pub last : end_is_last (pipeline queue blocked) ≡ true
    pub unended : input_ended ≡ false → no_end (pipeline queue blocked) ≡ true
    -- When the handler has seen the end, nothing is left.
    pub drained : ended ≡ true → pipeline queue blocked ≡ []
    pub ends : ended ≡ true → input_ended ≡ true

  abbrev pub IsFifo : Stream B → Type 0
  IsFifo s = Fifo s.max_queue_size s.blocked s.input_ended s.queue s.ended s.accepted s.delivered

  pub pipeline-cons :
      (item : InputItem B) (queue : List (InputItem B)) (blocked : Option (InputItem B))
      → pipeline (item ∷ queue) blocked ≡ item ∷ pipeline queue blocked
  pipeline-cons item queue none = refl
  pipeline-cons item queue (some other) = refl

  pub accept_frame-IsFifo :
      (frame : B) (s : Stream B)
      → s.input_ended ≡ false
      → s.blocked ≡ none
      → IsFifo s
      → IsFifo (accept_frame frame s)
  unfolding accept_frame put
  accept_frame-IsFifo frame s open_ free v =
      elim (Bool-cases (ltb (length s.queue) s.max_queue_size)) [
        | inl room ↦ rw room (record {
          in_order = rw free order;
          bounded = ground (arith, room, length-append s.queue (chunk frame ∷ []));
          last = rw free last_;
          unended = λ h. rw free pure;
          drained = λ h. absurd (ground (arith, v.ends h));
          ends = v.ends;
        })
        | inr full ↦ rw full (record {
          in_order = order;
          bounded = v.bounded;
          last = last_;
          unended = λ h. pure;
          drained = λ h. absurd (ground (arith, v.ends h));
          ends = v.ends;
        })
      ]
    where
      before : no_end s.queue ≡ true
      before = subst (λ b. no_end (pipeline s.queue b) ≡ true) free (v.unended open_)

      order : s.accepted ++ frame ∷ [] ≡ s.delivered ++ chunks (s.queue ++ chunk frame ∷ [])
      order =
          ap (λ l. l ++ frame ∷ [])
            (subst (λ b. s.accepted ≡ s.delivered ++ chunks (pipeline s.queue b)) free v.in_order)
          ∙ append_assoc s.delivered (chunks s.queue) (frame ∷ [])
          ∙ ap (λ l. s.delivered ++ l)
              (sym (unfold chunks in chunks-append s.queue (chunk frame ∷ [])))

      pure : no_end (s.queue ++ chunk frame ∷ []) ≡ true
      pure = unfold no_end in no_end-append s.queue (chunk frame ∷ []) ∙ ap (λ b. b && true) before

      last_ : end_is_last (s.queue ++ chunk frame ∷ []) ≡ true
      last_ = end_is_last-append s.queue (chunk frame) before

  pub accept_end-IsFifo :
      (s : Stream B) → s.input_ended ≡ false → s.blocked ≡ none → IsFifo s → IsFifo (accept_end s)
  unfolding accept_end put
  accept_end-IsFifo s open_ free v = elim (Bool-cases (ltb (length s.queue) s.max_queue_size)) [
    | inl room ↦ rw room (record {
      in_order = rw free order;
      bounded = ground (arith, room, length-append s.queue (end_mark ∷ []));
      last = rw free last_;
      unended = λ h. cc;
      drained = λ h. absurd (ground (arith, v.ends h));
      ends = λ h. refl;
    })
    | inr full ↦ rw full (record {
      in_order = order;
      bounded = v.bounded;
      last = last_;
      unended = λ h. cc;
      drained = λ h. absurd (ground (arith, v.ends h));
      ends = λ h. refl;
    })
  ]
    where
      before : no_end s.queue ≡ true
      before = subst (λ b. no_end (pipeline s.queue b) ≡ true) free (v.unended open_)

      nothing_more : (xs : List B) → xs ++ [] ≡ xs
      nothing_more [] = refl
      nothing_more (x ∷ xs) = ap (λ l. x ∷ l) (nothing_more xs)

      order : s.accepted ≡ s.delivered ++ chunks (s.queue ++ end_mark ∷ [])
      order =
          subst (λ b. s.accepted ≡ s.delivered ++ chunks (pipeline s.queue b)) free v.in_order
          ∙ ap (λ l. s.delivered ++ l)
              (sym (
                chunks-append s.queue (end_mark ∷ [])
                ∙ (unfold chunks in nothing_more (chunks s.queue))))

      last_ : end_is_last (s.queue ++ end_mark ∷ []) ≡ true
      last_ = end_is_last-append s.queue end_mark before

  pub resume_put-IsFifo : (s : Stream B) → IsFifo s → IsFifo (resume_put s)
  unfolding resume_put
  resume_put-IsFifo s v = elim (Option-cases s.blocked) [
    | inl free ↦ rw (free, resume_put) v
    | inr (item, waits) ↦ elim (Bool-cases (ltb (length s.queue) s.max_queue_size)) [
      | inr full ↦ rw (waits, resume_put) (rw full v)
      | inl room ↦
          rw (waits, resume_put)
            (rw room (record {
              in_order =
                  subst (λ b. s.accepted ≡ s.delivered ++ chunks (pipeline s.queue b)) waits
                    v.in_order;
              bounded = ground (arith, room, length-append s.queue (item ∷ []));
              last = subst (λ b. end_is_last (pipeline s.queue b) ≡ true) waits v.last;
              unended = λ h. subst (λ b. no_end (pipeline s.queue b) ≡ true) waits (v.unended h);
              drained = λ h. subst (λ b. pipeline s.queue b ≡ []) waits (v.drained h);
              ends = v.ends;
            }))
    ]
  ]
