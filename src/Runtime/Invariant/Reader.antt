-- ===== src/Runtime/Invariant/Reader.antt =====
-- The bookkeeping under the reader.
use pyrpckit.Prelude.{
  Bool, Bool-cases, List, Option, Option-cases, String, [], arith, count, false, if◌then◌else◌, inl,
  inr, leb, length, ltb, none, not, some, true, ℕ, ◌&&◌, ◌++◌, ◌+◌, ◌==◌, ◌||◌, ◌∷◌, ◌≡◌,
}
use pyrpckit.Json.{Json, arr, bool, float, int, items, null, obj, str}
use pyrpckit.Connection.Close.{message_too_big, policy_violation, protocol_error}
use pyrpckit.Runtime.State.{Control, Loop, Work, close_loop, collectors_full, invokes, release}
use pyrpckit.Runtime.Control.{cancel_request, ping}
use pyrpckit.Runtime.Reader.{
  Frame, Library, Progress, add_call, add_collector, after_cancel, after_ping, bytes_frame, enqueue,
  finish_frame, frame_size, going, is_invalid, is_nil, is_taken, is_too_big, key_for, process_item,
  process_items, read_frame, read_message, read_text, receive, reservation_for, stopped, take_item,
  text_frame,
}
use pyrpckit.Runtime.Invariant.{Inv, if-Inv, running}
use pyrpckit.Runtime.Invariant.Calls.{running-le-claims}
use pyrpckit.Runtime.Invariant.Admission.{
  Offered, add_call-Inv, cancel_request-Inv, close_loop-Inv, release-Inv, reservation_for-Offered,
}
use pyrpckit.Client

abbrev Kept : ℕ → ℕ → Progress → Type 0
Kept P Q (going l is controls) = Inv P Q l
Kept P Q (stopped l) = Inv P Q l

module _ {P Q : ℕ} where
  enqueue_item-Inv :
      (item : Json) (invalid batch : Bool) (now : ℕ) (o : Option ℕ) (l : Loop) (is : List ℕ)
      (controls : List Control)
      → Offered P Q o l
      → Kept P Q (
          if is_taken (key_for invalid item) l
          then stopped
              (close_loop protocol_error "Duplicate in-flight request id" none (release o l))
          else going
              (add_call item invalid batch now (key_for invalid item) o l)
              (is ++ l.next ∷ [])
              controls)
  enqueue_item-Inv item invalid batch now o l is controls v =
      elim (Bool-cases (is_taken (key_for invalid item) l)) [
        | inl taken ↦
            rw taken
              (close_loop-Inv protocol_error _ none (release o l) (release-Inv o l v.0 (unheld v)))
        | inr free ↦ rw free (add_call-Inv item invalid batch now (key_for invalid item) o l v free)
      ]
    where
      unheld : Offered P Q o l → (r : ℕ) → o ≡ some r → count r (running l.calls) ≡ 0
      unheld w r e = omega (arith, (w.1 r e).1, running-le-claims r l.calls)

  enqueue-Inv :
      (item : Json) (invalid batch : Bool) (now : ℕ) (l : Loop) (is : List ℕ)
      (controls : List Control)
      → Inv P Q l
      → Kept P Q (enqueue item invalid batch now l is controls)
  unfolding enqueue
  enqueue-Inv item invalid batch now l is controls v =
      enqueue_item-Inv item invalid batch now (reservation_for invalid l).0
        (reservation_for invalid l).1 is controls (reservation_for-Offered invalid l v)

  add_collector-Inv : (work : Work) (l : Loop) → Inv P Q l → Inv P Q (add_collector work l)
  unfolding add_collector collectors_full
  add_collector-Inv work l v =
      elim (Bool-cases (leb (l.max_pending_requests + l.max_queue_size) (length l.collectors))) [
        | inl full ↦
            rw full (close_loop-Inv policy_violation _ none (record l { reading = false }) v)
        | inr room ↦ rw room (record {
          same_pending = v.same_pending;
          same_queue = v.same_queue;
          reserved = v.reserved;
          collected = ground (arith, room, v.same_pending, v.same_queue);
          unique = v.unique;
          fresh = λ n h. v.fresh n (omega arith);
          claimed_once = v.claimed_once;
          claims_fresh = λ n h. v.claims_fresh n (omega arith);
          backed = v.backed;
          keyed_once = v.keyed_once;
        })
      ]

  finish_frame-Inv : (batch : Bool) (p : Progress) → Kept P Q p → Inv P Q (finish_frame batch p)
  unfolding finish_frame
  finish_frame-Inv batch (stopped l) v = v
  finish_frame-Inv batch (going l is controls) v =
      if-Inv (is_nil is && is_nil controls) l _ v
        (add_collector-Inv (invokes is batch controls) l v)

module _ (lib : Library) {P Q : ℕ} where
  after_ping-Inv :
      (answer : Option (Option Control)) (full : Bool) (item : Json) (batch : Bool) (now : ℕ)
      (l : Loop) (is : List ℕ) (controls : List Control)
      → Inv P Q l
      → Kept P Q (after_ping lib answer full item batch now l is controls)
  unfolding after_ping take_item
  after_ping-Inv (some (some control)) full item batch now l is controls v = v
  after_ping-Inv (some none) full item batch now l is controls v = v
  after_ping-Inv none true item batch now l is controls v =
      close_loop-Inv policy_violation _ none l v
  after_ping-Inv none false item batch now l is controls v =
      enqueue-Inv item (is_invalid lib item) batch now l is controls v

  after_cancel-Inv :
      (taken : Bool) (l : Loop) (full : Bool) (item : Json) (batch : Bool) (now : ℕ) (is : List ℕ)
      (controls : List Control)
      → Inv P Q l
      → Kept P Q (after_cancel lib (taken, l) full item batch now is controls)
  unfolding after_cancel
  after_cancel-Inv true l full item batch now is controls v = v
  after_cancel-Inv false l full item batch now is controls v =
      after_ping-Inv (ping item) full item batch now l is controls v

  process_item-Inv :
      (full batch : Bool) (now : ℕ) (item : Json) (l : Loop) (is : List ℕ) (controls : List Control)
      → Inv P Q l
      → Kept P Q (process_item lib full batch now item l is controls)
  unfolding process_item
  process_item-Inv full batch now item l is controls v =
      elim (Bool-cases (Client.resolve lib.server_id item l.client).0) [
        | inl taken ↦ rw taken v
        | inr other ↦ rw other (
            after_cancel-Inv (cancel_request item l).0 (cancel_request item l).1 full item batch now
              is controls (cancel_request-Inv item l v))
      ]

  process_items-Inv :
      (full batch : Bool) (now : ℕ) (rest : List Json) (l : Loop) (is : List ℕ)
      (controls : List Control)
      → Inv P Q l
      → Kept P Q (process_items lib full batch now rest l is controls)
  unfolding process_items
  process_items-Inv full batch now [] l is controls v = v
  process_items-Inv full batch now (item ∷ rest) l is controls v =
      go (process_item lib full batch now item l is controls)
        (process_item-Inv full batch now item l is controls v)
        (λ l' is' controls' v'. process_items-Inv full batch now rest l' is' controls' v')
    where
      go :
          (p : Progress)
          → Kept P Q p
          → ((l' : Loop) (is' : List ℕ) (controls' : List Control)
              → Inv P Q l'
              → Kept P Q (process_items lib full batch now rest l' is' controls'))
          → Kept P Q (elim p [
            | stopped l' ↦ stopped l'
            | going l' items' controls' ↦ process_items lib full batch now rest l' items' controls'
          ])
      go (stopped l') w next = w
      go (going l' is' controls') w next = next l' is' controls' w

  read_message-Inv :
      (now : ℕ) (message : Json) (l : Loop) → Inv P Q l → Inv P Q (read_message lib now message l)
  unfolding read_message
  read_message-Inv now (arr vs) l v =
      if-Inv (length (items vs) == 0 || ltb l.max_batch_size (length (items vs))) _ _
        (add_collector-Inv _ l v)
        (finish_frame-Inv true _
          (process_items-Inv (collectors_full l) true now (items vs) l [] [] v))
  read_message-Inv now null l v =
      finish_frame-Inv false _
        (process_items-Inv (collectors_full l) false now (null ∷ []) l [] [] v)
  read_message-Inv now (bool b) l v =
      finish_frame-Inv false _
        (process_items-Inv (collectors_full l) false now (bool b ∷ []) l [] [] v)
  read_message-Inv now (int n) l v =
      finish_frame-Inv false _
        (process_items-Inv (collectors_full l) false now (int n ∷ []) l [] [] v)
  read_message-Inv now (float s) l v =
      finish_frame-Inv false _
        (process_items-Inv (collectors_full l) false now (float s ∷ []) l [] [] v)
  read_message-Inv now (str s) l v =
      finish_frame-Inv false _
        (process_items-Inv (collectors_full l) false now (str s ∷ []) l [] [] v)
  read_message-Inv now (obj fs) l v =
      finish_frame-Inv false _
        (process_items-Inv (collectors_full l) false now (obj fs ∷ []) l [] [] v)

  read_text-Inv :
      (now : ℕ) (frame : String) (l : Loop) → Inv P Q l → Inv P Q (read_text lib now frame l)
  unfolding read_text
  read_text-Inv now frame l v = elim (Option-cases (lib.loads frame)) [
    | inl failed ↦ rw (failed, read_text) (add_collector-Inv _ l v)
    | inr (message, decoded) ↦ rw (decoded, read_text) (read_message-Inv now message l v)
  ]

  read_frame-Inv :
      (now : ℕ) (frame : Frame) (l : Loop) → Inv P Q l → Inv P Q (read_frame lib now frame l)
  unfolding read_frame
  read_frame-Inv now (text_frame frame) l v = read_text-Inv now frame l v
  read_frame-Inv now (bytes_frame size none) l v = close_loop-Inv protocol_error _ none _ v
  read_frame-Inv now (bytes_frame size (some frame)) l v = read_text-Inv now frame l v

  pub receive-Inv :
      (now : ℕ) (frame : Frame) (l : Loop) → Inv P Q l → Inv P Q (receive lib now frame l)
  unfolding receive
  receive-Inv now frame l v = if-Inv (not l.reading) l _ v (
      if-Inv (is_too_big l.max_message_bytes (frame_size lib frame)) _ _
        (close_loop-Inv message_too_big "" none (record l { reading = false }) v)
        (read_frame-Inv now frame l v))
