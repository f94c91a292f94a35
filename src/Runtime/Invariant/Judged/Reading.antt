-- ===== src/Runtime/Invariant/Judged/Reading.antt =====
-- The judgement of calls under the reader.
use pyrpckit.Prelude.{
  Bool, Bool-cases, List, Option, Option-cases, String, [], false, if◌then◌else◌, inl, inr, length,
  ltb, none, not, some, true, ℕ, ◌&&◌, ◌++◌, ◌==◌, ◌||◌, ◌∷◌,
}
use pyrpckit.Json.{Json, arr, bool, float, int, items, null, obj, str}
use pyrpckit.Connection.Close.{message_too_big, policy_violation, protocol_error}
use pyrpckit.Runtime.State.{Control, Loop, Work, close_loop, collectors_full, invokes, release}
use pyrpckit.Runtime.Control.{cancel_request, ping}
use pyrpckit.Runtime.Reader.{
  Frame, Library, Progress, add_call, add_collector, after_cancel, after_ping, bytes_frame, enqueue,
  finish_frame, frame_size, going, is_invalid, is_nil, is_taken, is_too_big, key_for, process_item,
  process_items, read_frame, read_message, read_text, receive, reservation_for, stopped, take_item,
  text_frame,
}
use pyrpckit.Runtime.Invariant.Judged.{
  AreJudged, IsOffered, add_call-AreJudged, cancel_request-AreJudged, close_loop-AreJudged,
  if-AreJudged, release-AreJudged, reservation_for-IsOffered,
}
use pyrpckit.Client

module _ (lib : Library) (drained : Bool) (bound : ℕ → ℕ) where
  abbrev Kept : Progress → Type 0
  Kept (going l is controls) = AreJudged lib drained bound l
  Kept (stopped l) = AreJudged lib drained bound l

  add_collector-AreJudged :
      (work : Work) (l : Loop)
      → AreJudged lib drained bound l
      → AreJudged lib drained bound (add_collector work l)
  unfolding add_collector
  add_collector-AreJudged work l v =
      if-AreJudged lib drained bound (collectors_full l) _ _
        (close_loop-AreJudged lib drained bound policy_violation _ none
          (record l { reading = false }) v)
        v

  finish_frame-AreJudged :
      (batch : Bool) (p : Progress) → Kept p → AreJudged lib drained bound (finish_frame batch p)
  unfolding finish_frame
  finish_frame-AreJudged batch (stopped l) v = v
  finish_frame-AreJudged batch (going l is controls) v =
      if-AreJudged lib drained bound (is_nil is && is_nil controls) l _ v
        (add_collector-AreJudged (invokes is batch controls) l v)

  enqueue_item-AreJudged :
      (item : Json) (batch : Bool) (now : ℕ) (o : Option ℕ) (l : Loop) (is : List ℕ)
      (controls : List Control)
      → IsOffered lib drained bound o l
      → Kept (
          if is_taken (key_for (is_invalid lib item) item) l
          then stopped
              (close_loop protocol_error "Duplicate in-flight request id" none (release o l))
          else going
              (add_call item
                (is_invalid lib item)
                batch
                now
                (key_for (is_invalid lib item) item)
                o
                l)
              (is ++ l.next ∷ [])
              controls)
  enqueue_item-AreJudged item batch now o l is controls v =
      elim (Bool-cases (is_taken (key_for (is_invalid lib item) item) l)) [
        | inl taken ↦ rw taken (
            close_loop-AreJudged lib drained bound protocol_error _ none (release o l)
              (release-AreJudged lib drained bound o l v.0))
        | inr free ↦ rw free (
            add_call-AreJudged lib drained bound item batch now (key_for (is_invalid lib item) item)
              o l v)
      ]

  enqueue-AreJudged :
      (item : Json) (batch : Bool) (now : ℕ) (l : Loop) (is : List ℕ) (controls : List Control)
      → AreJudged lib drained bound l
      → Kept (enqueue item (is_invalid lib item) batch now l is controls)
  unfolding enqueue
  enqueue-AreJudged item batch now l is controls v =
      enqueue_item-AreJudged item batch now (reservation_for (is_invalid lib item) l).0
        (reservation_for (is_invalid lib item) l).1 is controls
        (reservation_for-IsOffered lib drained bound (is_invalid lib item) l v)

  after_ping-AreJudged :
      (answer : Option (Option Control)) (full : Bool) (item : Json) (batch : Bool) (now : ℕ)
      (l : Loop) (is : List ℕ) (controls : List Control)
      → AreJudged lib drained bound l
      → Kept (after_ping lib answer full item batch now l is controls)
  unfolding after_ping take_item
  after_ping-AreJudged (some (some control)) full item batch now l is controls v = v
  after_ping-AreJudged (some none) full item batch now l is controls v = v
  after_ping-AreJudged none true item batch now l is controls v =
      close_loop-AreJudged lib drained bound policy_violation _ none l v
  after_ping-AreJudged none false item batch now l is controls v =
      enqueue-AreJudged item batch now l is controls v

  after_cancel-AreJudged :
      (taken : Bool) (l : Loop) (full : Bool) (item : Json) (batch : Bool) (now : ℕ) (is : List ℕ)
      (controls : List Control)
      → AreJudged lib drained bound l
      → Kept (after_cancel lib (taken, l) full item batch now is controls)
  unfolding after_cancel
  after_cancel-AreJudged true l full item batch now is controls v = v
  after_cancel-AreJudged false l full item batch now is controls v =
      after_ping-AreJudged (ping item) full item batch now l is controls v

  process_item-AreJudged :
      (full batch : Bool) (now : ℕ) (item : Json) (l : Loop) (is : List ℕ) (controls : List Control)
      → AreJudged lib drained bound l
      → Kept (process_item lib full batch now item l is controls)
  unfolding process_item
  process_item-AreJudged full batch now item l is controls v =
      elim (Bool-cases (Client.resolve lib.server_id item l.client).0) [
        | inl taken ↦ rw taken v
        | inr other ↦ rw other (
            after_cancel-AreJudged (cancel_request item l).0 (cancel_request item l).1 full item
              batch now is controls (cancel_request-AreJudged lib drained bound item l v))
      ]

  process_items-AreJudged :
      (full batch : Bool) (now : ℕ) (rest : List Json) (l : Loop) (is : List ℕ)
      (controls : List Control)
      → AreJudged lib drained bound l
      → Kept (process_items lib full batch now rest l is controls)
  unfolding process_items
  process_items-AreJudged full batch now [] l is controls v = v
  process_items-AreJudged full batch now (item ∷ rest) l is controls v =
      go (process_item lib full batch now item l is controls)
        (process_item-AreJudged full batch now item l is controls v)
        (λ l' is' controls' v'. process_items-AreJudged full batch now rest l' is' controls' v')
    where
      go :
          (p : Progress)
          → Kept p
          → ((l' : Loop) (is' : List ℕ) (controls' : List Control)
              → AreJudged lib drained bound l'
              → Kept (process_items lib full batch now rest l' is' controls'))
          → Kept (elim p [
            | stopped l' ↦ stopped l'
            | going l' items' controls' ↦ process_items lib full batch now rest l' items' controls'
          ])
      go (stopped l') w next = w
      go (going l' is' controls') w next = next l' is' controls' w

  read_message-AreJudged :
      (now : ℕ) (message : Json) (l : Loop)
      → AreJudged lib drained bound l
      → AreJudged lib drained bound (read_message lib now message l)
  unfolding read_message
  read_message-AreJudged now (arr vs) l v =
      if-AreJudged lib drained bound
        (length (items vs) == 0 || ltb l.max_batch_size (length (items vs))) _ _
        (add_collector-AreJudged _ l v)
        (finish_frame-AreJudged true _
          (process_items-AreJudged (collectors_full l) true now (items vs) l [] [] v))
  read_message-AreJudged now null l v =
      finish_frame-AreJudged false _
        (process_items-AreJudged (collectors_full l) false now (null ∷ []) l [] [] v)
  read_message-AreJudged now (bool b) l v =
      finish_frame-AreJudged false _
        (process_items-AreJudged (collectors_full l) false now (bool b ∷ []) l [] [] v)
  read_message-AreJudged now (int n) l v =
      finish_frame-AreJudged false _
        (process_items-AreJudged (collectors_full l) false now (int n ∷ []) l [] [] v)
  read_message-AreJudged now (float s) l v =
      finish_frame-AreJudged false _
        (process_items-AreJudged (collectors_full l) false now (float s ∷ []) l [] [] v)
  read_message-AreJudged now (str s) l v =
      finish_frame-AreJudged false _
        (process_items-AreJudged (collectors_full l) false now (str s ∷ []) l [] [] v)
  read_message-AreJudged now (obj fs) l v =
      finish_frame-AreJudged false _
        (process_items-AreJudged (collectors_full l) false now (obj fs ∷ []) l [] [] v)

  read_text-AreJudged :
      (now : ℕ) (frame : String) (l : Loop)
      → AreJudged lib drained bound l
      → AreJudged lib drained bound (read_text lib now frame l)
  unfolding read_text
  read_text-AreJudged now frame l v = elim (Option-cases (lib.loads frame)) [
    | inl failed ↦ rw (failed, read_text) (add_collector-AreJudged _ l v)
    | inr (message, decoded) ↦ rw (decoded, read_text) (read_message-AreJudged now message l v)
  ]

  read_frame-AreJudged :
      (now : ℕ) (frame : Frame) (l : Loop)
      → AreJudged lib drained bound l
      → AreJudged lib drained bound (read_frame lib now frame l)
  unfolding read_frame
  read_frame-AreJudged now (text_frame frame) l v = read_text-AreJudged now frame l v
  read_frame-AreJudged now (bytes_frame size none) l v =
      close_loop-AreJudged lib drained bound protocol_error _ none _ v
  read_frame-AreJudged now (bytes_frame size (some frame)) l v = read_text-AreJudged now frame l v

  pub receive-AreJudged :
      (now : ℕ) (frame : Frame) (l : Loop)
      → AreJudged lib drained bound l
      → AreJudged lib drained bound (receive lib now frame l)
  unfolding receive
  receive-AreJudged now frame l v = if-AreJudged lib drained bound (not l.reading) l _ v (
      if-AreJudged lib drained bound (is_too_big l.max_message_bytes (frame_size lib frame)) _ _
        (close_loop-AreJudged lib drained bound message_too_big "" none
          (record l { reading = false }) v)
        (read_frame-AreJudged now frame l v))
