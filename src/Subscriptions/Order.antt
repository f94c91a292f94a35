-- ===== src/Subscriptions/Order.antt =====
-- The order in which a session sends.
use pyrpckit.Prelude.{
  ==_iff, Bool, Bool-cases, List, Option, [], arith, false, if◌then◌else◌, inl, inr, none, not,
  refl, some, subst, sym, true, ℕ, ◌&&◌, ◌<◌, ◌==◌, ◌||◌, ◌∷◌, ◌≡◌, ◌≤◌,
}
use pyrpckit.Connection.Rejection.{RpcError}
use pyrpckit.Wire.Envelope.{RequestId}
use pyrpckit.Subscriptions.{
  Handshake, Notice, RunPoint, Sent, Session, SubscriptionTask, broken, cancel_task, complete,
  completing, drop_task, failing, find_task, iterating, left, notified, payload, refused, send,
  sending, subscribed, unsubscribed, update_task,
}
use pyrpckit.Subscriptions.Invariant.{count_handshakes, count_tasks}

abbrev pub is_terminal : Notice → Bool
is_terminal (payload value) = false
is_terminal complete = true
is_terminal (broken error) = true

-- The success response of subscription `n` was sent, and its terminal notification.
unfoldable pub started : ℕ → List Sent → Bool
started n [] = false
started n (subscribed request m ∷ log) = m == n || started n log
started n (unsubscribed request ∷ log) = started n log
started n (refused request error ∷ log) = started n log
started n (notified m notice ∷ log) = started n log

unfoldable pub finished : ℕ → List Sent → Bool
finished n [] = false
finished n (subscribed request m ∷ log) = finished n log
finished n (unsubscribed request ∷ log) = finished n log
finished n (refused request error ∷ log) = finished n log
finished n (notified m notice ∷ log) = m == n && is_terminal notice || finished n log

-- Each notification stands behind the response that names its subscription, and before that
-- subscription's terminal notification. The newest message comes first.
unfoldable pub ordered : List Sent → Bool
ordered [] = true
ordered (subscribed request m ∷ log) = ordered log
ordered (unsubscribed request ∷ log) = ordered log
ordered (refused request error ∷ log) = ordered log
ordered (notified m notice ∷ log) = started m log && not (finished m log) && ordered log

-- `_run` has nothing more to send.
abbrev pub has_left : RunPoint → Bool
has_left iterating = false
has_left completing = false
has_left left = true
has_left (sending value) = false
has_left (failing error) = false

pub record Told (next : ℕ) (hs : List Handshake) (ts : List SubscriptionTask) (log : List Sent)
    : Type 0 where
  pub told_start : (n : ℕ) (t : SubscriptionTask) → find_task n ts ≡ some t → started n log ≡ true
  pub still_open :
      (n : ℕ) (t : SubscriptionTask)
      → find_task n ts ≡ some t
      → has_left t.point ≡ false
      → finished n log ≡ false
  pub unheard : (n : ℕ) → 0 < count_handshakes n hs → finished n log ≡ false
  pub unborn : (n : ℕ) → next ≤ n → finished n log ≡ false
  pub in_order : ordered log ≡ true

abbrev pub IsTold : Session → Type 0
IsTold s = Told s.next_id s.handshakes s.tasks s.log

pub find_task-update :
    (n m : ℕ) (f : SubscriptionTask → SubscriptionTask) (ts : List SubscriptionTask)
    → ((t : SubscriptionTask) → (f t).number ≡ t.number)
    → find_task n (update_task m f ts)
      ≡ (elim (find_task n ts) [ none ↦ none | some t ↦ some (if m == n then f t else t) ])
unfolding find_task update_task
find_task-update n m f [] k = refl
find_task-update n m f (t ∷ ts) k = ground (arith, find_task-update n m f ts k, k t)

pub find_task-drop :
    (n m : ℕ) (ts : List SubscriptionTask)
    → find_task n (drop_task m ts) ≡ (if m == n then none else find_task n ts)
unfolding find_task drop_task
find_task-drop n m [] = ground arith
find_task-drop n m (t ∷ ts) = ground (arith, find_task-drop n m ts)

pub find_task-counted :
    (n : ℕ) (ts : List SubscriptionTask) (t : SubscriptionTask)
    → find_task n ts ≡ some t
    → 0 < count_tasks n ts
unfolding find_task count_tasks
find_task-counted n [] t h = cc
find_task-counted n (k ∷ ts) t h = ground (arith, find_task-counted n ts t)

pub refused-IsTold :
    (request : RequestId) (error : RpcError) (s : Session)
    → IsTold s
    → IsTold (send (refused request error) s)
unfolding send started finished ordered
refused-IsTold request error s v = record {
  told_start = v.told_start;
  still_open = v.still_open;
  unheard = v.unheard;
  unborn = v.unborn;
  in_order = v.in_order;
}

pub unsubscribed-IsTold :
    (request : RequestId) (s : Session) → IsTold s → IsTold (send (unsubscribed request) s)
unfolding send started finished ordered
unsubscribed-IsTold request s v = record {
  told_start = v.told_start;
  still_open = v.still_open;
  unheard = v.unheard;
  unborn = v.unborn;
  in_order = v.in_order;
}

-- Changing a task that is still where it was, or has left, tells nobody anything.
pub update-IsTold :
    (m : ℕ) (f : SubscriptionTask → SubscriptionTask) (s : Session)
    → ((t : SubscriptionTask) → (f t).number ≡ t.number)
    → ((t : SubscriptionTask)
        → find_task m s.tasks ≡ some t
        → has_left (f t).point ≡ false
        → has_left t.point ≡ false)
    → IsTold s
    → IsTold (record s { tasks = update_task m f s.tasks })
update-IsTold m f s same kept v = record {
  told_start = λ n t h. told n t (find_task n s.tasks) refl h;
  still_open = λ n t h. open_ n t (find_task n s.tasks) refl h;
  unheard = v.unheard;
  unborn = v.unborn;
  in_order = v.in_order;
}
  where
    told :
        (n : ℕ) (t : SubscriptionTask) (found : Option SubscriptionTask)
        → find_task n s.tasks ≡ found
        → find_task n (update_task m f s.tasks) ≡ some t
        → started n s.log ≡ true
    told n t none e h = ground (arith, find_task-update n m f s.tasks same)
    told n t (some k) e h = v.told_start n k e

    open_ :
        (n : ℕ) (t : SubscriptionTask) (found : Option SubscriptionTask)
        → find_task n s.tasks ≡ found
        → find_task n (update_task m f s.tasks) ≡ some t
        → has_left t.point ≡ false
        → finished n s.log ≡ false
    open_ n t none e h live = ground (arith, find_task-update n m f s.tasks same)
    open_ n t (some k) e h live = elim (Bool-cases (m == n)) [
      | inr apart ↦ v.still_open n k e (ground (arith, find_task-update n m f s.tasks same))
      | inl here ↦
          let at_m : find_task m s.tasks ≡ some k =
            subst (λ j. find_task j s.tasks ≡ some k) (sym ((==_iff m n).0 here)) e in
          let moved : f k ≡ t = ground (arith, find_task-update n m f s.tasks same) in
          v.still_open n k e (kept k at_m (subst (λ j. has_left j.point ≡ false) (sym moved) live))
    ]

-- Marking a task as cancelled does not move it.
pub cancel-IsTold :
    (m : ℕ) (s : Session)
    → IsTold s
    → IsTold (record s { tasks = update_task m cancel_task s.tasks })
cancel-IsTold m s v = update-IsTold m cancel_task s (λ t. refl) (λ t e l. l) v
