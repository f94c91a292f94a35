-- ===== src/Subscriptions/Steps.antt =====
-- The order of messages under handshakes, notifications and ends of tasks.
use pyrpckit.Prelude.{
  ==_iff, Bool-cases, Option, Option-cases, arith, false, inl, inr, none, refl, some, subst, sym,
  true, ℕ, ◌&&◌, ◌<◌, ◌==◌, ◌||◌, ◌≡◌, ◌≤◌,
}
use pyrpckit.Subscriptions.{
  Notice, Session, SubscriptionTask, close_session, find_handshake, find_task, handshake_failed,
  handshake_sent, left, move_task, notified, payload, send, task_done, update_task,
}
use pyrpckit.Subscriptions.Invariant.{
  SessionInv, count_handshakes, count_handshakes-drop, count_tasks, find_handshake-counted,
}
use pyrpckit.Json.{Json}
use pyrpckit.Subscriptions.Order.{
  IsTold, find_task-counted, find_task-drop, find_task-update, finished, has_left, is_terminal,
  ordered, started,
}

pub handshake_sent-IsTold : (m : ℕ) (s : Session) → IsTold s → IsTold (handshake_sent m s)
unfolding handshake_sent send
handshake_sent-IsTold m s v = elim (Option-cases (find_handshake m s.handshakes)) [
  | inl absent ↦ rw (absent, handshake_sent) v
  | inr (h, found) ↦
      let quiet : finished m s.log ≡ false =
        v.unheard m (find_handshake-counted m s.handshakes h found) in
      rw (found, handshake_sent)
        (record {
          told_start = λ n t e. unfold started find_task in ground (arith, v.told_start n t);
          still_open = λ n t e live.
              unfold finished find_task in
              elim (Bool-cases (m == n)) [
                | inl same ↦ subst (λ k. finished k s.log ≡ false) ((==_iff m n).0 same) quiet
                | inr apart ↦ v.still_open n t (ground arith) live
              ];
          unheard = λ n k.
              unfold finished in
              v.unheard n (ground (arith, count_handshakes-drop n m s.handshakes));
          unborn = λ n k. unfold finished in v.unborn n k;
          in_order = unfold ordered in v.in_order;
        })
]

pub handshake_failed-IsTold : (m : ℕ) (s : Session) → IsTold s → IsTold (handshake_failed m s)
unfolding handshake_failed
handshake_failed-IsTold m s v = record {
  told_start = v.told_start;
  still_open = v.still_open;
  unheard = λ n k. v.unheard n (ground (arith, count_handshakes-drop n m s.handshakes));
  unborn = v.unborn;
  in_order = v.in_order;
}

pub task_done-IsTold : (m : ℕ) (s : Session) → IsTold s → IsTold (task_done m s)
unfolding task_done
task_done-IsTold m s v = record {
  told_start = λ n t e. v.told_start n t (ground (arith, find_task-drop n m s.tasks));
  still_open = λ n t e. v.still_open n t (ground (arith, find_task-drop n m s.tasks));
  unheard = v.unheard;
  unborn = v.unborn;
  in_order = v.in_order;
}

pub close-IsTold : (s : Session) → IsTold s → IsTold (close_session s)
unfolding close_session find_task
close-IsTold s v = record {
  told_start = λ n t e. cc;
  still_open = λ n t e. cc;
  unheard = v.unheard;
  unborn = v.unborn;
  in_order = v.in_order;
}

pub payload-IsTold :
    (m : ℕ) (value : Json) (s : Session) (t : SubscriptionTask)
    → find_task m s.tasks ≡ some t
    → has_left t.point ≡ false
    → IsTold s
    → IsTold (send (notified m (payload value)) s)
unfolding send started finished ordered
payload-IsTold m value s t found live v = record {
  told_start = v.told_start;
  still_open = λ n k e l. ground (arith, v.still_open n k e l);
  unheard = λ n k. ground (arith, v.unheard n k);
  unborn = λ n k. ground (arith, v.unborn n k);
  in_order = ground (arith, v.told_start m t found, v.still_open m t found live, v.in_order);
}

pub terminal-IsTold :
    {bound : ℕ} (m : ℕ) (notice : Notice) (s : Session) (t : SubscriptionTask)
    → find_task m s.tasks ≡ some t
    → has_left t.point ≡ false
    → SessionInv bound s
    → IsTold s
    → IsTold
        (send (notified m notice) (record s { tasks = update_task m (move_task left) s.tasks }))
unfolding send started finished ordered
terminal-IsTold m notice s t found live c v = record {
  told_start = λ n k e. told n k (find_task n s.tasks) refl e;
  still_open = λ n k e l. open_ n k (find_task n s.tasks) refl e l;
  unheard = λ n k. ground (arith, v.unheard n k, c.unique m, busy, distinct n k);
  unborn = λ n k. ground (arith, v.unborn n k, below n k);
  in_order = ground (arith, v.told_start m t found, v.still_open m t found live, v.in_order);
}
  where
    busy : 0 < count_tasks m s.tasks
    busy = find_task-counted m s.tasks t found

    distinct : (n : ℕ) → 0 < count_handshakes n s.handshakes → (m == n) ≡ false
    distinct n k = elim (Bool-cases (m == n)) [
      | inl same ↦
          let at_m : 0 < count_handshakes m s.handshakes =
            subst (λ j. 0 < count_handshakes j s.handshakes) (sym ((==_iff m n).0 same)) k in
          absurd (omega (arith, c.unique m, busy, at_m))
      | inr apart ↦ apart
    ]

    below : (n : ℕ) → s.next_id ≤ n → (m == n) ≡ false
    below n k = elim (Bool-cases (m == n)) [
      | inl same ↦
          let at_m : s.next_id ≤ m = subst (λ j. s.next_id ≤ j) (sym ((==_iff m n).0 same)) k in
          absurd (omega (arith, c.fresh m at_m, busy))
      | inr apart ↦ apart
    ]

    told :
        (n : ℕ) (k : SubscriptionTask) (held : Option SubscriptionTask)
        → find_task n s.tasks ≡ held
        → find_task n (update_task m (move_task left) s.tasks) ≡ some k
        → started n s.log ≡ true
    told n k none e h = ground (arith, find_task-update n m (move_task left) s.tasks (λ j. refl))
    told n k (some j) e h = v.told_start n j e

    open_ :
        (n : ℕ) (k : SubscriptionTask) (held : Option SubscriptionTask)
        → find_task n s.tasks ≡ held
        → find_task n (update_task m (move_task left) s.tasks) ≡ some k
        → has_left k.point ≡ false
        → (m == n && is_terminal notice || finished n s.log) ≡ false
    open_ n k none e h l = ground (arith, find_task-update n m (move_task left) s.tasks (λ j. refl))
    open_ n k (some j) e h l =
        ground
          (arith, find_task-update n m (move_task left) s.tasks (λ i. refl), v.still_open n j e)
