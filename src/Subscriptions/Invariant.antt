-- ===== src/Subscriptions/Invariant.antt =====
-- The limit of a session and the numbers of its subscriptions.
use pyrpckit.Prelude.{
  List, Option, Option-cases, [], arith, if◌then◌else◌, inl, inr, length, none, refl, some, suc, ℕ,
  ◌+◌, ◌<◌, ◌==◌, ◌∷◌, ◌≡◌, ◌≤◌,
}
use pyrpckit.Subscriptions.{
  Handshake, Notice, RunStep, Session, SubscriptionTask, close_session, drop_handshake, drop_task,
  find_handshake, find_task, handshake_failed, handshake_sent, move_task, run_next, run_sends,
  run_task, send, task_done, tell, update_task,
}

unfoldable pub count_handshakes : ℕ → List Handshake → ℕ
count_handshakes n [] = 0
count_handshakes n (h ∷ hs) =
    if h.number == n then suc (count_handshakes n hs) else count_handshakes n hs

unfoldable pub count_tasks : ℕ → List SubscriptionTask → ℕ
count_tasks n [] = 0
count_tasks n (t ∷ ts) = if t.number == n then suc (count_tasks n ts) else count_tasks n ts

pub record Counted (limit bound next : ℕ) (hs : List Handshake) (ts : List SubscriptionTask)
    : Type 0 where
  pub same_limit : limit ≡ bound
  pub bounded : length ts + length hs ≤ bound
  pub unique : (n : ℕ) → count_tasks n ts + count_handshakes n hs ≤ 1
  pub fresh : (n : ℕ) → next ≤ n → count_tasks n ts + count_handshakes n hs ≡ 0

-- What was sent does not matter to the numbers.
abbrev pub SessionInv : ℕ → Session → Type 0
SessionInv bound s = Counted s.limit bound s.next_id s.handshakes s.tasks

pub count_handshakes-drop :
    (n m : ℕ) (hs : List Handshake)
    → count_handshakes n (drop_handshake m hs) ≡ (if m == n then 0 else count_handshakes n hs)
unfolding count_handshakes drop_handshake
count_handshakes-drop n m [] = ground arith
count_handshakes-drop n m (h ∷ hs) = ground (arith, count_handshakes-drop n m hs)

length-drop_handshake : (m : ℕ) (hs : List Handshake) → length (drop_handshake m hs) ≤ length hs
unfolding drop_handshake
length-drop_handshake m [] = omega arith
length-drop_handshake m (h ∷ hs) = ground (arith, length-drop_handshake m hs)

-- A handshake that is found makes room when it is dropped.
find_handshake-lt :
    (m : ℕ) (hs : List Handshake) (h : Handshake)
    → find_handshake m hs ≡ some h
    → suc (length (drop_handshake m hs)) ≤ length hs
unfolding find_handshake drop_handshake
find_handshake-lt m [] h e = cc
find_handshake-lt m (g ∷ hs) h e =
    ground (arith, find_handshake-lt m hs h, length-drop_handshake m hs)

pub find_handshake-counted :
    (m : ℕ) (hs : List Handshake) (h : Handshake)
    → find_handshake m hs ≡ some h
    → 0 < count_handshakes m hs
unfolding find_handshake count_handshakes
find_handshake-counted m [] h e = cc
find_handshake-counted m (g ∷ hs) h e = ground (arith, find_handshake-counted m hs h)

pub count_tasks-drop :
    (n m : ℕ) (ts : List SubscriptionTask)
    → count_tasks n (drop_task m ts) ≡ (if m == n then 0 else count_tasks n ts)
unfolding count_tasks drop_task
count_tasks-drop n m [] = ground arith
count_tasks-drop n m (t ∷ ts) = ground (arith, count_tasks-drop n m ts)

length-drop_task : (m : ℕ) (ts : List SubscriptionTask) → length (drop_task m ts) ≤ length ts
unfolding drop_task
length-drop_task m [] = omega arith
length-drop_task m (t ∷ ts) = ground (arith, length-drop_task m ts)

-- A change of flags keeps the numbers.
abbrev KeepsNumbers : (SubscriptionTask → SubscriptionTask) → Type 0
KeepsNumbers f = (t : SubscriptionTask) → (f t).number ≡ t.number

count_tasks-update :
    (n m : ℕ) (f : SubscriptionTask → SubscriptionTask) (ts : List SubscriptionTask)
    → KeepsNumbers f
    → count_tasks n (update_task m f ts) ≡ count_tasks n ts
unfolding count_tasks update_task
count_tasks-update n m f [] k = refl
count_tasks-update n m f (t ∷ ts) k = ground (arith, count_tasks-update n m f ts k, k t)

length-update_task :
    (m : ℕ) (f : SubscriptionTask → SubscriptionTask) (ts : List SubscriptionTask)
    → length (update_task m f ts) ≡ length ts
unfolding update_task
length-update_task m f [] = refl
length-update_task m f (t ∷ ts) = ground (arith, length-update_task m f ts)

module _ {bound : ℕ} where
  pub update-SessionInv :
      (m : ℕ) (f : SubscriptionTask → SubscriptionTask) (s : Session)
      → KeepsNumbers f
      → SessionInv bound s
      → SessionInv bound (record s { tasks = update_task m f s.tasks })
  update-SessionInv m f s k v = record {
    same_limit = v.same_limit;
    bounded = omega (arith, v.bounded, length-update_task m f s.tasks);
    unique = λ n. omega (arith, v.unique n, count_tasks-update n m f s.tasks k);
    fresh = λ n h. omega (arith, v.fresh n h, count_tasks-update n m f s.tasks k);
  }

  pub handshake_sent-SessionInv :
      (m : ℕ) (s : Session) → SessionInv bound s → SessionInv bound (handshake_sent m s)
  unfolding handshake_sent send
  handshake_sent-SessionInv m s v = elim (Option-cases (find_handshake m s.handshakes)) [
    | inl absent ↦ rw (absent, handshake_sent) v
    | inr (h, found) ↦
        rw (found, handshake_sent)
          (record {
            same_limit = v.same_limit;
            bounded = omega (arith, v.bounded, find_handshake-lt m s.handshakes h found);
            unique = λ n.
                unfold count_tasks in
                ground (
                  arith,
                  v.unique n,
                  count_handshakes-drop n m s.handshakes,
                  find_handshake-counted m s.handshakes h found,
                );
            fresh = λ n k.
                unfold count_tasks in
                ground (
                  arith,
                  v.fresh n k,
                  count_handshakes-drop n m s.handshakes,
                  find_handshake-counted m s.handshakes h found,
                );
          })
  ]

  pub handshake_failed-SessionInv :
      (m : ℕ) (s : Session) → SessionInv bound s → SessionInv bound (handshake_failed m s)
  unfolding handshake_failed
  handshake_failed-SessionInv m s v = record {
    same_limit = v.same_limit;
    bounded = omega (arith, v.bounded, length-drop_handshake m s.handshakes);
    unique = λ n. ground (arith, v.unique n, count_handshakes-drop n m s.handshakes);
    fresh = λ n k. ground (arith, v.fresh n k, count_handshakes-drop n m s.handshakes);
  }

  pub task_done-SessionInv :
      (m : ℕ) (s : Session) → SessionInv bound s → SessionInv bound (task_done m s)
  unfolding task_done
  task_done-SessionInv m s v = record {
    same_limit = v.same_limit;
    bounded = omega (arith, v.bounded, length-drop_task m s.tasks);
    unique = λ n. ground (arith, v.unique n, count_tasks-drop n m s.tasks);
    fresh = λ n k. ground (arith, v.fresh n k, count_tasks-drop n m s.tasks);
  }

  pub close-SessionInv : (s : Session) → SessionInv bound s → SessionInv bound (close_session s)
  unfolding close_session count_tasks
  close-SessionInv s v = record {
    same_limit = v.same_limit;
    bounded = omega (arith, v.bounded);
    unique = λ n. omega (arith, v.unique n);
    fresh = λ n k. omega (arith, v.fresh n k);
  }

  tell-SessionInv :
      (m : ℕ) (notice : Option Notice) (s : Session)
      → SessionInv bound s
      → SessionInv bound (tell m notice s)
  unfolding tell send
  tell-SessionInv m none s v = v
  tell-SessionInv m (some notice) s v = v

  pub run_task-SessionInv :
      (m : ℕ) (next : RunStep) (s : Session)
      → SessionInv bound s
      → SessionInv bound (run_task m next s)
  unfolding run_task
  run_task-SessionInv m next s v = elim (Option-cases (find_task m s.tasks)) [
    | inl absent ↦ rw (absent, run_task) v
    | inr (t, found) ↦
        rw (found, run_task)
          (tell-SessionInv m (run_sends next t.point) _
            (update-SessionInv m (move_task (run_next next t.point)) s (λ k. refl) v))
  ]
