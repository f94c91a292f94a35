-- ===== src/Client/Invariant.antt =====
-- What holds of the calls to the connected client at every moment.
use pyrpckit.Prelude.{
  Bool, Bool-cases, List, Option, String, [], all, arith, count, count-append, count-discard, inl,
  inr, length, length-append, none, refl, some, suc, true, ℕ, ◌+◌, ◌<◌, ◌∷◌, ◌≡◌, ◌≤◌,
}
use pyrpckit.Json.{Fields, Json, arr, bool, float, get, int, null, obj, str}
use pyrpckit.Client.{
  ConnectedClient, Event, Future, PendingCall, admit, admits, answered, close, closed_error, closes,
  create, deliver, deliver_to, drop_response, find_pending, is_response, leave, leaves, receives,
  resolve, run, set_result, start_call, starts, step, unanswered,
}
use pyrpckit.Client.Numbers.{
  SameNumbers, all-drop_call, close_numbers, close_settles, count_calls, count_calls-append,
  count_calls-drop, is_done, length-drop_call, waits-count,
}

pub record Inv (c : ConnectedClient) : Type 0 where
  -- No more requests are in flight than the limit allows.
  pub bounded : length c.pending ≤ c.max_concurrency
  -- Each number is used by one call at most, and only numbers given out are used.
  pub unique : (n : ℕ) → count n c.waiting + count_calls n c.pending ≤ 1
  pub fresh : (n : ℕ) → c.next_id < n → count n c.waiting + count_calls n c.pending ≡ 0
  -- On a closed connection nobody waits for an answer.
  pub settled : c.closed ≡ true → all is_done c.pending ≡ true

module _ (server_id : ℕ → String) where
  result_numbers :
      (key : String) (m : Fields) (ps : List PendingCall)
      → SameNumbers ps (set_result server_id key m ps)
  unfolding count_calls set_result
  result_numbers key m [] = (refl, λ n. refl)
  result_numbers key m (p ∷ ps) =
      let (len, nums) = result_numbers key m ps in
      (ground (arith, len), λ n. ground (arith, nums n))

  result_settled :
      (key : String) (m : Fields) (ps : List PendingCall)
      → all is_done ps ≡ true
      → all is_done (set_result server_id key m ps) ≡ true
  unfolding set_result
  result_settled key m [] h = refl
  result_settled key m (p ∷ ps) h = ground (arith, result_settled key m ps)

  dropped-Inv : (c : ConnectedClient) → Inv c → Inv (drop_response server_id c)
  unfolding drop_response
  dropped-Inv c v = record {
    bounded = v.bounded;
    unique = v.unique;
    fresh = v.fresh;
    settled = v.settled;
  }

  deliver_to-Inv :
      (key : String) (m : Fields) (found : Option PendingCall) (c : ConnectedClient)
      → Inv c
      → Inv (deliver_to server_id key m found c)
  unfolding deliver_to
  deliver_to-Inv key m none c v = dropped-Inv c v
  deliver_to-Inv key m (some p) c v = go p.future
    where
      go :
          (f : Future)
          → Inv (elim f [
            | unanswered ↦ record c { pending = set_result server_id key m c.pending }
            | answered other ↦ drop_response server_id c
            | closed_error ↦ drop_response server_id c
          ])
      go unanswered =
          let (len, nums) = result_numbers key m c.pending in
          record {
            bounded = ground (arith, len, v.bounded);
            unique = λ n. ground (arith, nums n, v.unique n);
            fresh = λ n h. ground (arith, nums n, v.fresh n h);
            settled = λ h. result_settled key m c.pending (v.settled h);
          }
      go (answered other) = dropped-Inv c v
      go closed_error = dropped-Inv c v

  deliver-Inv :
      (key : Option Json) (m : Fields) (c : ConnectedClient)
      → Inv c
      → Inv (deliver server_id key m c)
  unfolding deliver
  deliver-Inv (some (str key)) m c v =
      deliver_to-Inv key m (find_pending server_id key c.pending) c v
  deliver-Inv none m c v = dropped-Inv c v
  deliver-Inv (some null) m c v = dropped-Inv c v
  deliver-Inv (some (bool b)) m c v = dropped-Inv c v
  deliver-Inv (some (int n)) m c v = dropped-Inv c v
  deliver-Inv (some (float t)) m c v = dropped-Inv c v
  deliver-Inv (some (arr vs)) m c v = dropped-Inv c v
  deliver-Inv (some (obj fs)) m c v = dropped-Inv c v

  resolve_object-Inv :
      (m : Fields) (c : ConnectedClient) → Inv c → Inv (resolve server_id (obj m) c).1
  unfolding resolve
  resolve_object-Inv m c v = elim (Bool-cases (is_response m)) [
    | inl answer ↦ rw answer (deliver-Inv (get "id" m) m c v)
    | inr request ↦ rw request v
  ]

  pub resolve-Inv :
      (message : Json) (c : ConnectedClient) → Inv c → Inv (resolve server_id message c).1
  resolve-Inv (obj m) c v = resolve_object-Inv m c v
  resolve-Inv null c v = unfold resolve in v
  resolve-Inv (bool b) c v = unfold resolve in v
  resolve-Inv (int n) c v = unfold resolve in v
  resolve-Inv (float t) c v = unfold resolve in v
  resolve-Inv (str s) c v = unfold resolve in v
  resolve-Inv (arr vs) c v = unfold resolve in v

start_call-Inv :
    (declared : Bool) (size : Option ℕ) (c : ConnectedClient)
    → Inv c
    → Inv (start_call declared size c).1
unfolding start_call count
start_call-Inv declared size c v = record {
  bounded = ground (arith, v.bounded);
  unique =
      λ n. ground (arith, v.unique n, v.fresh n, count-append n c.waiting (suc c.next_id ∷ []));
  fresh = λ n h. ground (arith, v.fresh n, count-append n c.waiting (suc c.next_id ∷ []));
  settled = λ h. ground (arith, v.settled);
}

admit-Inv : (m : ℕ) (c : ConnectedClient) → Inv c → Inv (admit m c)
unfolding admit
admit-Inv m c v = record {
  bounded =
      ground (
        arith,
        v.bounded,
        length-append c.pending (record { number = m; future = unanswered } ∷ []),
      );
  unique = λ n. ground (
    arith,
    v.unique n,
    count-discard n m c.waiting,
    count_calls-append n (record { number = m; future = unanswered }) c.pending,
    waits-count m c.waiting,
  );
  fresh = λ n h. ground (
    arith,
    v.fresh n,
    count-discard n m c.waiting,
    count_calls-append n (record { number = m; future = unanswered }) c.pending,
    waits-count m c.waiting,
  );
  settled = λ h. ground (arith, v.settled);
}

leave-Inv : (m : ℕ) (c : ConnectedClient) → Inv c → Inv (leave m c)
unfolding leave
leave-Inv m c v = record {
  bounded = omega (arith, length-drop_call m c.pending, v.bounded);
  unique =
      λ n. ground (arith, v.unique n, count-discard n m c.waiting, count_calls-drop n m c.pending);
  fresh = λ n h.
      ground (arith, v.fresh n h, count-discard n m c.waiting, count_calls-drop n m c.pending);
  settled = λ h. all-drop_call m c.pending (v.settled h);
}

close-Inv : (c : ConnectedClient) → Inv c → Inv (close c)
unfolding close
close-Inv c v =
    let (len, nums) = close_numbers c.pending in
    record {
      bounded = ground (arith, len, v.bounded);
      unique = λ n. ground (arith, nums n, v.unique n);
      fresh = λ n h. ground (arith, nums n, v.fresh n);
      settled = λ h. ground (arith, v.settled, close_settles c.pending);
    }

create-Inv : (concurrency : ℕ) (bytes : Option ℕ) → Inv (create concurrency bytes)
unfolding create count count_calls
create-Inv concurrency bytes = record {
  bounded = omega arith;
  unique = λ n. omega arith;
  fresh = λ n h. omega arith;
  settled = λ h. refl;
}

module _ (server_id : ℕ → String) where
  step-Inv : (c : ConnectedClient) (e : Event) → Inv c → Inv (step server_id c e)
  unfolding step
  step-Inv c (starts declared size) v = start_call-Inv declared size c v
  step-Inv c (admits n) v = admit-Inv n c v
  step-Inv c (leaves n) v = leave-Inv n c v
  step-Inv c (receives message) v = resolve-Inv server_id message c v
  step-Inv c closes v = close-Inv c v

  run_keeps : (c : ConnectedClient) (es : List Event) → Inv c → Inv (run server_id c es)
  unfolding run
  run_keeps c [] v = v
  run_keeps c (e ∷ es) v = run_keeps (step server_id c e) es (step-Inv c e v)

  -- Whatever calls, answers, timeouts and closes happen, in any order: at most `max_concurrency`
  -- requests are in flight, no two calls share a request number, and on a closed connection every
  -- call in flight has its outcome.
  pub calls_run-Inv :
      (concurrency : ℕ) (bytes : Option ℕ) (es : List Event)
      → Inv (run server_id (create concurrency bytes) es)
  calls_run-Inv concurrency bytes es =
      run_keeps (create concurrency bytes) es (create-Inv concurrency bytes)
