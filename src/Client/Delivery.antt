-- ===== src/Client/Delivery.antt =====
-- Which call a response reaches.
use pyrpckit.Prelude.{
  ==_iff, Bool-cases, List, Option, String, [], ap, arith, eq_iff, false, if◌then◌else◌, inl, inr,
  none, refl, some, str_eq, subst, suc, sym, true, ℕ, ◌==◌, ◌∙◌, ◌∷◌, ◌≡◌, ◌≢◌,
}
use pyrpckit.Json.{Fields, Json, arr, bool, float, get, int, null, obj, str}
use pyrpckit.Client.{
  ConnectedClient, Future, PendingCall, answered, closed_error, deliver, deliver_to, drop_response,
  find_pending, is_response, resolve, set_result, unanswered, waits,
}

-- The future of the call with number `n`, if it is in flight.
unfoldable pub future_of : ℕ → List PendingCall → Option Future
future_of n [] = none
future_of n (p ∷ ps) = if p.number == n then some p.future else future_of n ps

-- Request ids tell calls apart: `f"server:{n}"` differs for different numbers.
module _ (server_id : ℕ → String) (distinct : (n m : ℕ) → server_id n ≡ server_id m → n ≡ m) where
  same_id : (n m : ℕ) → str_eq (server_id n) (server_id m) ≡ (n == m)
  same_id n m = elim (Bool-cases (n == m)) [
    | inl hit ↦ rw hit ((eq_iff (server_id n) (server_id m)).1 (ap server_id ((==_iff n m).0 hit)))
    | inr miss ↦ elim (Bool-cases (str_eq (server_id n) (server_id m))) [
      | inl same ↦
          absurd (ground (arith, distinct n m ((eq_iff (server_id n) (server_id m)).0 same), miss))
      | inr differ ↦ differ ∙ sym miss
    ]
  ]

  find_pending_lem :
      (n : ℕ) (ps : List PendingCall) (f : Future)
      → future_of n ps ≡ some f
      → find_pending server_id (server_id n) ps ≡ some (record { number = n; future = f })
  unfolding find_pending future_of
  find_pending_lem n [] f h = cc
  find_pending_lem n (p ∷ ps) f h = ground (arith, same_id p.number n, find_pending_lem n ps f)

  find_pending-none :
      (n : ℕ) (ps : List PendingCall)
      → future_of n ps ≡ none
      → find_pending server_id (server_id n) ps ≡ none
  unfolding find_pending future_of
  find_pending-none n [] h = refl
  find_pending-none n (p ∷ ps) h = ground (arith, same_id p.number n, find_pending-none n ps)

  future_of-set_result :
      (n k : ℕ) (m : Fields) (ps : List PendingCall)
      → future_of k (set_result server_id (server_id n) m ps) ≡ (
          if n == k
          then (elim (future_of n ps) [ none ↦ none | some f ↦ some (answered m) ])
          else future_of k ps)
  unfolding future_of set_result
  future_of-set_result n k m [] = ground arith
  future_of-set_result n k m (p ∷ ps) =
      ground (arith, same_id p.number n, future_of-set_result n k m ps)

  -- A response under the id of a call that waits for its answer gives that call this message, and
  -- touches no other call.
  pub response_reaches_its_call :
      (n : ℕ) (m : Fields) (c : ConnectedClient)
      → is_response m ≡ true
      → get "id" m ≡ some (str (server_id n))
      → future_of n c.pending ≡ some unanswered
      → let d = (resolve server_id (obj m) c).1 in
        (future_of n d.pending ≡ some (answered m))
        × ((k : ℕ) → k ≢ n → future_of k d.pending ≡ future_of k c.pending)
        × (d.dropped_responses ≡ c.dropped_responses)
  unfolding resolve deliver
  response_reaches_its_call n m c r i h =
      rw (r, i, find_pending_lem n c.pending unanswered h)
        (
          rw (future_of-set_result n n m c.pending, h) (ground arith),
          λ k ne. rw (future_of-set_result n k m c.pending) (ground arith),
          refl,
        )

module _ (server_id : ℕ → String) where
  later :
      (key : String) (q : PendingCall) (ps : List PendingCall) (p : PendingCall)
      → str_eq (server_id q.number) key ≡ false
      → server_id p.number ≡ key
      → future_of p.number ps ≡ some p.future
      → future_of p.number (q ∷ ps) ≡ some p.future
  unfolding future_of
  later key q ps p miss named_ found = elim (Bool-cases (q.number == p.number)) [
    | inr apart ↦ rw apart found
    | inl same ↦
        let hit : str_eq (server_id q.number) key ≡ true =
          (eq_iff (server_id q.number) key).1
            (ap server_id ((==_iff q.number p.number).0 same) ∙ named_) in
        absurd (ground (arith, hit, miss))
  ]

  -- The call that is found by an id is the one with its number.
  find_pending-future :
      (key : String) (ps : List PendingCall) (p : PendingCall)
      → find_pending server_id key ps ≡ some p
      → (server_id p.number ≡ key) × (future_of p.number ps ≡ some p.future)
  unfolding find_pending future_of
  find_pending-future key [] p h = cc
  find_pending-future key (q ∷ ps) p h = elim (Bool-cases (str_eq (server_id q.number) key)) [
    | inl hit ↦
        let same : q ≡ p = ground arith in
        (
          subst (λ k. server_id k.number ≡ key) same ((eq_iff (server_id q.number) key).0 hit),
          ground (arith, same),
        )
    | inr miss ↦
        let (named_, found) = find_pending-future key ps p (ground arith) in
        (named_, later key q ps p miss named_ found)
  ]

  -- The id names no call that waits for its answer.
  abbrev pub IsLate : Option Json → ConnectedClient → Type 0
  IsLate id c = (n : ℕ) → id ≡ some (str (server_id n)) → future_of n c.pending ≢ some unanswered

  found-dropped :
      (key : String) (m : Fields) (c : ConnectedClient) (found : Option PendingCall)
      → find_pending server_id key c.pending ≡ found
      → IsLate (some (str key)) c
      → deliver_to server_id key m found c ≡ drop_response server_id c
  unfolding deliver_to
  found-dropped key m c none e late = refl
  found-dropped key m c (some p) e late = by_future p.future refl
    where
      by_future :
          (f : Future)
          → p.future ≡ f
          → (elim f [
            | unanswered ↦ record c { pending = set_result server_id key m c.pending }
            | answered other ↦ drop_response server_id c
            | closed_error ↦ drop_response server_id c
          ])
            ≡ drop_response server_id c
      by_future unanswered waits =
          let (named_, found) = find_pending-future key c.pending p e in
          absurd (late p.number (ap (λ k. some (str k)) (sym named_)) (found ∙ ap some waits))
      by_future (answered other) waits = refl
      by_future closed_error waits = refl

  deliver-dropped :
      (id : Option Json) (m : Fields) (c : ConnectedClient)
      → IsLate id c
      → deliver server_id id m c ≡ drop_response server_id c
  unfolding deliver
  deliver-dropped none m c late = refl
  deliver-dropped (some (str key)) m c late =
      found-dropped key m c (find_pending server_id key c.pending) refl late
  deliver-dropped (some null) m c late = refl
  deliver-dropped (some (bool b)) m c late = refl
  deliver-dropped (some (int n)) m c late = refl
  deliver-dropped (some (float x)) m c late = refl
  deliver-dropped (some (arr vs)) m c late = refl
  deliver-dropped (some (obj fs)) m c late = refl

  -- A response whose id is no text, is missing, or names no call that waits for its answer, is
  -- dropped and counted: no call is touched, so a call is answered once at most.
  pub late_response_is_dropped :
      (m : Fields) (c : ConnectedClient)
      → is_response m ≡ true
      → IsLate (get "id" m) c
      → let d = (resolve server_id (obj m) c).1 in
        (d.pending ≡ c.pending) × (d.dropped_responses ≡ suc c.dropped_responses)
  unfolding resolve
  late_response_is_dropped m c r late =
      let e = deliver-dropped (get "id" m) m c late in
      rw r (rw e (unfold drop_response in (refl, refl)))
