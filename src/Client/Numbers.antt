-- ===== src/Client/Numbers.antt =====
-- The numbers of the calls in flight, and whether they have their outcome.
use pyrpckit.Prelude.{
  Bool, List, [], all, arith, count, false, if◌then◌else◌, length, map, refl, suc, true, ℕ, ◌++◌,
  ◌<◌, ◌==◌, ◌∷◌, ◌≡◌, ◌≤◌,
}
use pyrpckit.Client.{
  PendingCall, answered, close_future, closed_error, drop_call, unanswered, waits,
}

unfoldable pub count_calls : ℕ → List PendingCall → ℕ
count_calls n [] = 0
count_calls n (p ∷ ps) = if p.number == n then suc (count_calls n ps) else count_calls n ps

abbrev pub is_done : PendingCall → Bool
is_done p = elim p.future [ unanswered ↦ false | answered message ↦ true | closed_error ↦ true ]

pub count_calls-append :
    (n : ℕ) (p : PendingCall) (ps : List PendingCall)
    → count_calls n (ps ++ p ∷ [])
      ≡ (if p.number == n then suc (count_calls n ps) else count_calls n ps)
unfolding count_calls
count_calls-append n p [] = refl
count_calls-append n p (q ∷ ps) = ground (arith, count_calls-append n p ps)

pub count_calls-drop :
    (n m : ℕ) (ps : List PendingCall)
    → count_calls n (drop_call m ps) ≡ (if m == n then 0 else count_calls n ps)
unfolding count_calls drop_call
count_calls-drop n m [] = ground arith
count_calls-drop n m (p ∷ ps) = ground (arith, count_calls-drop n m ps)

pub length-drop_call : (m : ℕ) (ps : List PendingCall) → length (drop_call m ps) ≤ length ps
unfolding drop_call
length-drop_call m [] = omega arith
length-drop_call m (p ∷ ps) = ground (arith, length-drop_call m ps)

pub all-drop_call :
    (m : ℕ) (ps : List PendingCall) → all is_done ps ≡ true → all is_done (drop_call m ps) ≡ true
unfolding drop_call
all-drop_call m [] h = refl
all-drop_call m (p ∷ ps) h = ground (arith, all-drop_call m ps)

pub waits-count : (n : ℕ) (ms : List ℕ) → waits n ms ≡ true → 0 < count n ms
unfolding count
waits-count n [] h = cc
waits-count n (m ∷ ms) h = ground (arith, waits-count n ms)

-- Closing and answering change no number.
abbrev pub SameNumbers : List PendingCall → List PendingCall → Type 0
SameNumbers ps qs = (length qs ≡ length ps) × ((n : ℕ) → count_calls n qs ≡ count_calls n ps)

pub close_numbers : (ps : List PendingCall) → SameNumbers ps (map close_future ps)
unfolding count_calls
close_numbers [] = (refl, λ n. refl)
close_numbers (p ∷ ps) =
    let (len, nums) = close_numbers ps in (omega (arith, len), λ n. ground (arith, nums n))

pub close_settles : (ps : List PendingCall) → all is_done (map close_future ps) ≡ true
close_settles [] = refl
close_settles (p ∷ ps) = ground (arith, close_settles ps)
