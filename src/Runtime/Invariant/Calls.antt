-- ===== src/Runtime/Invariant/Calls.antt =====
-- Counts over the calls and the keys.
use pyrpckit.Prelude.{
  ==_iff, List, Option, [], ap, arith, count, eq_iff, false, none, refl, some, subst, true, ℕ, ◌++◌,
  ◌+◌, ◌<◌, ◌∷◌, ◌≡◌, ◌≤◌,
}
use pyrpckit.Json.{int_eq, negsuc, pos, ℤ}
use pyrpckit.Wire.Envelope.{RequestId, no_id, number_id, text_id}
use pyrpckit.Runtime.State.{
  Call, find_call, id_eq, registered, remove_call, unregister, update_call,
}
use pyrpckit.Runtime.Control.{request_cancel}
use pyrpckit.Runtime.Tasks.{finish, start}
use pyrpckit.Runtime.Invariant.{claims, count_key, running}

pub running-le-claims : (n : ℕ) (cs : List Call) → count n (running cs) ≤ count n (claims cs)
unfolding running claims count
running-le-claims n [] = omega arith
running-le-claims n (c ∷ cs) = ground (arith, running-le-claims n cs)

abbrev pub one_claim : Option ℕ → List ℕ
one_claim none = []
one_claim (some r) = r ∷ []

-- A new call holds its own reservation, and runs.
pub claims-append :
    (n : ℕ) (cs : List Call) (c : Call)
    → count n (claims (cs ++ c ∷ [])) ≡ count n (claims cs) + count n (one_claim c.reservation)
unfolding claims count
claims-append n [] c = ground arith
claims-append n (d ∷ cs) c = ground (arith, claims-append n cs c)

pub running-append :
    (n : ℕ) (cs : List Call) (c : Call)
    → c.done ≡ false
    → count n (running (cs ++ c ∷ [])) ≡ count n (running cs) + count n (one_claim c.reservation)
unfolding running count
running-append n [] c h = ground arith
running-append n (d ∷ cs) c h = ground (arith, running-append n cs c)

-- Marking a call changes no reservation.
module _ (n i : ℕ) where
  pub claims-start :
      (cs : List Call) → count n (claims (update_call i start cs)) ≡ count n (claims cs)
  unfolding claims count update_call
  claims-start [] = refl
  claims-start (c ∷ cs) = ground (arith, claims-start cs)

  pub running-start :
      (cs : List Call) → count n (running (update_call i start cs)) ≡ count n (running cs)
  unfolding running count update_call
  running-start [] = refl
  running-start (c ∷ cs) = ground (arith, running-start cs)

  pub claims-cancel :
      (cs : List Call) → count n (claims (update_call i request_cancel cs)) ≡ count n (claims cs)
  unfolding claims count update_call
  claims-cancel [] = refl
  claims-cancel (c ∷ cs) = ground (arith, claims-cancel cs)

  pub running-cancel :
      (cs : List Call) → count n (running (update_call i request_cancel cs)) ≡ count n (running cs)
  unfolding running count update_call
  running-cancel [] = refl
  running-cancel (c ∷ cs) = ground (arith, running-cancel cs)

  pub claims-finish :
      (cs : List Call) → count n (claims (update_call i finish cs)) ≡ count n (claims cs)
  unfolding claims count update_call
  claims-finish [] = refl
  claims-finish (c ∷ cs) = ground (arith, claims-finish cs)

  pub running-finish :
      (cs : List Call) → count n (running (update_call i finish cs)) ≤ count n (running cs)
  unfolding running count update_call
  running-finish [] = omega arith
  running-finish (c ∷ cs) = ground (arith, running-finish cs)

  pub claims-remove : (cs : List Call) → count n (claims (remove_call i cs)) ≤ count n (claims cs)
  unfolding claims count remove_call
  claims-remove [] = omega arith
  claims-remove (c ∷ cs) = ground (arith, claims-remove cs)

  pub running-remove :
      (cs : List Call) → count n (running (remove_call i cs)) ≤ count n (running cs)
  unfolding running count remove_call
  running-remove [] = omega arith
  running-remove (c ∷ cs) = ground (arith, running-remove cs)

pub find_call-ident : (i : ℕ) (cs : List Call) (c : Call) → find_call i cs ≡ some c → c.ident ≡ i
unfolding find_call
find_call-ident i [] c h = cc
find_call-ident i (d ∷ cs) c h = ground (arith, find_call-ident i cs c)

module _ (i r : ℕ) where
  find_claimed :
      (cs : List Call) (c : Call)
      → find_call i cs ≡ some c
      → c.reservation ≡ some r
      → 0 < count r (claims cs)
  unfolding find_call claims count
  find_claimed [] c h e = cc
  find_claimed (d ∷ cs) c h e = ground (arith, find_claimed cs c)

  -- When a call has ended, no running call holds its reservation.
  pub running-finish_zero :
      (cs : List Call) (c : Call)
      → find_call i cs ≡ some c
      → c.reservation ≡ some r
      → count r (claims cs) ≤ 1
      → count r (running (update_call i finish cs)) ≡ 0
  unfolding find_call claims running count update_call
  running-finish_zero [] c h e u = refl
  running-finish_zero (d ∷ cs) c h e u = ground (
    arith,
    running-finish_zero cs c,
    find_claimed cs c,
    running-finish r i cs,
    running-le-claims r cs,
  )

  -- When it is removed, no call at all does.
  pub claims-remove_zero :
      (cs : List Call) (c : Call)
      → find_call i cs ≡ some c
      → c.reservation ≡ some r
      → count r (claims cs) ≤ 1
      → count r (claims (remove_call i cs)) ≡ 0
  unfolding find_call claims count remove_call
  claims-remove_zero [] c h e u = refl
  claims-remove_zero (d ∷ cs) c h e u =
      ground (arith, claims-remove_zero cs c, find_claimed cs c, claims-remove r i cs)

pub count_key-unregister :
    (j k : RequestId) (rs : List (RequestId × ℕ)) → count_key k (unregister j rs) ≤ count_key k rs
unfolding count_key unregister
count_key-unregister j k [] = omega arith
count_key-unregister j k ((a, i) ∷ rs) = ground (arith, count_key-unregister j k rs)

pub count_key-free :
    (k : RequestId) (rs : List (RequestId × ℕ)) → registered k rs ≡ none → count_key k rs ≡ 0
unfolding count_key registered
count_key-free k [] h = refl
count_key-free k ((a, i) ∷ rs) h = ground (arith, count_key-free k rs)

int_eq_sound : (a b : ℤ) → int_eq a b ≡ true → a ≡ b
int_eq_sound (pos n) (pos m) h = ap pos ((==_iff n m).0 h)
int_eq_sound (pos n) (negsuc m) h = cc
int_eq_sound (negsuc n) (pos m) h = cc
int_eq_sound (negsuc n) (negsuc m) h = ap negsuc ((==_iff n m).0 h)

pub id_eq_sound : (j k : RequestId) → id_eq j k ≡ true → j ≡ k
id_eq_sound no_id no_id h = refl
id_eq_sound no_id (text_id t) h = cc
id_eq_sound no_id (number_id m) h = cc
id_eq_sound (text_id s) no_id h = cc
id_eq_sound (text_id s) (text_id t) h = ap text_id ((eq_iff s t).0 h)
id_eq_sound (text_id s) (number_id m) h = cc
id_eq_sound (number_id n) no_id h = cc
id_eq_sound (number_id n) (text_id t) h = cc
id_eq_sound (number_id n) (number_id m) h = ap number_id (int_eq_sound n m h)

-- A key that is free occurs under no equal key.
pub count_key-same :
    (j k : RequestId) (rs : List (RequestId × ℕ))
    → registered j rs ≡ none
    → id_eq j k ≡ true
    → count_key k rs ≡ 0
count_key-same j k rs h e =
    subst (λ i. count_key i rs ≡ 0) (id_eq_sound j k e) (count_key-free j rs h)
