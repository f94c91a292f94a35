-- ===== src/Runtime/Cancellation.antt =====
-- What `$/cancelRequest` reaches (`cancel_request` of rpckit/runtime.py).
use pyrpckit.Prelude.{
  ==_iff, Bool-cases, List, Option, Option-cases, [], ap, arith, false, inl, inr, none, not, refl,
  some, subst, sym, true, ℕ, ◌&&◌, ◌==◌, ◌||◌, ◌∙◌, ◌∷◌, ◌≡◌,
}
use pyrpckit.Json.{Fields, Json, arr, bool, float, get, has, int, is_text, null, obj, str}
use pyrpckit.Wire.Envelope.{RequestId}
use pyrpckit.Runtime.State.{Call, Loop, find_call, registered, update_call}
use pyrpckit.Runtime.Control.{
  cancel_call, cancel_key, cancel_keyed, cancel_registered, cancel_request, is_reserved,
  request_cancel,
}
use pyrpckit.Runtime.Invariant.Calls.{find_call-ident}

-- A call that is not the marked one is found as before.
find_call-other :
    (i j : ℕ) (cs : List Call)
    → (i == j) ≡ false
    → find_call j (update_call i request_cancel cs) ≡ find_call j cs
unfolding find_call update_call
find_call-other i j [] h = refl
find_call-other i j (c ∷ cs) h = ground (arith, find_call-other i j cs)

-- Why a cancellation marked call `j`, which was `c`.
abbrev pub IsCancelledBy : Json → Loop → ℕ → Call → Type 0
IsCancelledBy item l j c =
    (fields : Fields) × (key : RequestId) × (item ≡ obj fields)
    × (is_text "$/cancelRequest" (get "method" fields) ≡ true)
    × (has "id" fields ≡ false)
    × (cancel_key fields ≡ some key)
    × (registered key l.requests ≡ some j)
    × (is_reserved c ≡ true)
    × (c.done ≡ false)

module _ (l : Loop) (j : ℕ) (c : Call) where
  marked_by_call :
      (i : ℕ) (found : Option Call) (c' : Call)
      → find_call i l.calls ≡ found
      → find_call j l.calls ≡ some c
      → c.cancel_requested ≡ false
      → find_call j (cancel_call found l).calls ≡ some c'
      → c'.cancel_requested ≡ true
      → (i ≡ j) × (is_reserved c ≡ true) × (c.done ≡ false)
  unfolding cancel_call
  marked_by_call i none c' e before clear after marked = ground arith
  marked_by_call i (some d) c' e before clear after marked =
      let same : d.ident ≡ i = find_call-ident i l.calls d e in
      elim (Bool-cases (is_reserved d && not d.cancel_requested && not d.done)) [
        | inr kept ↦ absurd (ground arith)
        | inl hit ↦ elim (Bool-cases (d.ident == j)) [
          | inr apart ↦ absurd (ground (arith, find_call-other d.ident j l.calls apart))
          | inl this ↦
              let at_j : i ≡ j = sym same ∙ (==_iff d.ident j).0 this in
              let found_j : find_call j l.calls ≡ some d =
                subst (λ k. find_call k l.calls ≡ some d) at_j e in
              let equal : d ≡ c = ground arith in
              let guard_c : (is_reserved c && not c.cancel_requested && not c.done) ≡ true =
                rw (sym equal) hit in
              (at_j, ground arith, ground arith)
        ]
      ]

  marked_by_key :
      (key : Option RequestId) (c' : Call)
      → find_call j l.calls ≡ some c
      → c.cancel_requested ≡ false
      → find_call j (cancel_keyed key l).calls ≡ some c'
      → c'.cancel_requested ≡ true
      → (k : RequestId) × (key ≡ some k)
        × (registered k l.requests ≡ some j)
        × (is_reserved c ≡ true)
        × (c.done ≡ false)
  unfolding cancel_keyed cancel_registered
  marked_by_key none c' before clear after marked = absurd (ground arith)
  marked_by_key (some k) c' before clear after marked =
      elim (Option-cases (registered k l.requests)) [
        | inl free ↦ absurd (ground arith)
        | inr (i, held) ↦
            let why =
              marked_by_call i (find_call i l.calls) c' refl before clear
                (subst (λ o. find_call j (cancel_registered o l).calls ≡ some c') held after)
                marked in
            (k, refl, held ∙ ap some why.0, why.1, why.2)
      ]

  -- A message marks a call as cancelled only if it is a notification `$/cancelRequest`, well-formed,
  -- whose key, a text or a number, is the one under which exactly this call is registered, and the
  -- call holds a reservation and has not ended.
  pub cancelled_only_by_its_key :
      (item : Json) (c' : Call)
      → find_call j l.calls ≡ some c
      → c.cancel_requested ≡ false
      → find_call j (cancel_request item l).1.calls ≡ some c'
      → c'.cancel_requested ≡ true
      → IsCancelledBy item l j c
  unfolding cancel_request
  cancelled_only_by_its_key (obj fields) c' before clear after marked =
      elim (Bool-cases (not (is_text "$/cancelRequest" (get "method" fields)) || has "id" fields)) [
        | inl kept ↦ absurd (ground arith)
        | inr cancels ↦
            let after_key : find_call j (cancel_keyed (cancel_key fields) l).calls ≡ some c' =
              ground arith in
            let (k, e1, e2, e3, e4) =
              marked_by_key (cancel_key fields) c' before clear after_key marked in
            (fields, k, refl, ground (arith, cancels), ground (arith, cancels), e1, e2, e3, e4)
      ]
  cancelled_only_by_its_key null c' before clear after marked = absurd (ground arith)
  cancelled_only_by_its_key (bool b) c' before clear after marked = absurd (ground arith)
  cancelled_only_by_its_key (int n) c' before clear after marked = absurd (ground arith)
  cancelled_only_by_its_key (float t) c' before clear after marked = absurd (ground arith)
  cancelled_only_by_its_key (str s) c' before clear after marked = absurd (ground arith)
  cancelled_only_by_its_key (arr vs) c' before clear after marked = absurd (ground arith)
