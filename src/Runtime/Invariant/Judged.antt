-- ===== src/Runtime/Invariant/Judged.antt =====
-- Which calls the reader admits: each is judged by its own message, and none takes a reservation
-- once the service drains.
mod Reading
pub mod Runs
use pyrpckit.Prelude.{
  All, Bool, Bool-cases, List, Option, String, [], ap, arith, count, false, if◌then◌else◌, inl, inr,
  leb, length, none, not, refl, some, sym, true, ℕ, ◌&&◌, ◌++◌, ◌==◌, ◌||◌, ◌∙◌, ◌∷◌, ◌≡◌, ◌≤◌,
}
use pyrpckit.Json.{Json, arr, bool, float, get, has, int, is_text, null, obj, str}
use pyrpckit.Connection.Close.{ConnectionClose}
use pyrpckit.Wire.Envelope.{RequestId}
use pyrpckit.Runtime.State.{
  Call, Loop, close_loop, find_call, registered, release, remove_call, reserve, update_call,
}
use pyrpckit.Runtime.Control.{
  cancel_call, cancel_key, cancel_keyed, cancel_registered, cancel_request, is_reserved,
  request_cancel,
}
use pyrpckit.Runtime.Reader.{Library, add_call, is_invalid, new_call, reservation_for}
use pyrpckit.Runtime.Invariant.{claims}
use pyrpckit.Runtime.Invariant.Calls.{claims-append, claims-remove, one_claim}
use pyrpckit.Client

module _ (lib : Library) (drained : Bool) (bound : ℕ → ℕ) where
  -- The call is refused as invalid exactly if its own message is.
  abbrev pub IsJudged : Call → Type 0
  IsJudged c = c.invalid ≡ is_invalid lib c.message

  -- What is known of the calls: behind a drain, each reservation that one of them holds is among
  -- those that `bound` counts.
  pub record JudgedCalls (draining : Bool) (calls : List Call) : Type 0 where
    pub judged : All IsJudged calls
    pub drains_on : drained ≡ true → draining ≡ true
    pub bounded : drained ≡ true → (r : ℕ) → count r (claims calls) ≤ bound r

  abbrev pub AreJudged : Loop → Type 0
  AreJudged l = JudgedCalls l.draining l.calls

  pub if-AreJudged :
      (b : Bool) (x y : Loop) → AreJudged x → AreJudged y → AreJudged (if b then x else y)
  if-AreJudged true x y hx hy = hx
  if-AreJudged false x y hx hy = hy

  pub close_loop-AreJudged :
      (code : ConnectionClose) (reason : String) (raw_code : Option ℕ) (l : Loop)
      → AreJudged l
      → AreJudged (close_loop code reason raw_code l)
  unfolding close_loop
  close_loop-AreJudged code reason raw_code l v = if-AreJudged l.connection.close_event l _ v v

  pub release-AreJudged : (o : Option ℕ) (l : Loop) → AreJudged l → AreJudged (release o l)
  unfolding release
  release-AreJudged none l v = v
  release-AreJudged (some r) l v = v

  -- A change of flags keeps the message, the judgement and the reservation.
  abbrev pub KeepsClaim : (Call → Call) → Type 0
  KeepsClaim f =
      (c : Call)
      → ((f c).invalid ≡ c.invalid)
        × ((f c).message ≡ c.message)
        × ((f c).reservation ≡ c.reservation)

  claims-update :
      (r i : ℕ) (f : Call → Call) (cs : List Call)
      → KeepsClaim f
      → count r (claims (update_call i f cs)) ≡ count r (claims cs)
  unfolding claims update_call count
  claims-update r i f [] k = refl
  claims-update r i f (c ∷ cs) k = ground (arith, claims-update r i f cs k, k c)

  update_call-IsJudged :
      (i : ℕ) (f : Call → Call) (cs : List Call)
      → KeepsClaim f
      → All IsJudged cs
      → All IsJudged (update_call i f cs)
  unfolding update_call
  update_call-IsJudged i f [] k v = tt
  update_call-IsJudged i f (c ∷ cs) k v = elim (Bool-cases (c.ident == i)) [
    | inl hit ↦
        rw hit
          ((k c).0 ∙ (v.0 ∙ ap (is_invalid lib) (sym (k c).1)), update_call-IsJudged i f cs k v.1)
    | inr miss ↦ rw miss (v.0, update_call-IsJudged i f cs k v.1)
  ]

  remove_call-IsJudged :
      (i : ℕ) (cs : List Call) → All IsJudged cs → All IsJudged (remove_call i cs)
  unfolding remove_call
  remove_call-IsJudged i [] v = tt
  remove_call-IsJudged i (c ∷ cs) v = elim (Bool-cases (c.ident == i)) [
    | inl hit ↦ rw hit (remove_call-IsJudged i cs v.1)
    | inr miss ↦ rw miss (v.0, remove_call-IsJudged i cs v.1)
  ]

  append-IsJudged :
      (cs : List Call) (c : Call) → All IsJudged cs → IsJudged c → All IsJudged (cs ++ c ∷ [])
  append-IsJudged [] c v h = (h, tt)
  append-IsJudged (d ∷ cs) c v h = (v.0, append-IsJudged cs c v.1 h)

  pub update-AreJudged :
      (i : ℕ) (f : Call → Call) (l : Loop)
      → KeepsClaim f
      → AreJudged l
      → AreJudged (record l { calls = update_call i f l.calls })
  update-AreJudged i f l k v = record {
    judged = update_call-IsJudged i f l.calls k v.judged;
    drains_on = v.drains_on;
    bounded = λ d r. rw (claims-update r i f l.calls k) (v.bounded d r);
  }

  pub remove-AreJudged :
      (i : ℕ) (l : Loop) → AreJudged l → AreJudged (record l { calls = remove_call i l.calls })
  remove-AreJudged i l v = record {
    judged = remove_call-IsJudged i l.calls v.judged;
    drains_on = v.drains_on;
    bounded = λ d r. omega (arith, claims-remove r i l.calls, v.bounded d r);
  }

  cancel_call-AreJudged : (o : Option Call) (l : Loop) → AreJudged l → AreJudged (cancel_call o l)
  unfolding cancel_call
  cancel_call-AreJudged none l v = v
  cancel_call-AreJudged (some c) l v =
      if-AreJudged (is_reserved c && not c.cancel_requested && not c.done) _ l
        (update-AreJudged c.ident request_cancel l (λ d. (refl, refl, refl)) v) v

  cancel_keyed-AreJudged :
      (k : Option RequestId) (l : Loop) → AreJudged l → AreJudged (cancel_keyed k l)
  unfolding cancel_keyed cancel_registered
  cancel_keyed-AreJudged none l v = v
  cancel_keyed-AreJudged (some k) l v = go (registered k l.requests)
    where
      go : (o : Option ℕ) → AreJudged (cancel_registered o l)
      go none = v
      go (some i) = cancel_call-AreJudged (find_call i l.calls) l v

  pub cancel_request-AreJudged :
      (item : Json) (l : Loop) → AreJudged l → AreJudged (cancel_request item l).1
  unfolding cancel_request
  cancel_request-AreJudged (obj item) l v =
      elim (Bool-cases (not (is_text "$/cancelRequest" (get "method" item)) || has "id" item)) [
        | inl other ↦ rw other v
        | inr cancel ↦ rw cancel (cancel_keyed-AreJudged (cancel_key item) l v)
      ]
  cancel_request-AreJudged null l v = v
  cancel_request-AreJudged (bool b) l v = v
  cancel_request-AreJudged (int n) l v = v
  cancel_request-AreJudged (float t) l v = v
  cancel_request-AreJudged (str s) l v = v
  cancel_request-AreJudged (arr vs) l v = v

  -- A reservation for the next call, which a draining service does not make.
  abbrev pub IsOffered : Option ℕ → Loop → Type 0
  IsOffered o l = AreJudged l × (drained ≡ true → o ≡ none)

  reserve-AreJudged : (l : Loop) → AreJudged l → AreJudged (reserve l).1
  unfolding reserve
  reserve-AreJudged l v = elim (Bool-cases (leb l.max_pending_requests (length l.reservations))) [
    | inl full ↦ rw full v
    | inr room ↦ rw room v
  ]

  pub reservation_for-IsOffered :
      (invalid : Bool) (l : Loop)
      → AreJudged l
      → IsOffered (reservation_for invalid l).0 (reservation_for invalid l).1
  unfolding reservation_for
  reservation_for-IsOffered invalid l v = elim (Bool-cases (invalid || l.draining)) [
    | inl kept ↦ rw kept (v, λ d. refl)
    | inr free ↦ rw free (reserve-AreJudged l v, λ d. absurd (ground (arith, free, v.drains_on d)))
  ]

  pub add_call-AreJudged :
      (item : Json) (batch : Bool) (now : ℕ) (key : Option RequestId) (o : Option ℕ) (l : Loop)
      → IsOffered o l
      → AreJudged (add_call item (is_invalid lib item) batch now key o l)
  unfolding add_call new_call
  add_call-AreJudged item batch now key o l v = record {
    judged = append-IsJudged l.calls _ v.0.judged refl;
    drains_on = v.0.drains_on;
    bounded = λ d r.
        let unheld : count r (one_claim o) ≡ 0 = rw (v.1 d) (unfold count in refl) in
        let call = new_call item (is_invalid lib item) batch now key o l in
        omega (arith, claims-append r l.calls call, unheld, v.0.bounded d r);
  }
