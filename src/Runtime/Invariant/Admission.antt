-- ===== src/Runtime/Invariant/Admission.antt =====
-- The bookkeeping under closing, cancelling and admitting.
use pyrpckit.Prelude.{
  ==_iff, Bool, Bool-cases, Option, String, arith, count, count-discard, false, inl, inr, leb,
  length, length-discard-le, none, not, refl, some, subst, suc, true, ℕ, ◌&&◌, ◌+◌, ◌==◌, ◌||◌, ◌≡◌,
  ◌≤◌,
}
use pyrpckit.Json.{Json, arr, bool, float, get, has, int, is_text, null, obj, str}
use pyrpckit.Connection.Close.{ConnectionClose}
use pyrpckit.Wire.Envelope.{RequestId}
use pyrpckit.Runtime.State.{Call, Loop, close_loop, find_call, registered, release, reserve}
use pyrpckit.Runtime.Control.{
  cancel_call, cancel_key, cancel_keyed, cancel_registered, cancel_request, is_reserved,
}
use pyrpckit.Runtime.Reader.{add_call, is_taken, new_call, register, reservation_for}
use pyrpckit.Runtime.Invariant.{Inv, claims, count_key, if-Inv, running}
use pyrpckit.Runtime.Invariant.Calls.{
  claims-append, claims-cancel, count_key-same, one_claim, running-append, running-cancel,
  running-le-claims,
}

module _ {P Q : ℕ} where
  pub close_loop-Inv :
      (code : ConnectionClose) (reason : String) (raw_code : Option ℕ) (l : Loop)
      → Inv P Q l
      → Inv P Q (close_loop code reason raw_code l)
  unfolding close_loop
  close_loop-Inv code reason raw_code l v = if-Inv l.connection.close_event l _ v v

  -- The reservations shrink to those of other calls.
  pub release-Inv :
      (o : Option ℕ) (l : Loop)
      → Inv P Q l
      → ((r : ℕ) → o ≡ some r → count r (running l.calls) ≡ 0)
      → Inv P Q (release o l)
  unfolding release
  release-Inv none l v z = v
  release-Inv (some r) l v z = record {
    same_pending = v.same_pending;
    same_queue = v.same_queue;
    reserved = omega (arith, length-discard-le r l.reservations, v.reserved);
    collected = v.collected;
    unique = λ n. ground (arith, count-discard n r l.reservations, v.unique n);
    fresh = λ n h. ground (arith, count-discard n r l.reservations, v.fresh n h);
    claimed_once = v.claimed_once;
    claims_fresh = v.claims_fresh;
    backed = λ n. elim (Bool-cases (r == n)) [
      | inl hit ↦
          let e : r ≡ n = (==_iff r n).0 hit in
          let zero_n : count n (running l.calls) ≡ 0 =
            subst (λ k. count k (running l.calls) ≡ 0) e (z r refl) in
          omega (arith, zero_n)
      | inr miss ↦ ground (arith, miss, count-discard n r l.reservations, v.backed n)
    ];
    keyed_once = v.keyed_once;
  }

  pub cancel_call-Inv : (o : Option Call) (l : Loop) → Inv P Q l → Inv P Q (cancel_call o l)
  unfolding cancel_call
  cancel_call-Inv none l v = v
  cancel_call-Inv (some c) l v =
      if-Inv (is_reserved c && not c.cancel_requested && not c.done) _ l
        (record {
          same_pending = v.same_pending;
          same_queue = v.same_queue;
          reserved = v.reserved;
          collected = v.collected;
          unique = v.unique;
          fresh = v.fresh;
          claimed_once = λ n. rw (claims-cancel n c.ident l.calls) (v.claimed_once n);
          claims_fresh = λ n h. rw (claims-cancel n c.ident l.calls) (v.claims_fresh n h);
          backed = λ n. rw (running-cancel n c.ident l.calls) (v.backed n);
          keyed_once = v.keyed_once;
        })
        v

  cancel_keyed-Inv : (k : Option RequestId) (l : Loop) → Inv P Q l → Inv P Q (cancel_keyed k l)
  unfolding cancel_keyed cancel_registered
  cancel_keyed-Inv none l v = v
  cancel_keyed-Inv (some k) l v = go (registered k l.requests)
    where
      go : (o : Option ℕ) → Inv P Q (cancel_registered o l)
      go none = v
      go (some i) = cancel_call-Inv (find_call i l.calls) l v

  pub cancel_request-Inv : (item : Json) (l : Loop) → Inv P Q l → Inv P Q (cancel_request item l).1
  unfolding cancel_request
  cancel_request-Inv (obj item) l v =
      elim (Bool-cases (not (is_text "$/cancelRequest" (get "method" item)) || has "id" item)) [
        | inl other ↦ rw other v
        | inr cancel ↦ rw cancel (cancel_keyed-Inv (cancel_key item) l v)
      ]
  cancel_request-Inv null l v = v
  cancel_request-Inv (bool b) l v = v
  cancel_request-Inv (int n) l v = v
  cancel_request-Inv (float t) l v = v
  cancel_request-Inv (str s) l v = v
  cancel_request-Inv (arr vs) l v = v

register_once :
    (key : Option RequestId) (i : ℕ) (l : Loop)
    → is_taken key l ≡ false
    → ((k : RequestId) → count_key k l.requests ≤ 1)
    → (k : RequestId) → count_key k (register key i l.requests) ≤ 1
unfolding is_taken register
register_once none i l free once k = once k
register_once (some j) i l free once k =
    let absent : registered j l.requests ≡ none = absent_of (registered j l.requests) free in
    unfold count_key in ground (arith, once k, count_key-same j k l.requests absent)
  where
    absent_of : (o : Option ℕ) → (elim o [ none ↦ false | some m ↦ true ]) ≡ false → o ≡ none
    absent_of none h = refl
    absent_of (some m) h = cc

-- What the books say once the next call holds the reservation.
abbrev Sums : ℕ → Option ℕ → Loop → Type 0
Sums n o l =
    (count n (claims l.calls) + count n (one_claim o) ≤ 1)
    × (suc l.next ≤ n → count n (claims l.calls) + count n (one_claim o) ≡ 0)
    × (count n (running l.calls) + count n (one_claim o) ≤ count n l.reservations)

-- The books with a reservation made for the next call: it is counted, and no call holds it yet.
abbrev pub Offered : ℕ → ℕ → Option ℕ → Loop → Type 0
Offered P Q o l =
    Inv P Q l
    × ((r : ℕ)
        → o ≡ some r
        → (count r l.reservations ≡ 1) × (count r (claims l.calls) ≡ 0) × (suc r ≤ l.next))

module _ {P Q : ℕ} where
  pub reserve-Offered : (l : Loop) → Inv P Q l → Offered P Q (reserve l).0 (reserve l).1
  unfolding reserve
  reserve-Offered l v = elim (Bool-cases (leb l.max_pending_requests (length l.reservations))) [
    | inl full ↦ rw full (v, λ r e. cc)
    | inr room ↦ rw room (
      record {
        same_pending = v.same_pending;
        same_queue = v.same_queue;
        reserved = ground (arith, room, v.same_pending);
        collected = v.collected;
        unique = λ n. unfold count in ground (arith, v.unique n, v.fresh n);
        fresh = λ n h. unfold count in ground (arith, v.fresh n);
        claimed_once = v.claimed_once;
        claims_fresh = λ n h. v.claims_fresh n (omega arith);
        backed = λ n. unfold count in ground (arith, v.backed n);
        keyed_once = v.keyed_once;
      },
      λ r e. (
        unfold count in ground (arith, v.fresh l.next),
        ground (arith, v.claims_fresh l.next),
        ground arith,
      ),
    )
  ]

  pub reservation_for-Offered :
      (invalid : Bool) (l : Loop)
      → Inv P Q l
      → Offered P Q (reservation_for invalid l).0 (reservation_for invalid l).1
  unfolding reservation_for
  reservation_for-Offered invalid l v = elim (Bool-cases (invalid || l.draining)) [
    | inl refused ↦ rw refused (v, λ r e. cc)
    | inr offered ↦ rw offered (reserve-Offered l v)
  ]

  Offered-Sums : (n : ℕ) (o : Option ℕ) (l : Loop) → Offered P Q o l → Sums n o l
  unfolding count
  Offered-Sums n none l (v, offered) = (
    omega (arith, v.claimed_once n),
    λ h. omega (arith, v.claims_fresh n),
    omega (arith, v.backed n),
  )
  Offered-Sums n (some r) l (v, offered) = elim (Bool-cases (r == n)) [
    | inl hit ↦
        let e : r ≡ n = (==_iff r n).0 hit in
        let at_n : (count n l.reservations ≡ 1)
            × (count n (claims l.calls) ≡ 0)
            × (suc n ≤ l.next) =
          subst
            (λ k. (count k l.reservations ≡ 1) × (count k (claims l.calls) ≡ 0) × (suc k ≤ l.next))
            e (offered r refl) in
        rw hit (
          omega (arith, at_n),
          λ h. absurd (omega (arith, at_n)),
          omega (arith, at_n, running-le-claims n l.calls),
        )
    | inr miss ↦ rw miss (
      omega (arith, v.claimed_once n),
      λ h. omega (arith, v.claims_fresh n),
      omega (arith, v.backed n),
    )
  ]

  pub add_call-Inv :
      (item : Json) (invalid batch : Bool) (now : ℕ) (key : Option RequestId)
      (reservation : Option ℕ) (l : Loop)
      → Offered P Q reservation l
      → is_taken key l ≡ false
      → Inv P Q (add_call item invalid batch now key reservation l)
  unfolding add_call
  add_call-Inv item invalid batch now key reservation l (v, offered) free = record {
    same_pending = v.same_pending;
    same_queue = v.same_queue;
    reserved = v.reserved;
    collected = v.collected;
    unique = v.unique;
    fresh = λ n h. v.fresh n (omega arith);
    claimed_once = λ n. rw (claims-append n l.calls call) (sums n).0;
    claims_fresh = λ n h. rw (claims-append n l.calls call) ((sums n).1 h);
    backed = λ n. rw (running-append n l.calls call refl) (sums n).2;
    keyed_once = register_once key l.next l free v.keyed_once;
  }
    where
      call : Call
      call = new_call item invalid batch now key reservation l

      sums : (n : ℕ) → Sums n reservation l
      sums n = Offered-Sums n reservation l (v, offered)
