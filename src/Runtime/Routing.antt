-- ===== src/Runtime/Routing.antt =====
-- Which calls are dispatched (`invoke_one` of rpckit/runtime.py), and which the reader admits.
use pyrpckit.Prelude.{
  All, Bool, Bool-cases, List, Option, Option-cases, String, [], arith, count, false, inl, inr,
  refl, some, subst, sym, true, ℕ, ◌<◌, ◌==◌, ◌∙◌, ◌∷◌, ◌≡◌,
}
use pyrpckit.Connection.Life.{Connection}
use pyrpckit.Runtime.State.{Call, Loop, find_call}
use pyrpckit.Runtime.Reader.{Library, is_cancel, is_invalid}
use pyrpckit.Runtime.Tasks.{
  LoopEvent, Route, drains, loop_run, loop_step, refused_invalid, refused_pending, refused_shutdown,
  route, to_server, to_subscriptions,
}
use pyrpckit.Runtime.Invariant.{claims, running}
use pyrpckit.Runtime.Invariant.Calls.{running-le-claims}
use pyrpckit.Runtime.Invariant.Bounds.{loop_run-Inv, open_loop, open_loop-Inv}
use pyrpckit.Wire.Envelope.{RequestEnvelope, envelope_validate}
use pyrpckit.Json.{Json}
use pyrpckit.Runtime.Invariant.Judged.{AreJudged, IsJudged}
use pyrpckit.Runtime.Invariant.Judged.Runs.{loop_run-AreJudged}

find_running :
    (i r : ℕ) (cs : List Call) (c : Call)
    → find_call i cs ≡ some c
    → c.done ≡ false
    → c.reservation ≡ some r
    → 0 < count r (running cs)
unfolding find_call running count
find_running i r [] c h live e = cc
find_running i r (d ∷ cs) c h live e = ground (arith, find_running i r cs c)

-- A call that reaches user code, through the server or through the subscriptions.
abbrev pub is_dispatched : Route → Bool
is_dispatched to_subscriptions = true
is_dispatched to_server = true
is_dispatched refused_invalid = false
is_dispatched refused_shutdown = false
is_dispatched refused_pending = false

route_lem :
    (owns : String → Bool) (c : Call)
    → is_dispatched (route owns c) ≡ true
    → (c.invalid ≡ false) × ((r : ℕ) × (c.reservation ≡ some r))
unfolding route
route_lem owns c h = elim (Option-cases c.reservation) [
  | inl bare ↦ absurd (ground arith)
  | inr (r, held) ↦ (ground arith, (r, held))
]

find_claim :
    (i r : ℕ) (cs : List Call) (c : Call)
    → find_call i cs ≡ some c
    → c.reservation ≡ some r
    → 0 < count r (claims cs)
unfolding find_call claims count
find_claim i r [] c h e = cc
find_claim i r (d ∷ cs) c h e = ground (arith, find_claim i r cs c)

module _ (lib : Library) where
  found-IsJudged :
      (drained : Bool) (bound : ℕ → ℕ) (i : ℕ) (cs : List Call) (c : Call)
      → All (IsJudged lib drained bound) cs
      → find_call i cs ≡ some c
      → c.invalid ≡ is_invalid lib c.message
  unfolding find_call
  found-IsJudged drained bound i [] c v h = cc
  found-IsJudged drained bound i (d ∷ cs) c v h = elim (Bool-cases (d.ident == i)) [
    | inl hit ↦
        let same : d ≡ c = ground arith in
        subst (λ k. k.invalid ≡ is_invalid lib k.message) same v.0
    | inr miss ↦ found-IsJudged drained bound i cs c v.1 (ground arith)
  ]

  valid_envelope :
      (item : Json)
      → is_invalid lib item ≡ false
      → (envelope : RequestEnvelope) × (envelope_validate lib.metadata_size item ≡ some envelope)
        × (is_cancel lib envelope ≡ false)
  unfolding is_invalid
  valid_envelope item h = elim (Option-cases (envelope_validate lib.metadata_size item)) [
    | inl bad ↦ absurd (ground arith)
    | inr (envelope, good) ↦ (envelope, good, ground arith)
  ]

  -- Before anything has happened, every call is judged, and nothing is known of drains.
  open_loop-AreJudged :
      (pending queue batch : ℕ) (bytes : Option ℕ) (concurrency : ℕ) (connection : Connection)
      → AreJudged lib false (λ r. 0) (open_loop pending queue batch bytes concurrency connection)
  unfolding open_loop
  open_loop-AreJudged pending queue batch bytes concurrency connection = record {
    judged = tt;
    drains_on = λ d. cc;
    bounded = λ d. cc;
  }

  -- When a drain begins, the reservations are those that calls hold.
  drained-AreJudged :
      (l : Loop)
      → AreJudged lib false (λ r. 0) l
      → AreJudged lib true (λ r. count r (claims l.calls)) (loop_step lib l drains)
  unfolding loop_step
  drained-AreJudged l v = record {
    judged = v.judged;
    drains_on = λ d. refl;
    bounded = λ d r. omega arith;
  }

  -- Whatever has happened to the endpoint, the message of a running call that reaches user code is a
  -- valid request envelope and no cancellation, and the call has a reservation that is counted
  -- against `max_pending_requests` and that it shares with no other call.
  pub dispatched_holds_reservation :
      (pending queue batch : ℕ) (bytes : Option ℕ) (concurrency : ℕ) (connection : Connection)
      (es : List LoopEvent) (owns : String → Bool) (i : ℕ) (c : Call)
      → let l = loop_run lib (open_loop pending queue batch bytes concurrency connection) es in
        find_call i l.calls ≡ some c
        → c.done ≡ false
        → is_dispatched (route owns c) ≡ true
        → ((envelope : RequestEnvelope) × (envelope_validate lib.metadata_size c.message
              ≡ some envelope)
            × (is_cancel lib envelope ≡ false))
          × ((r : ℕ) × (c.reservation ≡ some r)
              × (count r l.reservations ≡ 1)
              × (count r (claims l.calls) ≡ 1))
  dispatched_holds_reservation pending queue batch bytes concurrency connection es owns i c found
        live sent =
      let start_ = open_loop pending queue batch bytes concurrency connection in
      let l = loop_run lib start_ es in
      let v =
        loop_run-Inv lib start_ es
          (open_loop-Inv pending queue batch bytes concurrency connection) in
      let w =
        loop_run-AreJudged lib false (λ r. 0) start_ es
          (open_loop-AreJudged pending queue batch bytes concurrency connection) in
      let (passed, (r, held)) = route_lem owns c sent in
      let busy = find_running i r l.calls c found live held in
      let judged = found-IsJudged false (λ k. 0) i l.calls c w.judged found in
      (
        valid_envelope c.message (sym judged ∙ passed),
        (
          r,
          held,
          omega (arith, busy, v.backed r, v.unique r),
          omega (arith, busy, running-le-claims r l.calls, v.claimed_once r),
        ),
      )

  -- A call that holds a reservation at any time behind the start of a drain holds one that exactly
  -- one call held when the drain began: nothing is admitted behind it.
  pub drain_admits_nothing :
      (pending queue batch : ℕ) (bytes : Option ℕ) (concurrency : ℕ) (connection : Connection)
      (before after : List LoopEvent) (i r : ℕ) (c : Call)
      → let l = loop_run lib (open_loop pending queue batch bytes concurrency connection) before in
        find_call i (loop_run lib (loop_step lib l drains) after).calls ≡ some c
        → c.reservation ≡ some r
        → count r (claims l.calls) ≡ 1
  drain_admits_nothing pending queue batch bytes concurrency connection before after i r c found
        held =
      let start_ = open_loop pending queue batch bytes concurrency connection in
      let l = loop_run lib start_ before in
      let v =
        loop_run-Inv lib start_ before
          (open_loop-Inv pending queue batch bytes concurrency connection) in
      let w =
        loop_run-AreJudged lib false (λ n. 0) start_ before
          (open_loop-AreJudged pending queue batch bytes concurrency connection) in
      let later = loop_run lib (loop_step lib l drains) after in
      let x =
        loop_run-AreJudged lib true (λ n. count n (claims l.calls)) (loop_step lib l drains) after
          (drained-AreJudged l w) in
      omega (arith, find_claim i r later.calls c found held, x.bounded refl r, v.claimed_once r)
