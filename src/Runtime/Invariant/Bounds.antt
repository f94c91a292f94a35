-- ===== src/Runtime/Invariant/Bounds.antt =====
-- The limits of an endpoint, in any run.
use pyrpckit.Prelude.{
  Bool, List, Option, Option-cases, [], arith, count, false, inl, inr, length, length-le_of_count,
  none, refl, some, subst, sym, true, ℕ, ◌+◌, ◌∷◌, ◌≡◌, ◌≤◌,
}
use pyrpckit.Connection.Close.{internal_error}
use pyrpckit.Connection.Life.{Connection}
use pyrpckit.Wire.Envelope.{RequestId}
use pyrpckit.Runtime.State.{Collector, Loop, find_call, registered, remove_call, update_call}
use pyrpckit.Runtime.Reader.{Library}
use pyrpckit.Runtime.Tasks.{
  LoopEvent, call_done, call_ends, call_is_done, call_starts, called_back, closes, collector_done,
  drains, end_call, ended, finish, forget_key, invocation_done, is_call, loop_run, loop_step,
  receives, remove_collector, start_call,
}
use pyrpckit.Runtime.Invariant.{Inv, claims, count_key, if-Inv, running}
use pyrpckit.Runtime.Invariant.Calls.{
  claims-finish, claims-remove, claims-remove_zero, claims-start, count_key-unregister,
  find_call-ident, running-finish, running-finish_zero, running-le-claims, running-remove,
  running-start,
}
use pyrpckit.Runtime.Invariant.Admission.{close_loop-Inv, release-Inv}
use pyrpckit.Runtime.Invariant.Reader.{receive-Inv}
use pyrpckit.Client

-- The state in which `_run_rpc_endpoint` starts its reader.
unfoldable pub open_loop : ℕ → ℕ → ℕ → Option ℕ → ℕ → Connection → Loop
open_loop pending queue batch bytes concurrency connection = record {
  max_pending_requests = pending;
  max_queue_size = queue;
  max_batch_size = batch;
  max_message_bytes = bytes;
  connection = connection;
  client = Client.create concurrency bytes;
  draining = false;
  reading = true;
  next = 0;
  reservations = [];
  calls = [];
  requests = [];
  collectors = [];
}

length-remove_collector : (i : ℕ) (cs : List Collector) → length (remove_collector i cs) ≤ length cs
unfolding remove_collector
length-remove_collector i [] = omega arith
length-remove_collector i (c ∷ cs) = ground (arith, length-remove_collector i cs)

module _ {P Q : ℕ} where
  start_call-Inv : (i : ℕ) (l : Loop) → Inv P Q l → Inv P Q (start_call i l)
  unfolding start_call
  start_call-Inv i l v = record {
    same_pending = v.same_pending;
    same_queue = v.same_queue;
    reserved = v.reserved;
    collected = v.collected;
    unique = v.unique;
    fresh = v.fresh;
    claimed_once = λ n. rw (claims-start n i l.calls) (v.claimed_once n);
    claims_fresh = λ n h. rw (claims-start n i l.calls) (v.claims_fresh n h);
    backed = λ n. rw (running-start n i l.calls) (v.backed n);
    keyed_once = v.keyed_once;
  }

  finish-Inv :
      (i : ℕ) (l : Loop) → Inv P Q l → Inv P Q (record l { calls = update_call i finish l.calls })
  finish-Inv i l v = record {
    same_pending = v.same_pending;
    same_queue = v.same_queue;
    reserved = v.reserved;
    collected = v.collected;
    unique = v.unique;
    fresh = v.fresh;
    claimed_once = λ n. rw (claims-finish n i l.calls) (v.claimed_once n);
    claims_fresh = λ n h. rw (claims-finish n i l.calls) (v.claims_fresh n h);
    backed = λ n. omega (arith, running-finish n i l.calls, v.backed n);
    keyed_once = v.keyed_once;
  }

  end_call-Inv : (i : ℕ) (l : Loop) → Inv P Q l → Inv P Q (end_call i l)
  unfolding end_call
  end_call-Inv i l v = elim (Option-cases (find_call i l.calls)) [
    | inl absent ↦ rw (absent, ended) v
    | inr (c, found) ↦
        let e : c.ident ≡ i = find_call-ident i l.calls c found in
        let found' : find_call c.ident l.calls ≡ some c =
          subst (λ k. find_call k l.calls ≡ some c) (sym e) found in
        rw (found, ended)
          (if-Inv c.done l _ v (
            if-Inv c.started _ _
              (release-Inv c.reservation _ (finish-Inv c.ident l v)
                (λ r h. running-finish_zero c.ident r l.calls c found' h (v.claimed_once r)))
              (finish-Inv c.ident l v)))
  ]

  remove-Inv : (i : ℕ) (l : Loop) → Inv P Q l → Inv P Q (record l { calls = remove_call i l.calls })
  remove-Inv i l v = record {
    same_pending = v.same_pending;
    same_queue = v.same_queue;
    reserved = v.reserved;
    collected = v.collected;
    unique = v.unique;
    fresh = v.fresh;
    claimed_once = λ n. omega (arith, claims-remove n i l.calls, v.claimed_once n);
    claims_fresh = λ n h. omega (arith, claims-remove n i l.calls, v.claims_fresh n h);
    backed = λ n. omega (arith, running-remove n i l.calls, v.backed n);
    keyed_once = v.keyed_once;
  }

  forget_key-Inv :
      (key : Option RequestId) (i : ℕ) (l : Loop) → Inv P Q l → Inv P Q (forget_key key i l)
  unfolding forget_key
  forget_key-Inv none i l v = v
  forget_key-Inv (some k) i l v =
      if-Inv (is_call i (registered k l.requests)) _ l
        (record {
          same_pending = v.same_pending;
          same_queue = v.same_queue;
          reserved = v.reserved;
          collected = v.collected;
          unique = v.unique;
          fresh = v.fresh;
          claimed_once = v.claimed_once;
          claims_fresh = v.claims_fresh;
          backed = v.backed;
          keyed_once = λ j. omega (arith, count_key-unregister k j l.requests, v.keyed_once j);
        })
        v

  call_done-Inv : (i : ℕ) (l : Loop) → Inv P Q l → Inv P Q (call_done i l)
  unfolding call_done
  call_done-Inv i l v = elim (Option-cases (find_call i l.calls)) [
    | inl absent ↦ rw (absent, called_back) v
    | inr (c, found) ↦
        let e : c.ident ≡ i = find_call-ident i l.calls c found in
        let found' : find_call c.ident l.calls ≡ some c =
          subst (λ k. find_call k l.calls ≡ some c) (sym e) found in
        rw (found, called_back)
          (if-Inv c.done _ l
            (forget_key-Inv c.key c.ident _ (
              release-Inv c.reservation _ (remove-Inv c.ident l v) (λ r h. omega (
                arith,
                claims-remove_zero c.ident r l.calls c found' h (v.claimed_once r),
                running-le-claims r (remove_call c.ident l.calls),
              ))))
            v)
  ]

  invocation_done-Inv :
      (i : ℕ) (failed : Bool) (l : Loop) → Inv P Q l → Inv P Q (invocation_done i failed l)
  unfolding invocation_done
  invocation_done-Inv i failed l v =
      if-Inv failed _ _ (close_loop-Inv internal_error _ none _ removed) removed
    where
      removed : Inv P Q (record l { collectors = remove_collector i l.collectors })
      removed = record {
        same_pending = v.same_pending;
        same_queue = v.same_queue;
        reserved = v.reserved;
        collected = omega (arith, length-remove_collector i l.collectors, v.collected);
        unique = v.unique;
        fresh = v.fresh;
        claimed_once = v.claimed_once;
        claims_fresh = v.claims_fresh;
        backed = v.backed;
        keyed_once = v.keyed_once;
      }

module _ (lib : Library) {P Q : ℕ} where
  loop_step-Inv : (l : Loop) (e : LoopEvent) → Inv P Q l → Inv P Q (loop_step lib l e)
  unfolding loop_step
  loop_step-Inv l (receives now frame) v = receive-Inv lib now frame l v
  loop_step-Inv l (call_starts i) v = start_call-Inv i l v
  loop_step-Inv l (call_ends i) v = end_call-Inv i l v
  loop_step-Inv l (call_is_done i) v = call_done-Inv i l v
  loop_step-Inv l (collector_done i failed) v = invocation_done-Inv i failed l v
  loop_step-Inv l drains v = v
  loop_step-Inv l (closes code reason) v = close_loop-Inv code reason none l v

  pub loop_run-Inv : (l : Loop) (es : List LoopEvent) → Inv P Q l → Inv P Q (loop_run lib l es)
  unfolding loop_run
  loop_run-Inv l [] v = v
  loop_run-Inv l (e ∷ es) v = loop_run-Inv (loop_step lib l e) es (loop_step-Inv l e v)

pub open_loop-Inv :
    (pending queue batch : ℕ) (bytes : Option ℕ) (concurrency : ℕ) (connection : Connection)
    → Inv pending queue (open_loop pending queue batch bytes concurrency connection)
unfolding open_loop count claims running count_key
open_loop-Inv pending queue batch bytes concurrency connection = record {
  same_pending = refl;
  same_queue = refl;
  reserved = omega arith;
  collected = omega arith;
  unique = λ n. omega arith;
  fresh = λ n h. refl;
  claimed_once = λ n. omega arith;
  claims_fresh = λ n h. refl;
  backed = λ n. omega arith;
  keyed_once = λ k. omega arith;
}

-- However frames, task switches, cancellations, drains and closes interleave: the admitted calls
-- whose task has not ended number at most `max_pending_requests`, the response collectors at most
-- `max_pending_requests + max_queue_size`, and no request id is registered twice.
pub limits_hold :
    (lib : Library) (pending queue batch : ℕ) (bytes : Option ℕ) (concurrency : ℕ)
    (connection : Connection) (es : List LoopEvent)
    → let l = loop_run lib (open_loop pending queue batch bytes concurrency connection) es in
      (length (running l.calls) ≤ pending)
      × (length l.collectors ≤ pending + queue)
      × ((k : RequestId) → count_key k l.requests ≤ 1)
limits_hold lib pending queue batch bytes concurrency connection es =
    let v =
      loop_run-Inv lib _ es (open_loop-Inv pending queue batch bytes concurrency connection) in
    (omega (arith, length-le_of_count _ _ v.backed, v.reserved), v.collected, v.keyed_once)
