-- ===== src/Client/Tests.antt =====
-- Runs and witnesses of the theorems on calls to the connected client.
use Prim.Native.String.{len}
use text.Mathlib.TextPositions.{len-append}
use pyrpckit.Prelude.{
  List, Option, String, [], ap, arith, discard, false, none, refl, some, str_append, subst, suc,
  sym, true, zero, ℕ, ◌+◌, ◌∷◌, ◌≡◌, ◌≢◌,
}
use pyrpckit.Json.{Fields, Json, end, field, get, negsuc, null, obj, str}
use pyrpckit.Client.{
  ConnectedClient, Event, admit, admits, answered, closes, create, deliver, deliver_to,
  find_pending, is_response, leaves, receives, resolve, run, set_result, start_call, starts, step,
  unanswered, waits,
}
use pyrpckit.Client.Invariant.{Inv, calls_run-Inv}
use pyrpckit.Errors.Types.{ErrorClass}
use pyrpckit.Client.Errors.{declared_remote_error, the_only, with_rpc_code}
use pyrpckit.Client.Delivery.{
  IsLate, future_of, late_response_is_dropped, response_reaches_its_call,
}

-- Ids in the manner of `f"server:{n}"`, in unary.
abbrev tally : ℕ → String
tally zero = "server:"
tally (suc n) = str_append "1" (tally n)

len-tally : (n : ℕ) → len (tally n) ≡ 7 + n
len-tally zero = refl
len-tally (suc n) = omega (arith, len-append "1" (tally n), len-tally n)

tally_inj : (n m : ℕ) → tally n ≡ tally m → n ≡ m
tally_inj n m h = omega (arith, len-tally n, len-tally m, ap len h)

abbrev script : List Event
script =
    starts true (some 10)
    ∷ starts true (some 10)
    ∷ admits 1
    ∷ admits 2
    ∷ receives (obj (field "id" (str "1server:") (field "result" null end)))
    ∷ leaves 1
    ∷ closes
    ∷ []

calls_run-Inv_example : Inv (run tally (create 1 none) script)
calls_run-Inv_example = calls_run-Inv tally 1 none script

-- Two calls in flight, the first of which is answered.
abbrev answer : Fields
answer = field "id" (str "1server:") (field "result" null end)

abbrev waiting_client : ConnectedClient
waiting_client =
    run tally (create 2 none)
      (starts true (some 10) ∷ starts true (some 10) ∷ admits 1 ∷ admits 2 ∷ [])

response_reaches_its_call_example :
    let d = (resolve tally (obj answer) waiting_client).1 in
    (future_of 1 d.pending ≡ some (answered answer))
    × ((k : ℕ) → k ≢ 1 → future_of k d.pending ≡ future_of k waiting_client.pending)
    × (d.dropped_responses ≡ waiting_client.dropped_responses)
unfolding run step start_call admit create future_of discard
response_reaches_its_call_example =
    response_reaches_its_call tally tally_inj 1 answer waiting_client refl refl refl

abbrev answered_client : ConnectedClient
answered_client = (resolve tally (obj answer) waiting_client).1

answer-is_response : is_response answer ≡ true
answer-is_response = refl

abbrev text_of : Option Json → String
text_of (some (str text)) = text
text_of _ = ""

answer-IsLate : IsLate tally (get "id" answer) answered_client
unfolding run step start_call admit create future_of discard resolve deliver deliver_to find_pending
    set_result
answer-IsLate n e waits =
    let first : n ≡ 1 = tally_inj n 1 (ap text_of (sym e)) in
    let same : some (answered answer) ≡ some unanswered =
      subst (λ k. future_of k answered_client.pending ≡ some unanswered) first waits in
    cc

-- The answer comes twice.
late_response_is_dropped_example :
    let d = (resolve tally (obj answer) answered_client).1 in
    (d.pending ≡ answered_client.pending)
    × (d.dropped_responses ≡ suc answered_client.dropped_responses)
late_response_is_dropped_example =
    late_response_is_dropped tally answer answered_client answer-is_response answer-IsLate

abbrev busy_class : ErrorClass
busy_class = record {
  ident = 100;
  bases = 10 ∷ 1 ∷ 0 ∷ [];
  class_code = "busy";
  class_message = "Busy";
  class_rpc_code = negsuc 31999;
  details_type = none;
  class_builtin = false;
}

abbrev gone_class : ErrorClass
gone_class = record busy_class { ident = 101; class_code = "gone" }

-- The number alone names neither class, the code does.
ambiguous_number : declared_remote_error (busy_class ∷ gone_class ∷ []) none (negsuc 31999) ≡ none
unfolding declared_remote_error with_rpc_code the_only
ambiguous_number = refl
