-- ===== src/Server/Dispatch/Answer.antt =====
-- Who is answered, and under which id.
use pyrpckit.Wire.Agreement.{envelope_agrees}
use pyrpckit.Prelude.{
  Bool-cases, List, Option, Option-cases, Result, [], ap, arith, err, false, if◌then◌else◌, inl,
  inr, none, not, ok, refl, some, sym, true, ◌∙◌, ◌≡◌,
}
use pyrpckit.Json.{Json}
use pyrpckit.Connection.Rejection.{Exception}
use pyrpckit.Errors.Types.{ErrorType}
use pyrpckit.Errors.Bindings.{bind_contracts, bind_from}
use pyrpckit.Errors.Declarations.{contracts_of}
use pyrpckit.Errors.Declarations.Compatible.{is_accepted}
use pyrpckit.Wire.Envelope.{RequestEnvelope, envelope_validate, expects_response}
use pyrpckit.Wire.Inspect.{looks_like_notification, request_id, request_method}
use pyrpckit.Server.Response.{Response, from_error, response_id, success}
use pyrpckit.Server.Mapping.Strict.{rpc_error_total}
use pyrpckit.Server.Protocol.{IsProtocol, MethodDefinition, find_method, find_method-fits}
use pyrpckit.Server.Dispatch.{
  Invocation, Server, answer_parsed, answer_result, dispatch_request, execute, failure_response,
  handle_failure, parse_request, validated_params, with_validated,
}

module _ {V : Type 0} where
  -- The right answer to a message: none to a notification, and otherwise one response that
  -- carries the message's id.
  abbrev pub Answers : Json → Option (Response V) → Type 0
  Answers raw none = looks_like_notification raw ≡ true
  Answers raw (some response) =
      (looks_like_notification raw ≡ false) × (response_id response ≡ request_id raw)

  abbrev pub IsAnswered : Json → Option (Option (Response V)) → Type 0
  IsAnswered raw answer = (r : Option (Response V)) × (answer ≡ some r) × Answers raw r

module _ {V : Type 0} (server : Server V) where
  failure_response-IsAnswered :
      (raw : Json) (error : Exception) (declared : List ErrorType)
      → is_accepted (bind_contracts (contracts_of declared)) ≡ true
      → IsAnswered raw (failure_response server raw error declared)
  failure_response-IsAnswered raw error declared h =
      let (mapped, e) =
        rpc_error_total server.error_mapper error declared server.strict_errors (request_method raw)
          h in
      elim (Bool-cases (looks_like_notification raw)) [
        | inl quiet ↦ (none, unfold failure_response in rw e (rw quiet refl), quiet)
        | inr asked ↦ (
          some (from_error (request_id raw) mapped),
          unfold failure_response in rw e (rw asked refl),
          (asked, unfold from_error in refl),
        )
      ]

  with_validated_lem :
      (envelope : RequestEnvelope) (method : MethodDefinition V)
      (values : Result Exception (Option V)) (invocation : Invocation V)
      → with_validated server envelope method values ≡ ok invocation
      → (invocation.request ≡ envelope) × (invocation.method ≡ method)
  unfolding with_validated
  with_validated_lem envelope method (err raised) invocation h = cc
  with_validated_lem envelope method (ok values) invocation h = ground arith

  -- What the parsed invocation keeps of the envelope and the protocol.
  parse_request_sound :
      (raw : Json) (invocation : Invocation V)
      → parse_request server raw ≡ ok invocation
      → (envelope_validate server.encoded_size raw ≡ some invocation.request)
        × (find_method invocation.request.method server.methods ≡ some invocation.method)
  unfolding parse_request
  parse_request_sound raw invocation h =
      elim (Option-cases (envelope_validate server.encoded_size raw)) [
        | inl invalid ↦ absurd (ground arith)
        | inr (envelope, valid) ↦ elim (Option-cases (find_method envelope.method server.methods)) [
          | inl unknown ↦ absurd (ground arith)
          | inr (method, known) ↦
              let values = validated_params server.unexpected method envelope.params in
              let e : with_validated server envelope method values ≡ ok invocation = ground arith in
              let (same, found) = with_validated_lem envelope method values invocation e in
              (valid ∙ ap some (sym same), rw (same, found) known)
        ]
      ]

  success-Answers :
      (raw : Json) (invocation : Invocation V) (result : V)
      → parse_request server raw ≡ ok invocation
      → Answers raw (
          if expects_response invocation.request
          then some (success invocation.request.id result)
          else none)
  success-Answers raw invocation result h =
      let (valid, known) = parse_request_sound raw invocation h in
      let (method, same_id, kind) =
        envelope_agrees server.encoded_size raw invocation.request valid in
      elim (Bool-cases (expects_response invocation.request)) [
        | inl asked ↦ rw asked (kind ∙ ap not asked, sym same_id)
        | inr quiet ↦ rw quiet (kind ∙ ap not quiet)
      ]

  answer_result-IsAnswered :
      (raw : Json) (invocation : Invocation V) (result : Result Exception V)
      → IsProtocol server.methods
      → parse_request server raw ≡ ok invocation
      → IsAnswered raw (answer_result server raw invocation result)
  unfolding answer_result
  answer_result-IsAnswered raw invocation (err error) p h =
      failure_response-IsAnswered raw error invocation.method.raises (
        find_method-fits server.methods invocation.request.method invocation.method p
          (parse_request_sound raw invocation h).1)
  answer_result-IsAnswered raw invocation (ok result) p h =
      (_, refl, success-Answers raw invocation result h)

  answer_parsed-IsAnswered :
      (raw : Json) (parsed : Result Exception (Invocation V))
      → IsProtocol server.methods
      → parse_request server raw ≡ parsed
      → IsAnswered raw (answer_parsed server raw parsed)
  unfolding answer_parsed
  answer_parsed-IsAnswered raw (err error) p h =
      failure_response-IsAnswered raw error []
        (unfold bind_contracts contracts_of bind_from in refl)
  answer_parsed-IsAnswered raw (ok invocation) p h =
      answer_result-IsAnswered raw invocation (execute server.resolve invocation) p h

  -- The server's methods form a protocol. Whatever a message is, valid or not, and whatever the
  -- method does: the dispatcher gives an answer. It is no response exactly when the message looks like a notification, and otherwise a
  -- single response that carries the message's id.
  pub dispatch_request-IsAnswered :
      (raw : Json) → IsProtocol server.methods → IsAnswered raw (dispatch_request server raw)
  unfolding dispatch_request
  dispatch_request-IsAnswered raw p = answer_parsed-IsAnswered raw (parse_request server raw) p refl

  -- A message that is refused before it is dispatched gets an answer. It is no response exactly when
  -- the message looks like a notification, and otherwise a single response that carries its id.
  pub handle_failure-IsAnswered :
      (raw : Json) (error : Exception) → IsAnswered raw (handle_failure server raw error)
  unfolding handle_failure
  handle_failure-IsAnswered raw error =
      failure_response-IsAnswered raw error []
        (unfold bind_contracts contracts_of bind_from in refl)
