-- ===== src/Server/Dispatch/Batch.antt =====
-- `RpcServer.handle` and `handle_json` of rpckit/server.py: single messages and batches. The
-- members of a batch run concurrently; `asyncio.gather` returns their answers in the batch's order.
-- A member runs here to its own end; Dispatch/Bounded says what an interruption makes of it.
use pyrpckit.Prelude.{
  Bool-cases, List, Option, String, [], ap, arith, if◌then◌else◌, inl, inr, keep_if, length, ltb,
  map, none, not, refl, some, true, ◌==◌, ◌>>=◌, ◌||◌, ◌∙◌, ◌∷◌, ◌≡◌,
}
use pyrpckit.Json.{Items, Json, arr, items, str}
use pyrpckit.Errors.Types.{invalid_request, parse_error}
use pyrpckit.Wire.Envelope.{RequestId, no_id}
use pyrpckit.Wire.Inspect.{looks_like_notification, request_id}
use pyrpckit.Server.Response.{Response, response_id}
use pyrpckit.Server.Dispatch.{Server, dispatch_request, handle_failure, raised_rpc}
use pyrpckit.Server.Protocol.{IsProtocol}
use pyrpckit.Server.Dispatch.Answer.{
  IsAnswered, dispatch_request-IsAnswered, handle_failure-IsAnswered,
}

-- `RpcResponse | list[RpcResponse] | None`
pub data ResponseMessage (V : Type 0) : Type 0 where
  nothing : ResponseMessage V
  single : Response V → ResponseMessage V
  many : Response V → List (Response V) → ResponseMessage V

-- The ids under which the members of a batch must be answered, in order.
abbrev pub asked_ids : List Json → List RequestId
asked_ids raws = map request_id (keep_if (λ raw. not (looks_like_notification raw)) raws)

module _ {V : Type 0} where
  -- `asyncio.gather(...)`
  gather : (Json → Option (Option (Response V))) → List Json → Option (List (Option (Response V)))
  gather serve [] = some []
  gather serve (raw ∷ rest) = do
    response ← serve raw
    responses ← gather serve rest
    some (response ∷ responses)

  -- `[response for response in responses if response is not None]`
  unfoldable pub responses_given : List (Option (Response V)) → List (Response V)
  responses_given [] = []
  responses_given (none ∷ rest) = responses_given rest
  responses_given (some response ∷ rest) = response ∷ responses_given rest

  -- `... or None`
  or_nothing : List (Response V) → ResponseMessage V
  or_nothing [] = nothing
  or_nothing (response ∷ rest) = many response rest

  as_message : Option (Response V) → ResponseMessage V
  as_message none = nothing
  as_message (some response) = single response

module _ {V : Type 0} (server : Server V) where
  unfoldable pub handle : Json → Option (ResponseMessage V)
  unfolding gather or_nothing as_message responses_given
  handle (arr vs) =
      if length (items vs) == 0 || ltb server.max_batch_size (length (items vs))
      then (do
        response ← handle_failure server (arr vs) (raised_rpc invalid_request)
        some (as_message response))
      else (do
        responses ← gather (dispatch_request server) (items vs)
        some (or_nothing (responses_given responses)))
  handle raw = do response ← dispatch_request server raw; some (as_message response)

  -- `handle_json`, up to the encoding: `decode` is `json.loads`, which fails with a parse error.
  unfoldable pub handle_json : (String → Option Json) → String → Option (ResponseMessage V)
  unfolding as_message
  handle_json decode message = elim (decode message) [
    | none ↦ (do
      response ← handle_failure server (str message) (raised_rpc parse_error)
      some (as_message response))
    | some raw ↦ handle raw
  ]

  abbrev pub ids_of : ResponseMessage V → List RequestId
  ids_of nothing = []
  ids_of (single response) = response_id response ∷ []
  ids_of (many response rest) = response_id response ∷ map response_id rest

  ids_of-or_nothing : (rs : List (Response V)) → ids_of (or_nothing rs) ≡ map response_id rs
  unfolding or_nothing
  ids_of-or_nothing [] = refl
  ids_of-or_nothing (r ∷ rs) = refl

  gather_lem :
      (raws : List Json)
      → IsProtocol server.methods
      → (rs : List (Option (Response V))) × (gather (dispatch_request server) raws ≡ some rs)
        × (map response_id (responses_given rs) ≡ asked_ids raws)
  unfolding gather responses_given
  gather_lem [] p = ([], refl, refl)
  gather_lem (raw ∷ raws) p = joined (dispatch_request-IsAnswered server raw p) (gather_lem raws p)
    where
      joined :
          IsAnswered raw (dispatch_request server raw)
          → (rs : List (Option (Response V))) × (gather (dispatch_request server) raws ≡ some rs)
            × (map response_id (responses_given rs) ≡ asked_ids raws)
          → (rs : List (Option (Response V))) × (gather (dispatch_request server) (raw ∷ raws)
              ≡ some rs)
            × (map response_id (responses_given rs) ≡ asked_ids (raw ∷ raws))
      joined (none, e, quiet) (rs, es, ids) = (none ∷ rs, ground arith, rw quiet ids)
      joined (some r, e, (asked, same)) (rs, es, ids) = (some r ∷ rs, ground arith, ground arith)

  -- The server's methods form a protocol. A batch of an accepted size, whose members are not
  -- interrupted, is answered by one response for each member that is no notification, in the
  -- batch's order and under the members' ids, and by nothing when all are notifications; any other
  -- list by a single response without an id.
  pub handle_batch :
      (vs : Items)
      → IsProtocol server.methods
      → (m : ResponseMessage V) × (handle (arr vs) ≡ some m)
        × (ids_of m ≡ (
            if length (items vs) == 0 || ltb server.max_batch_size (length (items vs))
            then no_id ∷ []
            else asked_ids (items vs)))
  handle_batch vs p =
      elim (Bool-cases (length (items vs) == 0 || ltb server.max_batch_size (length (items vs)))) [
        | inl refused ↦
            refuse refused (handle_failure-IsAnswered server (arr vs) (raised_rpc invalid_request))
        | inr fits ↦
            let (rs, e, ids) = gather_lem (items vs) p in
            (
              or_nothing (responses_given rs),
              unfold handle in rw fits (rw e refl),
              rw fits (ids_of-or_nothing (responses_given rs) ∙ ids),
            )
      ]
    where
      refuse :
          (length (items vs) == 0 || ltb server.max_batch_size (length (items vs))) ≡ true
          → IsAnswered (arr vs) (handle_failure server (arr vs) (raised_rpc invalid_request))
          → (m : ResponseMessage V) × (handle (arr vs) ≡ some m)
            × (ids_of m ≡ (
                if length (items vs) == 0 || ltb server.max_batch_size (length (items vs))
                then no_id ∷ []
                else asked_ids (items vs)))
      refuse h (none, e, quiet) = absurd (unfold looks_like_notification in ground arith)
      refuse h (some r, e, (asked, same)) = (
        single r,
        unfold handle in rw h (rw e refl),
        rw h (ap (λ i. i ∷ []) (same ∙ (unfold request_id in refl))),
      )
