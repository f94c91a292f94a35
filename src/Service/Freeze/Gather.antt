-- ===== src/Service/Freeze/Gather.antt =====
-- The rest of `RpcService.freeze`: the loop over the endpoints, and the checks behind it.
use pyrpckit.Prelude.{
  Bool, List, Result, [], all, any, err, false, if◌then◌else◌, leb, ltb, map, not, ok, suc, true, ℕ,
  ◌&&◌, ◌++◌, ◌+◌, ◌-◌, ◌==◌, ◌∷◌,
}
use pyrpckit.Service.Endpoints.{
  Channel, Endpoint, EndpointKind, distinct, in_texts, raw_endpoint, rpc_endpoint, same,
  stream_endpoint,
}
use pyrpckit.Service.Freeze.{
  FreezeError, Gathered, Operation, RpcProtocol, empty_protocol, gather_channel, gathered_as,
  invalid_protocol, namespace_conflict, no_events, op_names, unique_name,
}
use pyrpckit.Errors.Bindings.{bind_contracts}
use pyrpckit.Errors.Declarations.{contracts_of}
use pyrpckit.Errors.Declarations.Compatible.{is_accepted}

module _ (channel_protocol : ℕ → RpcProtocol) where
  unfoldable pub gather_channels : List ℕ → List Channel → Gathered → Result FreezeError Gathered
  gather_channels server [] g = ok g
  gather_channels server (c ∷ channels) g =
      elim (gather_channel server c (channel_protocol c.channel_ident) g) [
        | err refused ↦ err refused
        | ok next ↦ gather_channels server channels next
      ]

  pub has_events : List Channel → Bool
  has_events channels = any (λ c. some_of (channel_protocol c.channel_ident).notifications) channels
    where
      some_of : List Operation → Bool
      some_of [] = false
      some_of (op ∷ ops) = true

  -- One more name, of a binary stream or a raw socket.
  unfoldable pub gather_name :
      List ℕ → Channel → (RpcProtocol → RpcProtocol) → Gathered → Result FreezeError Gathered
  gather_name name channel add g = elim (unique_name g.owners name channel.channel_name) [
    | err refused ↦ err refused
    | ok owners ↦ ok (gathered_as (add g.gathered) owners g.codes)
  ]

  unfoldable pub gather_kind : EndpointKind → List ℕ → Gathered → Result FreezeError Gathered
  unfolding has_events gather_name
  gather_kind (rpc_endpoint channels closes) server g =
      if closes && not (has_events channels)
      then err no_events
      else gather_channels server channels g
  gather_kind (stream_endpoint function name channel) server g =
      gather_name name channel (λ p. record p { streams = p.streams ++ name ∷ [] }) g
  gather_kind (raw_endpoint function name channel) server g =
      gather_name name channel (λ p. record p { raws = p.raws ++ name ∷ [] }) g

  unfoldable pub gather_endpoints : List Endpoint → Gathered → Result FreezeError Gathered
  gather_endpoints [] g = ok g
  gather_endpoints (e ∷ endpoints) g = elim (gather_kind e.kind e.name g) [
    | err refused ↦ err refused
    | ok next ↦ gather_endpoints endpoints next
  ]

-- `".".join(parts[:index])` for each index between the first and the last.
unfoldable pub namespaces : List ℕ → List ℕ → List (List ℕ)
namespaces read [] = []
namespaces read (c ∷ name) =
    let rest = namespaces (read ++ c ∷ []) name in if c == b'.' then read ∷ rest else rest

-- The loop over `all_names`: no name is a namespace of another.
unfoldable pub names_conflict : List (List ℕ) → Bool
unfolding namespaces
names_conflict names =
    any (λ name. any (λ prefix. in_texts prefix names) (namespaces [] name)) names

is_lower : ℕ → Bool
is_lower c = leb b'a' c && leb c b'z'

is_upper : ℕ → Bool
is_upper c = leb b'A' c && leb c b'Z'

-- `part.capitalize()`, joined over `wire_name.split(".")`; `first` is whether a part begins.
capitalized : Bool → List ℕ → List ℕ
unfolding is_lower is_upper
capitalized first [] = []
capitalized first (c ∷ name) =
    let here =
      if c == b'.'
      then []
      else if first && is_lower c
      then (c - 32) ∷ []
      else if not first && is_upper c
      then (c + 32) ∷ []
      else c ∷ [] in
    here ++ capitalized (c == b'.') name

request_suffix : List ℕ
request_suffix = b'R' ∷ b'e' ∷ b'q' ∷ b'u' ∷ b'e' ∷ b's' ∷ b't' ∷ []

-- `request_name` of rpckit/channel.py, on the ASCII names that channels accept.
unfoldable pub request_name : List ℕ → List ℕ
unfolding capitalized request_suffix
request_name wire_name = capitalized true wire_name ++ request_suffix

unfoldable pub text_count : List ℕ → List (List ℕ) → ℕ
text_count text [] = 0
text_count text (t ∷ texts) =
    let rest = text_count text texts in if same t text then suc rest else rest

-- Methods whose request name is taken twice get one from their full name.
unfoldable pub rename_requests : List (List ℕ) → List Operation → List Operation
unfolding text_count request_name
rename_requests taken [] = []
rename_requests taken (m ∷ ms) =
    let rest = rename_requests taken ms in
    if ltb 1 (text_count m.op_request_name taken)
    then record m { op_request_name = request_name m.op_name } ∷ rest
    else m ∷ rest

unfoldable pub with_requests : RpcProtocol → RpcProtocol
unfolding rename_requests
with_requests p = record p {
  methods = rename_requests (map (λ m. m.op_request_name) p.methods) p.methods;
}

-- The checks of `RpcProtocol.__init__`.
pub protocol_fits : RpcProtocol → Bool
protocol_fits p =
    distinct (op_names p.methods)
    && distinct (op_names p.notifications)
    && distinct (op_names p.subscriptions)
    && distinct p.types
    && distinct p.streams
    && distinct (op_names p.client_methods)
    && distinct p.raws
    && all (λ op. is_accepted (bind_contracts (contracts_of op.op_raises)))
        (p.methods ++ p.notifications ++ p.subscriptions)

abbrev pub nothing_gathered : Gathered
nothing_gathered = gathered_as empty_protocol [] []

-- The whole of `freeze` on a service that is not frozen yet.
unfoldable pub freeze : (ℕ → RpcProtocol) → List Endpoint → Result FreezeError RpcProtocol
unfolding gather_endpoints names_conflict with_requests protocol_fits
freeze channel_protocol endpoints =
    elim (gather_endpoints channel_protocol endpoints nothing_gathered) [
      | err refused ↦ err refused
      | ok g ↦
          if names_conflict (map (λ entry. entry.0) g.owners)
          then err namespace_conflict
          else if protocol_fits (with_requests g.gathered)
          then ok (with_requests g.gathered)
          else err invalid_protocol
    ]
