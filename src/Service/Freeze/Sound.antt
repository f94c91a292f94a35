-- ===== src/Service/Freeze/Sound.antt =====
-- The loops of `freeze` keep the tally of the names.
use pyrpckit.Prelude.{
  Bool-cases, List, Result-cases, [], ap, arith, inl, inr, not, ok, subst, sym, ℕ, ◌&&◌, ◌++◌, ◌+◌,
  ◌∙◌, ◌∷◌, ◌≡◌,
}
use pyrpckit.Service.Endpoints.{
  Channel, Endpoint, EndpointKind, raw_endpoint, rpc_endpoint, stream_endpoint,
}
use pyrpckit.Service.Freeze.{
  Gathered, RpcProtocol, add_codes, channel_names, channel_raises, extended, gather_channel,
  gathered_as, op_names, unique_name, unique_names,
}
use pyrpckit.Service.Freeze.Gather.{
  gather_channels, gather_endpoints, gather_kind, gather_name, has_events, text_count,
}
use pyrpckit.Service.Freeze.Names.{
  IsTally, count-served, tally, text_count-append, unique_name-Taken, unique_names-Taken,
}

count-channel_names :
    (n : List ℕ) (p : RpcProtocol)
    → text_count n (channel_names p)
      ≡ text_count n (op_names p.methods)
        + text_count n (op_names p.notifications)
        + text_count n (op_names p.subscriptions)
        + text_count n (op_names p.client_methods)
unfolding channel_names
count-channel_names n p =
    let a = op_names p.methods in
    let b = a ++ op_names p.notifications in
    omega (
      arith,
      text_count-append n a (op_names p.notifications),
      text_count-append n b (op_names p.subscriptions),
      text_count-append n (b ++ op_names p.subscriptions) (op_names p.client_methods),
    )

tally-extended :
    (n server : List ℕ) (p before : RpcProtocol)
    → tally n (extended server p before) ≡ tally n before + text_count n (channel_names p)
unfolding extended tally
tally-extended n server p before = omega (
  arith,
  count-served n server before.methods p.methods,
  count-served n server before.notifications p.notifications,
  count-served n server before.subscriptions p.subscriptions,
  count-served n server before.client_methods p.client_methods,
  count-channel_names n p,
)

-- The result of a channel whose names and codes are accepted.
gathered_from :
    (server : List ℕ) (channel : Channel) (p : RpcProtocol) (g next : Gathered)
    → gather_channel server channel p g ≡ ok next
    → (unique_names g.owners (channel_names p) channel.channel_name ≡ ok next.owners)
      × (add_codes g.codes (channel_raises p) ≡ ok next.codes)
      × (next.gathered ≡ extended server p g.gathered)
unfolding gather_channel
gathered_from server channel p g next h =
    elim (Result-cases (unique_names g.owners (channel_names p) channel.channel_name)) [
      | inl (refused, m) ↦ absurd (ground (arith, h, m))
      | inr (owners, m) ↦ elim (Result-cases (add_codes g.codes (channel_raises p))) [
        | inl (refused, k) ↦ absurd (ground (arith, h, m, k))
        | inr (codes, k) ↦
            let is : gathered_as (extended server p g.gathered) owners codes ≡ next =
              ground (arith, h, m, k) in
            (
              m ∙ ap (λ t. ok t.owners) is,
              k ∙ ap (λ t. ok t.codes) is,
              ap (λ t. t.gathered) (sym is),
            )
      ]
    ]

gather_channel-IsTally :
    (server : List ℕ) (channel : Channel) (p : RpcProtocol) (g next : Gathered)
    → IsTally g
    → gather_channel server channel p g ≡ ok next
    → IsTally next
gather_channel-IsTally server channel p g next (u, t) h =
    let (names, codes, is) = gathered_from server channel p g next h in
    let (u', t') =
      unique_names-Taken g.owners next.owners (channel_names p) channel.channel_name u names in
    (u', λ n. omega (arith, t n, t' n, tally-extended n server p g.gathered, ap (tally n) is))

gather_channels-IsTally :
    (channel_protocol : ℕ → RpcProtocol) (server : List ℕ) (channels : List Channel)
    (g next : Gathered)
    → IsTally g
    → gather_channels channel_protocol server channels g ≡ ok next
    → IsTally next
unfolding gather_channels
gather_channels-IsTally channel_protocol server [] g next t h =
    let is : g ≡ next = ground (arith, h) in subst (λ x. IsTally x) is t
gather_channels-IsTally channel_protocol server (c ∷ channels) g next t h =
    let deeper =
      λ (mid : Gathered). gather_channels-IsTally channel_protocol server channels mid next in
    elim (Result-cases (gather_channel server c (channel_protocol c.channel_ident) g)) [
      | inl (refused, m) ↦ absurd (ground (arith, h, m))
      | inr (mid, m) ↦
          deeper mid (gather_channel-IsTally server c (channel_protocol c.channel_ident) g mid t m)
            (ground (arith, h, m))
    ]

gather_name-IsTally :
    (channel_protocol : ℕ → RpcProtocol) (name : List ℕ) (channel : Channel)
    (add : RpcProtocol → RpcProtocol) (g next : Gathered)
    → ((n : List ℕ) (p : RpcProtocol) → tally n (add p) ≡ tally n p + text_count n (name ∷ []))
    → IsTally g
    → gather_name channel_protocol name channel add g ≡ ok next
    → IsTally next
unfolding gather_name
gather_name-IsTally channel_protocol name channel add g next adds (u, t) h =
    elim (Result-cases (unique_name g.owners name channel.channel_name)) [
      | inl (refused, m) ↦ absurd (ground (arith, h, m))
      | inr (owners, m) ↦
          let is : gathered_as (add g.gathered) owners g.codes ≡ next = ground (arith, h, m) in
          let (u', t') = unique_name-Taken g.owners owners name channel.channel_name u m in
          subst (λ x. IsTally x) is (u', λ n. omega (arith, t n, t' n, adds n g.gathered))
    ]

tally-stream :
    (name n : List ℕ) (p : RpcProtocol)
    → tally n (record p { streams = p.streams ++ name ∷ [] }) ≡ tally n p + text_count n (name ∷ [])
unfolding tally
tally-stream name n p = omega (arith, text_count-append n p.streams (name ∷ []))

tally-raw :
    (name n : List ℕ) (p : RpcProtocol)
    → tally n (record p { raws = p.raws ++ name ∷ [] }) ≡ tally n p + text_count n (name ∷ [])
unfolding tally
tally-raw name n p = omega (arith, text_count-append n p.raws (name ∷ []))

gather_kind-IsTally :
    (channel_protocol : ℕ → RpcProtocol) (kind : EndpointKind) (server : List ℕ) (g next : Gathered)
    → IsTally g
    → gather_kind channel_protocol kind server g ≡ ok next
    → IsTally next
unfolding gather_kind
gather_kind-IsTally channel_protocol (rpc_endpoint channels closes) server g next t h =
    elim (Bool-cases (closes && not (has_events channel_protocol channels))) [
      | inl e ↦ absurd (ground (arith, h, e))
      | inr e ↦
          gather_channels-IsTally channel_protocol server channels g next t (ground (arith, h, e))
    ]
gather_kind-IsTally channel_protocol (stream_endpoint function name channel) server g next t h =
    gather_name-IsTally channel_protocol name channel
      (λ p. record p { streams = p.streams ++ name ∷ [] }) g next (λ n p. tally-stream name n p) t h
gather_kind-IsTally channel_protocol (raw_endpoint function name channel) server g next t h =
    gather_name-IsTally channel_protocol name channel (λ p. record p { raws = p.raws ++ name ∷ [] })
      g next (λ n p. tally-raw name n p) t h

pub gather_endpoints-IsTally :
    (channel_protocol : ℕ → RpcProtocol) (endpoints : List Endpoint) (g next : Gathered)
    → IsTally g
    → gather_endpoints channel_protocol endpoints g ≡ ok next
    → IsTally next
unfolding gather_endpoints
gather_endpoints-IsTally channel_protocol [] g next t h =
    let is : g ≡ next = ground (arith, h) in subst (λ x. IsTally x) is t
gather_endpoints-IsTally channel_protocol (e ∷ endpoints) g next t h =
    let deeper = λ (mid : Gathered). gather_endpoints-IsTally channel_protocol endpoints mid next in
    elim (Result-cases (gather_kind channel_protocol e.kind e.name g)) [
      | inl (refused, m) ↦ absurd (ground (arith, h, m))
      | inr (mid, m) ↦
          deeper mid (gather_kind-IsTally channel_protocol e.kind e.name g mid t m)
            (ground (arith, h, m))
    ]
