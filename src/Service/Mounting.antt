-- ===== src/Service/Mounting.antt =====
-- `RpcService.socket`, `stream` and `raw_socket` of rpckit/service.py: they mount an endpoint. The
-- limits, mappers and hooks of an endpoint are carried to the runtime and are left out here.
pub mod Distinct
pub mod Routable
use pyrpckit.Prelude.{
  Bool, List, Option, Result, [], all, any, err, false, if◌then◌else◌, map, none, not, ok, some,
  true, ℕ, ◌&&◌, ◌++◌, ◌==◌, ◌∷◌,
}
use pyrpckit.Connection.Rejection.{mem_num}
use pyrpckit.Errors.Types.{ErrorBinding}
use pyrpckit.Errors.Rejects.{rejecting_contracts}
use pyrpckit.Service.Endpoints.{
  Channel, Endpoint, EndpointKind, Refusal, channel_mounted, distinct, duplicate_channels, frozen,
  handler_mounted, in_texts, invalid_rejects, no_channels, not_decorated, not_path_variables,
  path_model_fields, raw_endpoint, rpc_endpoint, stream_endpoint, validate_endpoint,
}

pub record Service : Type 0 where
  pub endpoints : List Endpoint
  pub channels : List Channel
  pub mounted_streams : List ℕ
  pub mounted_raw_sockets : List ℕ
  -- `_protocol` is not `None`
  pub is_frozen : Bool

abbrev pub empty_service : Service
empty_service = record {
  endpoints = [];
  channels = [];
  mounted_streams = [];
  mounted_raw_sockets = [];
  is_frozen = false;
}

-- What `socket`, `stream` and `raw_socket` have in common.
pub record Options : Type 0 where
  pub given_path : List ℕ
  pub given_name : Option (List ℕ)
  pub given_subprotocol : Option (List ℕ)
  pub given_rejects : List (Option ErrorBinding)

-- A function decorated by `@channel.server.stream` or `raw_socket`.
pub record Handler : Type 0 where
  pub function : ℕ
  pub handler_name : List ℕ
  pub owner : Channel
  pub path_parameters : List (List ℕ)

abbrev is_mounted : List Channel → Channel → Bool
is_mounted channels channel = any (λ c. c.channel_ident == channel.channel_ident) channels

-- `self._channels.add(channel)`
pub add_channel : List Channel → Channel → List Channel
add_channel channels channel =
    if is_mounted channels channel then channels else channels ++ channel ∷ []

pub fold_channels : List Channel → List Channel → List Channel
unfolding add_channel
fold_channels channels [] = channels
fold_channels channels (c ∷ more) = fold_channels (add_channel channels c) more

-- `set(path_model.model_fields) != set(variables)`
same_set : List (List ℕ) → List (List ℕ) → Bool
same_set xs ys = all (λ x. in_texts x ys) xs && all (λ y. in_texts y xs) ys

abbrev fields_match : Option (List (List ℕ)) → List (List ℕ) → Bool
fields_match none variables = true
fields_match (some fields) variables = same_set fields variables

abbrev pub endpoint_of :
    Options → List (List ℕ) × List ℕ → EndpointKind → List ErrorBinding → Endpoint
endpoint_of options (variables, chosen) kind rejects = record {
  name = chosen;
  path = options.given_path;
  kind = kind;
  subprotocol = options.given_subprotocol;
  path_variables = variables;
  rejects = rejects;
}

-- The common guard of the three: the service is mutable and the endpoint is valid.
unfoldable pub open_endpoint : Service → Options → Result Refusal (List (List ℕ) × List ℕ)
open_endpoint service options =
    if service.is_frozen
    then err frozen
    else validate_endpoint service.endpoints options.given_path options.given_name
        options.given_subprotocol

-- The last step: the `rejects=` are checked and the endpoint is appended.
unfoldable pub append_endpoint :
    Service → Options → List (List ℕ) × List ℕ → EndpointKind → Result Refusal Service
append_endpoint service options valid kind = elim (rejecting_contracts options.given_rejects) [
  | none ↦ err invalid_rejects
  | some rejects ↦ ok (record service {
    endpoints = service.endpoints ++ endpoint_of options valid kind rejects ∷ [];
  })
]

channel_names : List Channel → List (List ℕ)
channel_names channels = map (λ c. c.channel_name) channels

-- What the three share: the guards of an endpoint, those of what it serves, and the appending.
unfoldable pub mount :
    Service
    → Options
    → EndpointKind
    → (List (List ℕ) → Option Refusal)
    → (Service → Service)
    → Result Refusal Service
mount service options kind refusal record_mounted = elim (open_endpoint service options) [
  | err refused ↦ err refused
  | ok (vars, chosen) ↦ elim (refusal vars) [
    | some refused ↦ err refused
    | none ↦ elim (append_endpoint service options (vars, chosen) kind) [
      | err refused ↦ err refused
      | ok mounted ↦ ok (record_mounted mounted)
    ]
  ]
]

-- The guards of `socket` on its `path_model` and channels.
pub socket_refusal :
    Service → Option (List (List ℕ)) → List Channel → List (List ℕ) → Option Refusal
unfolding same_set channel_names
socket_refusal service path_model mounts vars =
    if not (fields_match path_model vars) then some path_model_fields else elim mounts [
      | [] ↦ some no_channels
      | first ∷ more ↦
          if any (is_mounted service.channels) (first ∷ more)
          then some channel_mounted
          else if not (distinct (channel_names service.channels ++ channel_names (first ∷ more)))
          then some duplicate_channels
          else none
    ]

unfoldable pub socket :
    Service → Options → Option (List (List ℕ)) → List Channel → Bool → Result Refusal Service
unfolding open_endpoint append_endpoint mount fold_channels socket_refusal
socket service options path_model mounts closes =
    mount service options (rpc_endpoint mounts closes) (socket_refusal service path_model mounts)
      (λ mounted. record mounted { channels = fold_channels mounted.channels mounts })

-- The guards of `stream` and `raw_socket` on the decorated function.
pub handler_refusal : List ℕ → Handler → List (List ℕ) → Option Refusal
handler_refusal already handler vars =
    if mem_num handler.function already
    then some handler_mounted
    else if not (all (λ p. in_texts p vars) handler.path_parameters)
    then some not_path_variables
    else none

-- A function without the marker of its decorator.
abbrev pub undecorated : Service → Options → Result Refusal Service
undecorated service options = elim (open_endpoint service options) [
  | err refused ↦ err refused
  | ok valid ↦ err not_decorated
]

unfoldable pub stream : Service → Options → Option Handler → Result Refusal Service
unfolding open_endpoint append_endpoint mount add_channel handler_refusal
stream service options none = undecorated service options
stream service options (some h) =
    mount service options (stream_endpoint h.function h.handler_name h.owner)
      (handler_refusal service.mounted_streams h)
      (λ mounted. record mounted {
        channels = add_channel mounted.channels h.owner;
        mounted_streams = h.function ∷ mounted.mounted_streams;
      })

unfoldable pub raw_socket : Service → Options → Option Handler → Result Refusal Service
unfolding open_endpoint append_endpoint mount add_channel handler_refusal
raw_socket service options none = undecorated service options
raw_socket service options (some h) =
    mount service options (raw_endpoint h.function h.handler_name h.owner)
      (handler_refusal service.mounted_raw_sockets h)
      (λ mounted. record mounted {
        channels = add_channel mounted.channels h.owner;
        mounted_raw_sockets = h.function ∷ mounted.mounted_raw_sockets;
      })

-- A call by the application; one that raises leaves the service as it is.
pub data Call : Type 0 where
  call_socket : Options → Option (List (List ℕ)) → List Channel → Bool → Call
  call_stream call_raw_socket : Options → Option Handler → Call
  -- a successful `freeze`, which sets `_protocol`
  call_freeze : Call

abbrev pub outcome : Service → Result Refusal Service → Service
outcome service (ok after) = after
outcome service (err refused) = service

unfoldable pub called : Service → Call → Service
unfolding socket stream raw_socket
called service (call_socket options path_model mounts closes) =
    outcome service (socket service options path_model mounts closes)
called service (call_stream options handler) = outcome service (stream service options handler)
called service (call_raw_socket options handler) =
    outcome service (raw_socket service options handler)
called service call_freeze = record service { is_frozen = true }

unfoldable pub run_calls : Service → List Call → Service
run_calls service [] = service
run_calls service (call ∷ calls) = run_calls (called service call) calls
