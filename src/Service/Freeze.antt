-- ===== src/Service/Freeze.antt =====
-- `RpcService.freeze` of rpckit/service.py: the protocol of all mounted channels. A channel's own
-- protocol (`channel.freeze()`) is a function of its number. The warning on shared `rpc_code`s has
-- no effect on the result and is left out.
pub mod Gather
pub mod Names
pub mod Sound
pub mod Frozen
use pyrpckit.Prelude.{
  Bool, List, Option, Result, String, [], err, false, if◌then◌else◌, map, none, ok, some, str_eq, ℕ,
  ◌++◌, ◌==◌, ◌||◌, ◌∷◌,
}
use pyrpckit.Errors.Types.{ErrorType}
use pyrpckit.Service.Endpoints.{Channel, same}

-- A method, event, subscription or client method; only methods use `request_name`.
pub record Operation : Type 0 where
  pub op_name : List ℕ
  pub op_request_name : List ℕ
  pub op_raises : List ErrorType
  -- `replace(item, server=endpoint.name)`
  pub op_server : List ℕ

-- `RpcProtocol`, of a channel or of a service. `types`, `streams` and `raws` are names.
pub record RpcProtocol : Type 0 where
  pub methods : List Operation
  pub notifications : List Operation
  pub subscriptions : List Operation
  pub client_methods : List Operation
  pub types : List (List ℕ)
  pub streams : List (List ℕ)
  pub raws : List (List ℕ)

pub data FreezeError : Type 0 where
  no_events duplicate_rpc_name duplicate_error_code namespace_conflict invalid_protocol :
      FreezeError

-- The local variables of `freeze`: what is gathered, `owners` and `errors`.
pub record Gathered : Type 0 where
  pub gathered : RpcProtocol
  pub owners : List (List ℕ × List ℕ)
  pub codes : List (String × ℕ)

abbrev pub empty_protocol : RpcProtocol
empty_protocol = record {
  methods = [];
  notifications = [];
  subscriptions = [];
  client_methods = [];
  types = [];
  streams = [];
  raws = [];
}

unfoldable pub owner_of : List ℕ → List (List ℕ × List ℕ) → Bool
owner_of name [] = false
owner_of name ((key, channel) ∷ rest) = same key name || owner_of name rest

-- `_unique_name`
unfoldable pub unique_name :
    List (List ℕ × List ℕ) → List ℕ → List ℕ → Result FreezeError (List (List ℕ × List ℕ))
unique_name owners name channel =
    if owner_of name owners then err duplicate_rpc_name else ok (owners ++ (name, channel) ∷ [])

unfoldable pub unique_names :
    List (List ℕ × List ℕ) → List (List ℕ) → List ℕ → Result FreezeError (List (List ℕ × List ℕ))
unique_names owners [] channel = ok owners
unique_names owners (name ∷ names) channel = elim (unique_name owners name channel) [
  | err refused ↦ err refused
  | ok more ↦ unique_names more names channel
]

unfoldable pub code_of : String → List (String × ℕ) → Option ℕ
code_of code [] = none
code_of code ((key, cls) ∷ rest) = if str_eq key code then some cls else code_of code rest

-- The loop over `method.raises`.
unfoldable pub add_codes :
    List (String × ℕ) → List ErrorType → Result FreezeError (List (String × ℕ))
add_codes codes [] = ok codes
add_codes codes (error ∷ errors) =
    let cls = error.error_class in
    let fresh = add_codes (codes ++ (cls.class_code, cls.ident) ∷ []) errors in
    let known = add_codes codes errors in
    elim (code_of cls.class_code codes) [
      | none ↦ fresh
      | some previous ↦ if previous == cls.ident then known else err duplicate_error_code
    ]

unfoldable pub all_raises : List Operation → List ErrorType
all_raises [] = []
all_raises (op ∷ ops) = op.op_raises ++ all_raises ops

abbrev pub op_names : List Operation → List (List ℕ)
op_names ops = map (λ op. op.op_name) ops

abbrev served_by : List ℕ → Operation → Operation
served_by server op = record op { op_server = server }

abbrev pub served : List ℕ → List Operation → List Operation
served server ops = map (served_by server) ops

-- The names that a channel registers, and the errors that its operations raise.
unfoldable pub channel_names : RpcProtocol → List (List ℕ)
channel_names p =
    op_names p.methods
    ++ op_names p.notifications
    ++ op_names p.subscriptions
    ++ op_names p.client_methods

unfoldable pub channel_raises : RpcProtocol → List ErrorType
unfolding all_raises
channel_raises p =
    all_raises p.methods
    ++ all_raises p.client_methods
    ++ all_raises p.notifications
    ++ all_raises p.subscriptions

-- What is gathered, with the operations of a channel.
unfoldable pub extended : List ℕ → RpcProtocol → RpcProtocol → RpcProtocol
extended server p before = record before {
  methods = before.methods ++ served server p.methods;
  notifications = before.notifications ++ served server p.notifications;
  subscriptions = before.subscriptions ++ served server p.subscriptions;
  client_methods = before.client_methods ++ served server p.client_methods;
  types = before.types ++ p.types;
}

abbrev pub gathered_as : RpcProtocol → List (List ℕ × List ℕ) → List (String × ℕ) → Gathered
gathered_as p owners codes = record { gathered = p; owners = owners; codes = codes }

-- The body of the loop over the channels of an `RpcEndpoint`.
unfoldable pub gather_channel :
    List ℕ → Channel → RpcProtocol → Gathered → Result FreezeError Gathered
unfolding channel_names channel_raises extended
gather_channel server channel p g =
    elim (unique_names g.owners (channel_names p) channel.channel_name) [
      | err refused ↦ err refused
      | ok owners ↦ elim (add_codes g.codes (channel_raises p)) [
        | err refused ↦ err refused
        | ok codes ↦ ok (gathered_as (extended server p g.gathered) owners codes)
      ]
    ]
