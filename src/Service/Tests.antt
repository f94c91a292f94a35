-- ===== src/Service/Tests.antt =====
-- Runs and witnesses of the theorems on services.
use pyrpckit.Errors.Rejects.{rejecting_contracts}
use pyrpckit.Errors.Bindings.{bind_contracts, bind_from}
use pyrpckit.Errors.Declarations.{contracts_of}
use Prim.Native.Char.{code}
use pyrpckit.Prelude.{List, String, [], arith, false, none, refl, some, ℕ, ◌↔◌, ◌∷◌, ◌≡◌, ◌≢◌, ◌≤◌}
use pyrpckit.Service.Templates.{pieces, substitute, variables}
use pyrpckit.Service.Matching.{groups, match_path, zip_strict}
use pyrpckit.Service.Matching.Instances.{IsInstance, matches-IsInstance}
use pyrpckit.Service.Matching.RoundTrip.{KeepsAscii, address, match_path-address, segmented}
use pyrpckit.Service.Endpoints.{
  Channel, Endpoint, distinct, endpoint_name, ends_with, in_texts, normalized, rpc_endpoint, same,
  validate_endpoint,
}
use pyrpckit.Service.Mounting.{
  Call, Options, call_freeze, call_socket, called, empty_service, run_calls,
}
use pyrpckit.Service.Mounting.Distinct.{IsRoutable, names}
use pyrpckit.Service.Mounting.Routable.{run_calls-IsRoutable}
use pyrpckit.Service.Routing.{match_service}
use pyrpckit.Service.Routing.Priority.{IsRouted, match_service-IsRouted}
use pyrpckit.Service.Routing.Static.{match_service-own_path}
use pyrpckit.Service.Freeze.{
  RpcProtocol, add_codes, empty_protocol, gather_channel, owner_of, unique_name, unique_names,
}
use pyrpckit.Service.Freeze.Gather.{freeze, gather_channels, gather_kind, text_count}
use pyrpckit.Service.Freeze.Names.{all_names}
use pyrpckit.Service.Freeze.Frozen.{NoNamespace, freeze-names}

abbrev text : String → List ℕ
text String.[] = []
text (String.◌∷◌ c s) = code c ∷ text s

abbrev ascii_codec : List ℕ → List ℕ
ascii_codec bytes = bytes

abbrev room_template : List ℕ
room_template = text "/rooms/{room}/feed"

abbrev feed_path : List ℕ
feed_path = text "/rooms/a%20b/feed"

matches-IsInstance_example :
    (groups (pieces room_template) feed_path ≢ none)
    ↔ ((vs : List (List ℕ)) × IsInstance (pieces room_template) vs feed_path)
matches-IsInstance_example = matches-IsInstance room_template feed_path

feed_groups : groups (pieces room_template) feed_path ≡ some (text "a%20b" ∷ [])
unfolding groups pieces
feed_groups = refl

slash_in_value : groups (pieces room_template) (text "/rooms/a/b/feed") ≡ none
unfolding groups pieces
slash_in_value = refl

newline_at_end : groups (pieces (text "/feed")) (text "/feed\n") ≡ some []
unfolding groups pieces
newline_at_end = refl

keeps_ascii : KeepsAscii ascii_codec
keeps_ascii bytes h = refl

match_path-address_example :
    match_path ascii_codec room_template (address ascii_codec room_template (text "a b" ∷ []))
    ≡ zip_strict (variables (pieces room_template)) (text "a b" ∷ [])
unfolding segmented pieces variables
match_path-address_example =
    match_path-address ascii_codec ascii_codec keeps_ascii room_template (text "a b" ∷ []) refl
      (((refl, refl), omega arith), tt) refl

fed : match_path ascii_codec room_template feed_path ≡ some ((text "room", text "a b") ∷ [])
unfolding match_path
fed = refl

abbrev chat : Channel
chat = record { channel_ident = 1; channel_name = text "chat" }

abbrev room_options : Options
room_options = record {
  given_path = room_template;
  given_name = none;
  given_subprotocol = none;
  given_rejects = [];
}

abbrev lobby_options : Options
lobby_options = record room_options {
  given_path = text "/rooms/lobby/feed";
  given_name = some (text "lobby");
}

abbrev calls : List Call
calls =
    call_socket room_options none (chat ∷ []) false
    ∷ call_socket lobby_options none (chat ∷ []) false
    ∷ call_freeze
    ∷ []

empty-IsRoutable : IsRoutable empty_service
unfolding distinct
empty-IsRoutable = record { distinct_names = refl; distinct_paths = refl; all_accepted = refl }

run_calls-IsRoutable_example : IsRoutable (run_calls empty_service calls)
run_calls-IsRoutable_example = run_calls-IsRoutable empty_service calls empty-IsRoutable

mounted_names : names (run_calls empty_service calls) ≡ text "feed" ∷ []
unfolding run_calls called validate_endpoint same variables pieces substitute endpoint_name
    rejecting_contracts bind_contracts bind_from
mounted_names = refl

abbrev room : Endpoint
room = record {
  name = text "feed";
  path = room_template;
  kind = rpc_endpoint (chat ∷ []) false;
  subprotocol = none;
  path_variables = text "room" ∷ [];
  rejects = [];
}

abbrev lobby : Endpoint
lobby = record room { name = text "lobby"; path = text "/rooms/lobby/feed"; path_variables = [] }

abbrev endpoints : List Endpoint
endpoints = room ∷ lobby ∷ []

match_service-IsRouted_example :
    IsRouted ascii_codec endpoints feed_path (match_service ascii_codec endpoints feed_path)
match_service-IsRouted_example = match_service-IsRouted ascii_codec endpoints feed_path

match_service-own_path_example : match_service ascii_codec endpoints lobby.path ≡ some (lobby, [])
unfolding distinct normalized pieces substitute ends_with same
match_service-own_path_example =
    match_service-own_path ascii_codec (room ∷ []) [] lobby refl refl refl

room_is_found :
    match_service ascii_codec endpoints feed_path ≡ some (room, (text "room", text "a b") ∷ [])
unfolding match_service
room_is_found = refl

abbrev chat_protocol : RpcProtocol
chat_protocol = record empty_protocol {
  methods =
      record {
        op_name = text "chat.send";
        op_request_name = text "SendRequest";
        op_raises = [];
        op_server = [];
      }
      ∷ [];
}

abbrev frozen_chat : RpcProtocol
frozen_chat = record empty_protocol {
  methods =
      record {
        op_name = text "chat.send";
        op_request_name = text "SendRequest";
        op_raises = [];
        op_server = text "feed";
      }
      ∷ [];
}

freeze-names_example :
    ((name : List ℕ) → text_count name (all_names frozen_chat) ≤ 1)
    × NoNamespace (all_names frozen_chat)
unfolding freeze gather_kind gather_channels gather_channel unique_names unique_name owner_of
    add_codes in_texts same distinct bind_contracts bind_from contracts_of
freeze-names_example = freeze-names (λ n. chat_protocol) (room ∷ []) frozen_chat refl
