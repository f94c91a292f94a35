-- ===== src/Codegen/Tests.antt =====
-- Runs and witnesses of the theorems on namespaces and casing.
use pyrpckit.Codegen.Merge.{
  ClientView, StreamDecl, binary_stream, client_view, content_of, place_streams,
}
use pyrpckit.Codegen.Merge.Complete.{client_view-shown, content_at, declared_at}
use pyrpckit.Codegen.Casing.{
  acronyms, camel_case, capitalized, capitalized_all, humps, in_word, is_digit, is_lower, is_upper,
  lower, pascal_case, snake_case, split_parts, underscored, upper, words,
}
use pyrpckit.Codegen.Casing.Canonical.{snake_case-canonical}
use pyrpckit.Prelude.{List, String, [], refl, some, ℕ, ◌++◌, ◌∷◌, ◌≡◌}
use pyrpckit.Codegen.Tree.{leaf, no_nodes, node, stream_tree, view_node}
use pyrpckit.Codegen.Tree.Lookup.{nodes_at}
use pyrpckit.Codegen.View.{Aliases, ApiView, ClientIr, Decl, api_view, event_view, visible_path}
use pyrpckit.Codegen.View.Shown.{api_view-shown, shown_at}

abbrev post : Decl
post = record { path = "chat" ∷ "rooms" ∷ []; decl_ident = 1 }

abbrev send : Decl
send = record { path = "chat" ∷ []; decl_ident = 2 }

abbrev ir : ClientIr
ir = record {
  api = node "chat" ("chat" ∷ []) [] leaf leaf;
  root_operations = [];
  operations = post ∷ send ∷ [];
  notifications = [];
}

abbrev renamed : Aliases
renamed = ("rooms", "lobby") ∷ []

abbrev shown_view : ApiView
shown_view = record {
  shown_at_root = [];
  nodes =
      view_node "chat" ("chat" ∷ []) ("chat" ∷ []) (send ∷ [])
        (view_node "lobby" ("chat" ∷ "lobby" ∷ []) ("chat" ∷ "rooms" ∷ []) (post ∷ []) no_nodes
          no_nodes)
        no_nodes;
}

api_view-shown_example :
    (shown_view.shown_at_root ≡ [] ++ shown_at [] renamed [] (post ∷ send ∷ []))
    × (nodes_at ("chat" ∷ "lobby" ∷ []) shown_view.nodes
        ≡ shown_at [] renamed ("chat" ∷ "lobby" ∷ []) (post ∷ send ∷ []))
unfolding api_view
api_view-shown_example = api_view-shown [] renamed ir shown_view "chat" ("lobby" ∷ []) refl

below_the_root : (visible_path ("chat" ∷ []) [] ("chat" ∷ "rooms" ∷ [])).1 ≡ "rooms" ∷ []
unfolding visible_path
below_the_root = refl

-- "HTTPServerId2Go"
abbrev http_server : List ℕ
http_server =
    b'H' ∷ b'T' ∷ b'T' ∷ b'P' ∷ b'S' ∷ b'e' ∷ b'r' ∷ b'v' ∷ b'e' ∷ b'r' ∷ b'I' ∷ b'd' ∷ b'2' ∷ b'G'
    ∷ b'o' ∷ []

http_server_cases :
    (snake_case http_server
      ≡ b'h' ∷ b't' ∷ b't' ∷ b'p' ∷ b'_' ∷ b's' ∷ b'e' ∷ b'r' ∷ b'v' ∷ b'e' ∷ b'r' ∷ b'_' ∷ b'i'
        ∷ b'd' ∷ b'2' ∷ b'_' ∷ b'g' ∷ b'o' ∷ [])
    × (camel_case http_server
        ≡ b'h' ∷ b't' ∷ b't' ∷ b'p' ∷ b'S' ∷ b'e' ∷ b'r' ∷ b'v' ∷ b'e' ∷ b'r' ∷ b'I' ∷ b'd' ∷ b'2'
          ∷ b'G' ∷ b'o' ∷ [])
unfolding snake_case camel_case words acronyms humps split_parts underscored capitalized_all
    capitalized lower upper in_word is_upper is_lower is_digit
http_server_cases = (refl, refl)

snake_case-canonical_example :
    (snake_case (snake_case http_server) ≡ snake_case http_server)
    × ((camel_case (snake_case http_server) ≡ camel_case http_server)
        × (pascal_case (snake_case http_server) ≡ pascal_case http_server))
snake_case-canonical_example = snake_case-canonical http_server

abbrev feed : StreamDecl
feed = binary_stream (record { path = "chat" ∷ "feed" ∷ []; decl_ident = 3 })

client_view-shown_example :
    (view : ClientView) × (client_view ir [] renamed (feed ∷ []) ≡ some view)
    × (view.root_operations ≡ shown_view.shown_at_root)
    × (view.root_events ≡ (event_view ir [] renamed).shown_at_root)
    × ((q : List String)
        → content_at q view.namespaces
          ≡ content_of
              (declared_at q shown_view.nodes)
              (declared_at q (event_view ir [] renamed).nodes)
              (declared_at q (stream_tree (place_streams [] (feed ∷ [])).1)))
unfolding api_view
client_view-shown_example = client_view-shown ir [] renamed (feed ∷ []) shown_view refl
