-- ===== src/Codegen/Merge.antt =====
-- `client_view` and `_merge_nodes` of rpckit/codegen/names.py: the nodes of operations, events and streams become the
-- namespaces of the client. The recursion is on fuel; the height of the trees is enough.
pub mod Complete
use pyrpckit.Prelude.{
  List, Option, String, [], if◌then◌else◌, leb, none, some, str_eq, suc, zero, ℕ, ◌++◌, ◌∷◌,
}
use pyrpckit.Codegen.Tree.{Nodes, Projected, no_nodes, stream_tree, view_node}
use pyrpckit.Codegen.View.{
  Aliases, ApiView, ClientIr, Decl, api_view, below_root, event_view, mem_text,
}

-- `BinaryStreamDecl | RawSocketDecl`
pub data StreamDecl : Type 0 where
  binary_stream raw_stream : Decl → StreamDecl

-- What a `NamespaceViewNode` holds besides its place and its children.
pub record Content : Type 0 where
  pub operations : List Decl
  pub events : List Decl
  pub binary_streams : List Decl
  pub raw_streams : List Decl

-- A tuple of `NamespaceViewNode`s: the segment, the path and the source path of the first, its
-- content and its children, and the other nodes.
pub data Namespaces : Type 0 where
  no_namespaces : Namespaces
  namespace : String → List String → List String → Content → Namespaces → Namespaces → Namespaces

-- A node that is found by its segment.
pub record Found {ℓ} (A : Type ℓ) : Type ℓ where
  pub found_path : List String
  pub found_source : List String
  pub items : List A
  pub children : Nodes A

module _ {ℓ} {A : Type ℓ} where
  -- `{node.segment: node for node in nodes}.get(segment)`: the last one stays.
  unfoldable pub find_node : String → Nodes A → Option (Found A)
  find_node segment no_nodes = none
  find_node segment (view_node key path source items children rest) =
      let here : Found A = record {
        found_path = path;
        found_source = source;
        items = items;
        children = children;
      } in
      elim (find_node segment rest) [
        | some later ↦ some later
        | none ↦ if str_eq key segment then some here else none
      ]

  unfoldable pub keys : Nodes A → List String
  keys no_nodes = []
  keys (view_node key path source items children rest) = key ∷ keys rest

  abbrev pub items_of : Option (Found A) → List A
  items_of none = []
  items_of (some found) = found.items

  abbrev pub children_below : Option (Found A) → Nodes A
  children_below none = no_nodes
  children_below (some found) = found.children

  abbrev pub place_of : Option (Found A) → List String × List String → List String × List String
  place_of none other = other
  place_of (some found) other = (found.found_path, found.found_source)

-- `_binary`
unfoldable pub binaries : List StreamDecl → List Decl
binaries [] = []
binaries (binary_stream d ∷ items) = d ∷ binaries items
binaries (raw_stream d ∷ items) = binaries items

-- `_raw`
unfoldable pub raws : List StreamDecl → List Decl
raws [] = []
raws (binary_stream d ∷ items) = raws items
raws (raw_stream d ∷ items) = d ∷ raws items

-- `dict.fromkeys`, behind the segments that were seen
unfoldable pub from_keys : List String → List String → List String
from_keys seen [] = []
from_keys seen (segment ∷ segments) =
    let more = from_keys seen segments in
    let fresh = from_keys (segment ∷ seen) segments in
    if mem_text segment seen then more else segment ∷ fresh

abbrev pub content_of : List Decl → List Decl → List StreamDecl → Content
content_of operations events streams = record {
  operations = operations;
  events = events;
  binary_streams = binaries streams;
  raw_streams = raws streams;
}

module _ (routes events : Nodes Decl) (streams : Nodes StreamDecl)
    (merge_children : Nodes Decl → Nodes Decl → Nodes StreamDecl → Namespaces) where
  -- The loop over the segments.
  unfoldable pub merge_segments : List String → Namespaces
  unfolding find_node binaries raws
  merge_segments [] = no_namespaces
  merge_segments (segment ∷ segments) =
      let route = find_node segment routes in
      let event = find_node segment events in
      let stream = find_node segment streams in
      let (path, source) = place_of route (place_of event (place_of stream ([], []))) in
      namespace segment path source (content_of (items_of route) (items_of event) (items_of stream))
        (merge_children (children_below route) (children_below event) (children_below stream))
        (merge_segments segments)

unfoldable pub merge_nodes : ℕ → Nodes Decl → Nodes Decl → Nodes StreamDecl → Namespaces
unfolding merge_segments from_keys keys
merge_nodes zero routes events streams = no_namespaces
merge_nodes (suc n) routes events streams =
    merge_segments routes events streams (merge_nodes n)
      (from_keys [] (keys routes ++ (keys events ++ keys streams)))

unfoldable pub max : ℕ → ℕ → ℕ
max m n = if leb m n then n else m

unfoldable pub height {ℓ} : {A : Type ℓ} → Nodes A → ℕ
unfolding max
height no_nodes = 0
height (view_node key path source items children rest) = max (suc (height children)) (height rest)

pub record ClientView : Type 0 where
  pub root_operations : List Decl
  pub root_events : List Decl
  pub root_streams : List Decl
  pub root_raw_sockets : List Decl
  pub namespaces : Namespaces

stream_path : StreamDecl → List String
stream_path (binary_stream d) = d.path
stream_path (raw_stream d) = d.path

abbrev placed_stream :
    StreamDecl
    → List String
    → List StreamDecl × Projected StreamDecl
    → List StreamDecl × Projected StreamDecl
placed_stream stream [] (at_root, projected) = (stream ∷ at_root, projected)
placed_stream stream (s ∷ visible) (at_root, projected) =
    (at_root, (s ∷ visible, stream_path stream, stream) ∷ projected)

-- The loop over `(*ir.binary_streams, *ir.raw_sockets)`.
unfoldable pub place_streams :
    List String → List StreamDecl → List StreamDecl × Projected StreamDecl
unfolding stream_path
place_streams root [] = ([], [])
place_streams root (stream ∷ streams) =
    placed_stream stream (below_root root (stream_path stream)) (place_streams root streams)

-- The view that `client_view` returns.
unfoldable pub merged_view : ApiView → ApiView → List StreamDecl × Projected StreamDecl → ClientView
unfolding merge_nodes height
merged_view routes events (at_root, projected) =
    let tree = stream_tree projected in
    record {
      root_operations = routes.shown_at_root;
      root_events = events.shown_at_root;
      root_streams = binaries at_root;
      root_raw_sockets = raws at_root;
      namespaces =
          merge_nodes (max (height routes.nodes) (max (height events.nodes) (height tree)))
            routes.nodes events.nodes tree;
    }

-- `none` is the `UnsupportedSchemaError` of `api_view`.
unfoldable pub client_view : ClientIr → List String → Aliases → List StreamDecl → Option ClientView
unfolding place_streams merged_view
client_view ir root aliases streams = elim (api_view ir root aliases) [
  | none ↦ none
  | some routes ↦
      some (merged_view routes (event_view ir root aliases) (place_streams root streams))
]
