-- ===== src/Codegen/Tree.antt =====
-- `_view_tree`, `_event_tree` and `_stream_tree` of rpckit/codegen/names.py, which are one algorithm
-- for three kinds of declarations, and the nodes that are made of the tree.
pub mod Lookup
use pyrpckit.Prelude.{
  List, String, [], if◌then◌else◌, length, str_eq, suc, zero, ℕ, ◌++◌, ◌+◌, ◌-◌, ◌∷◌,
}

-- `dict[str, node]` in insertion order: the first node with its children, and the other nodes.
pub data Tree {ℓ} (A : Type ℓ) : Type ℓ where
  leaf : Tree A
  node : String → List String → List A → Tree A → Tree A → Tree A

-- The frozen nodes, which know their path.
pub data Nodes {ℓ} (A : Type ℓ) : Type ℓ where
  no_nodes : Nodes A
  view_node : String → List String → List String → List A → Nodes A → Nodes A → Nodes A

abbrev pub take {ℓ} : {A : Type ℓ} → ℕ → List A → List A
take zero xs = []
take (suc n) [] = []
take (suc n) (x ∷ xs) = x ∷ take n xs

-- `(visible_path, source_path, declaration)`
abbrev pub Projected {ℓ} : Type ℓ → Type ℓ
Projected A = List (List String × List String × A)

module _ {ℓ} {A : Type ℓ} where
  -- `if index == len(visible_path) - 1: operations.append(route)`
  abbrev pub added : List String → A → List A
  added [] item = item ∷ []
  added (segment ∷ path) item = []

  -- The nodes that `setdefault` makes where the tree ends. The first takes `n` segments of the
  -- source path.
  unfoldable pub branch : List String → List String → ℕ → A → Tree A
  branch [] source n item = leaf
  branch (segment ∷ path) source n item =
      node segment (take n source) (added path item) (branch path source (suc n) item) leaf

  -- The loop over the segments of one declaration.
  unfoldable pub insert : List String → List String → ℕ → A → Tree A → Tree A
  unfolding branch
  insert [] source n item tree = tree
  insert (segment ∷ path) source n item leaf = branch (segment ∷ path) source n item
  insert (segment ∷ path) source n item (node key from items children rest) =
      let inside = insert path source (suc n) item children in
      let beside = insert (segment ∷ path) source n item rest in
      if str_eq key segment
      then node key from (items ++ added path item) inside rest
      else node key from items children beside

  -- The trees of the three functions, with `len(source_path) - len(visible_path) + 1` segments of
  -- the source path at the first node.
  unfoldable pub tree_from : Tree A → Projected A → Tree A
  unfolding insert
  tree_from tree [] = tree
  tree_from tree ((visible, source, item) ∷ projected) =
      tree_from (insert visible source (length source - length visible + 1) item tree) projected

  -- `_view_node`, `_event_node`, `_stream_node`, over all nodes of a dictionary
  unfoldable pub view_nodes : List String → Tree A → Nodes A
  view_nodes parent leaf = no_nodes
  view_nodes parent (node key from items children rest) =
      let path = parent ++ key ∷ [] in
      view_node key path from items (view_nodes path children) (view_nodes parent rest)

  unfoldable pub view_tree : Projected A → Nodes A
  unfolding tree_from view_nodes
  view_tree projected = view_nodes [] (tree_from leaf projected)

  -- `_event_tree` and `_stream_tree` have the same loop.
  unfoldable pub event_tree : Projected A → Nodes A
  unfolding tree_from view_nodes
  event_tree projected = view_nodes [] (tree_from leaf projected)

  unfoldable pub stream_tree : Projected A → Nodes A
  unfolding tree_from view_nodes
  stream_tree projected = view_nodes [] (tree_from leaf projected)
