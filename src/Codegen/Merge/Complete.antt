-- ===== src/Codegen/Merge/Complete.antt =====
-- The namespaces show what each of the three trees has at a path.
use pyrpckit.Prelude.{
  Bool-cases, List, Option, Option-cases, String, [], ap, arith, eq_iff, false, if◌then◌else◌, inl,
  inr, none, refl, some, str_eq, suc, true, zero, ℕ, ◌++◌, ◌||◌, ◌∙◌, ◌∷◌, ◌≡◌, ◌≤◌,
}
use pyrpckit.Codegen.Tree.{Nodes, no_nodes, stream_tree, view_node}
use pyrpckit.Codegen.View.{Aliases, ApiView, ClientIr, Decl, api_view, event_view, mem_text}
use pyrpckit.Codegen.Merge.{
  ClientView, Content, Namespaces, StreamDecl, children_below, client_view, content_of, find_node,
  from_keys, height, items_of, keys, max, merge_nodes, merge_segments, merged_view, namespace,
  no_namespaces, place_streams,
}

-- The declarations at a path of nodes.
unfoldable pub declared_at {ℓ} : {A : Type ℓ} → List String → Nodes A → List A
unfolding find_node
declared_at [] nodes = []
declared_at (s ∷ []) nodes = items_of (find_node s nodes)
declared_at (s ∷ t ∷ q) nodes = declared_at (t ∷ q) (children_below (find_node s nodes))

abbrev pub nothing : Content
nothing = content_of [] [] []

abbrev pub or_nothing : Option (Content × Namespaces) → Content × Namespaces
or_nothing none = (nothing, no_namespaces)
or_nothing (some found) = found

unfoldable pub find_namespace : String → Namespaces → Content × Namespaces
find_namespace segment no_namespaces = (nothing, no_namespaces)
find_namespace segment (namespace key path source content children rest) =
    let beside = find_namespace segment rest in
    if str_eq key segment then (content, children) else beside

-- The content at a path of namespaces, as a user of the client reaches it.
unfoldable pub content_at : List String → Namespaces → Content
unfolding find_namespace
content_at [] nodes = nothing
content_at (s ∷ []) nodes = (find_namespace s nodes).0
content_at (s ∷ t ∷ q) nodes = content_at (t ∷ q) (find_namespace s nodes).1

find_node-absent {ℓ} :
    {A : Type ℓ} (s : String) (nodes : Nodes A)
    → mem_text s (keys nodes) ≡ false
    → find_node s nodes ≡ none
unfolding find_node keys mem_text
find_node-absent s no_nodes h = refl
find_node-absent s (view_node key path source items children rest) h =
    ground (arith, h, find_node-absent s rest)

mem_text-append :
    (s : String) (xs ys : List String) → mem_text s (xs ++ ys) ≡ mem_text s xs || mem_text s ys
unfolding mem_text
mem_text-append s [] ys = refl
mem_text-append s (x ∷ xs) ys = ground (arith, mem_text-append s xs ys)

mem_text-from_keys :
    (s : String) (seen xs : List String)
    → mem_text s seen ≡ false
    → mem_text s (from_keys seen xs) ≡ mem_text s xs
unfolding mem_text from_keys
mem_text-from_keys s seen [] h = refl
mem_text-from_keys s seen (x ∷ xs) h =
    ground (arith, h, eq_iff x s, mem_text-from_keys s seen xs, mem_text-from_keys s (x ∷ seen) xs)

height-children {ℓ} :
    {A : Type ℓ} (s : String) (nodes : Nodes A) (n : ℕ)
    → height nodes ≤ suc n
    → height (children_below (find_node s nodes)) ≤ n
unfolding find_node height max
height-children s no_nodes n h = omega arith
height-children s (view_node key path source items children rest) n h =
    elim (Option-cases (find_node s rest)) [
      | inl e ↦ ground (arith, e, h)
      | inr (later, e) ↦ ground (arith, e, h, height-children s rest n)
    ]

height-zero {ℓ} : {A : Type ℓ} (nodes : Nodes A) → height nodes ≤ 0 → nodes ≡ no_nodes
unfolding height max
height-zero no_nodes h = refl
height-zero (view_node key path source items children rest) h = absurd (ground (arith, h))

module _ (routes events : Nodes Decl) (streams : Nodes StreamDecl)
    (merge_children : Nodes Decl → Nodes Decl → Nodes StreamDecl → Namespaces) where
  abbrev below : String → Namespaces
  below s =
      merge_children (children_below (find_node s routes)) (children_below (find_node s events))
        (children_below (find_node s streams))

  abbrev content_below : String → Content
  content_below s =
      content_of (items_of (find_node s routes)) (items_of (find_node s events))
        (items_of (find_node s streams))

  nothing_below :
      (s : String)
      → merge_children no_nodes no_nodes no_nodes ≡ no_namespaces
      → mem_text s (keys routes) ≡ false
      → mem_text s (keys events) ≡ false
      → mem_text s (keys streams) ≡ false
      → or_nothing none ≡ (content_below s, below s)
  nothing_below s empty hr he hs =
      rw
        (
          find_node-absent s routes hr,
          find_node-absent s events he,
          find_node-absent s streams hs,
          empty,
        )
        refl

  find_namespace-present :
      (s : String) (segments : List String)
      → mem_text s segments ≡ true
      → find_namespace s (merge_segments routes events streams merge_children segments)
        ≡ (content_below s, below s)
  unfolding find_namespace merge_segments mem_text
  find_namespace-present s [] h = cc
  find_namespace-present s (t ∷ segments) h = elim (Bool-cases (str_eq t s)) [
    | inl e ↦ rw e (ap (λ x. (content_below x, below x)) ((eq_iff t s).0 e))
    | inr e ↦ ground (arith, h, e, find_namespace-present s segments)
  ]

  find_namespace-absent :
      (s : String) (segments : List String)
      → mem_text s segments ≡ false
      → find_namespace s (merge_segments routes events streams merge_children segments)
        ≡ (nothing, no_namespaces)
  unfolding find_namespace merge_segments mem_text
  find_namespace-absent s [] h = refl
  find_namespace-absent s (t ∷ segments) h = ground (arith, h, find_namespace-absent s segments)

keys_of :
    (s : String) (routes events : Nodes Decl) (streams : Nodes StreamDecl)
    → mem_text s (from_keys [] (keys routes ++ (keys events ++ keys streams)))
      ≡ mem_text s (keys routes) || (mem_text s (keys events) || mem_text s (keys streams))
unfolding mem_text
keys_of s routes events streams = ground (
  arith,
  mem_text-from_keys s [] (keys routes ++ (keys events ++ keys streams)),
  mem_text-append s (keys routes) (keys events ++ keys streams),
  mem_text-append s (keys events) (keys streams),
)

-- What stands under a segment of the merged namespaces.
find_namespace-merge_nodes :
    (n : ℕ) (s : String) (routes events : Nodes Decl) (streams : Nodes StreamDecl)
    → merge_nodes n no_nodes no_nodes no_nodes ≡ no_namespaces
    → find_namespace s (merge_nodes (suc n) routes events streams) ≡ (
      content_below routes events streams (merge_nodes n) s,
      below routes events streams (merge_nodes n) s,
    )
unfolding merge_nodes
find_namespace-merge_nodes n s routes events streams empty =
    elim (Bool-cases (mem_text s (from_keys [] (keys routes ++ (keys events ++ keys streams))))) [
      | inl h ↦ find_namespace-present routes events streams (merge_nodes n) s _ h
      | inr h ↦
          find_namespace-absent routes events streams (merge_nodes n) s _ h
          ∙ nothing_below routes events streams (merge_nodes n) s empty
              (ground (arith, h, keys_of s routes events streams))
              (ground (arith, h, keys_of s routes events streams))
              (ground (arith, h, keys_of s routes events streams))
    ]

merge_nodes-empty : (n : ℕ) → merge_nodes n no_nodes no_nodes no_nodes ≡ no_namespaces
unfolding merge_nodes merge_segments from_keys keys
merge_nodes-empty zero = refl
merge_nodes-empty (suc n) = refl

declared_at-empty {ℓ} : {A : Type ℓ} (q : List String) → declared_at {A = A} q no_nodes ≡ []
unfolding declared_at find_node
declared_at-empty [] = refl
declared_at-empty (s ∷ []) = refl
declared_at-empty (s ∷ t ∷ q) = declared_at-empty (t ∷ q)

content_at-empty : (q : List String) → content_at q no_namespaces ≡ nothing
unfolding content_at find_namespace
content_at-empty [] = refl
content_at-empty (s ∷ []) = refl
content_at-empty (s ∷ t ∷ q) = content_at-empty (t ∷ q)

-- With fuel for the height of the three trees, the namespaces have at each path exactly the
-- operations, the events, the binary streams and the raw sockets that the trees have there, in
-- their order.
pub merge_nodes_complete :
    (n : ℕ) (routes events : Nodes Decl) (streams : Nodes StreamDecl)
    → height routes ≤ n
    → height events ≤ n
    → height streams ≤ n
    → (q : List String)
    → content_at q (merge_nodes n routes events streams)
      ≡ content_of (declared_at q routes) (declared_at q events) (declared_at q streams)
unfolding merge_nodes content_at declared_at
merge_nodes_complete zero routes events streams hr he hs q =
    rw
      (
        height-zero routes hr,
        height-zero events he,
        height-zero streams hs,
        declared_at-empty {A = Decl} q,
        declared_at-empty {A = StreamDecl} q,
      )
      (content_at-empty q)
merge_nodes_complete (suc n) routes events streams hr he hs [] = refl
merge_nodes_complete (suc n) routes events streams hr he hs (s ∷ []) =
    ap (λ found. found.0)
      (find_namespace-merge_nodes n s routes events streams (merge_nodes-empty n))
merge_nodes_complete (suc n) routes events streams hr he hs (s ∷ t ∷ q) =
    ap (λ found. content_at (t ∷ q) found.1)
      (find_namespace-merge_nodes n s routes events streams (merge_nodes-empty n))
    ∙ merge_nodes_complete n (children_below (find_node s routes))
        (children_below (find_node s events)) (children_below (find_node s streams))
        (height-children s routes n hr) (height-children s events n he)
        (height-children s streams n hs) (t ∷ q)

-- The namespaces of an accepted view of a client have at each path exactly the operations and the
-- events of the two views at this path, and the binary streams and raw sockets that stand there in
-- the tree of the streams; its root shows what they show at theirs.
pub client_view-shown :
    (ir : ClientIr) (root : List String) (aliases : Aliases) (streams : List StreamDecl)
    (routes : ApiView)
    → api_view ir root aliases ≡ some routes
    → (view : ClientView) × (client_view ir root aliases streams ≡ some view)
      × (view.root_operations ≡ routes.shown_at_root)
      × (view.root_events ≡ (event_view ir root aliases).shown_at_root)
      × ((q : List String)
          → content_at q view.namespaces
            ≡ content_of
                (declared_at q routes.nodes)
                (declared_at q (event_view ir root aliases).nodes)
                (declared_at q (stream_tree (place_streams root streams).1)))
unfolding client_view merged_view max
client_view-shown ir root aliases streams routes accepted =
    let events = (event_view ir root aliases).nodes in
    let tree = stream_tree (place_streams root streams).1 in
    (
      merged_view routes (event_view ir root aliases) (place_streams root streams),
      rw (accepted, client_view) refl,
      refl,
      refl,
      λ q.
          merge_nodes_complete _ routes.nodes events tree (ground arith) (ground arith)
            (ground arith) q,
    )
