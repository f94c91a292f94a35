-- ===== src/Codegen/Tree/Lookup.antt =====
-- What stands at a path of the tree.
use pyrpckit.Prelude.{
  Bool, Bool-cases, List, String, [], ap, append-nil, append_assoc, arith, eq_iff, false,
  if◌then◌else◌, inl, inr, length, refl, str_eq, suc, sym, true, ℕ, ◌&&◌, ◌++◌, ◌+◌, ◌-◌, ◌∙◌, ◌∷◌,
  ◌≡◌,
}
use pyrpckit.Codegen.Tree.{
  Nodes, Projected, Tree, added, branch, insert, leaf, no_nodes, node, tree_from, view_node,
  view_nodes, view_tree,
}

unfoldable pub same_path : List String → List String → Bool
same_path [] [] = true
same_path (s ∷ p) (t ∷ q) = str_eq s t && same_path p q
same_path _ _ = false

module _ {ℓ} {A : Type ℓ} where
  -- The declarations at a path, as a user of the client reaches them: `client.chat.rooms`.
  unfoldable pub at : List String → Tree A → List A
  at [] tree = []
  at (s ∷ q) leaf = []
  at (s ∷ []) (node key from items children rest) =
      let beside = at (s ∷ []) rest in if str_eq key s then items else beside
  at (s ∷ t ∷ q) (node key from items children rest) =
      let inside = at (t ∷ q) children in
      let beside = at (s ∷ t ∷ q) rest in if str_eq key s then inside else beside

  unfoldable pub nodes_at : List String → Nodes A → List A
  nodes_at [] nodes = []
  nodes_at (s ∷ q) no_nodes = []
  nodes_at (s ∷ []) (view_node key path from items children rest) =
      let beside = nodes_at (s ∷ []) rest in if str_eq key s then items else beside
  nodes_at (s ∷ t ∷ q) (view_node key path from items children rest) =
      let inside = nodes_at (t ∷ q) children in
      let beside = nodes_at (s ∷ t ∷ q) rest in if str_eq key s then inside else beside

  -- The declarations that are projected to a path, in their order.
  unfoldable pub projected_to : List String → Projected A → List A
  projected_to path [] = []
  projected_to path ((visible, source, item) ∷ projected) =
      let rest = projected_to path projected in if same_path visible path then item ∷ rest else rest

  abbrev here : List String → List String → A → List A
  here p q item = if same_path p q then item ∷ [] else []

  at-branch :
      (s : String) (p q source : List String) (n : ℕ) (item : A)
      → at q (branch (s ∷ p) source n item) ≡ here (s ∷ p) q item
  unfolding at branch same_path
  at-branch s p [] source n item = refl
  at-branch s [] (t ∷ []) source n item = ground arith
  at-branch s (u ∷ p) (t ∷ []) source n item = ground arith
  at-branch s [] (t ∷ v ∷ q) source n item = ground arith
  at-branch s (u ∷ p) (t ∷ v ∷ q) source n item =
      ground (arith, at-branch u p (v ∷ q) source (suc n) item)

  at-leaf : (q : List String) → at q leaf ≡ []
  unfolding at
  at-leaf [] = refl
  at-leaf (s ∷ q) = refl

  insert-hit :
      (s key : String) (p source from : List String) (n : ℕ) (item : A) (items : List A)
      (children rest : Tree A)
      → str_eq key s ≡ true
      → insert (s ∷ p) source n item (node key from items children rest)
        ≡ node key from (items ++ added p item) (insert p source (suc n) item children) rest
  unfolding insert
  insert-hit s key p source from n item items children rest h = rw h refl

  insert-miss :
      (s key : String) (p source from : List String) (n : ℕ) (item : A) (items : List A)
      (children rest : Tree A)
      → str_eq key s ≡ false
      → insert (s ∷ p) source n item (node key from items children rest)
        ≡ node key from items children (insert (s ∷ p) source n item rest)
  unfolding insert
  insert-miss s key p source from n item items children rest h = rw h refl

  -- The node at which the path begins, with the children that the rest of the path gives it.
  at-hit :
      (s key : String) (p q from : List String) (item : A) (items : List A)
      (before after rest : Tree A)
      → str_eq key s ≡ true
      → ((v : String) (r : List String)
          → at (v ∷ r) after ≡ at (v ∷ r) before ++ here p (v ∷ r) item)
      → at q (node key from (items ++ added p item) after rest)
        ≡ at q (node key from items before rest) ++ here (s ∷ p) q item
  unfolding at same_path
  at-hit s key p [] from item items before after rest h inside = refl
  at-hit s key [] (t ∷ []) from item items before after rest h inside =
      ground (arith, h, eq_iff key s, eq_iff key t, eq_iff s t, append-nil (at (t ∷ []) rest))
  at-hit s key (u ∷ p) (t ∷ []) from item items before after rest h inside = ground (
    arith,
    h,
    eq_iff key s,
    eq_iff key t,
    eq_iff s t,
    append-nil items,
    append-nil (at (t ∷ []) rest),
  )
  at-hit s key p (t ∷ v ∷ q) from item items before after rest h inside = ground (
    arith,
    h,
    eq_iff key s,
    eq_iff key t,
    eq_iff s t,
    inside v q,
    append-nil (at (t ∷ v ∷ q) rest),
  )

  at-miss :
      (s key : String) (p q from : List String) (item : A) (items : List A)
      (children before after : Tree A)
      → str_eq key s ≡ false
      → at q after ≡ at q before ++ here (s ∷ p) q item
      → at q (node key from items children after)
        ≡ at q (node key from items children before) ++ here (s ∷ p) q item
  unfolding at same_path
  at-miss s key p [] from item items children before after h beside = refl
  at-miss s key p (t ∷ []) from item items children before after h beside =
      ground (arith, h, beside, eq_iff key s, eq_iff key t, eq_iff s t, append-nil items)
  at-miss s key p (t ∷ v ∷ q) from item items children before after h beside =
      ground
        (arith, h, beside, eq_iff key s, eq_iff key t, eq_iff s t, append-nil (at (v ∷ q) children))

  at-inside :
      (p : List String) (v : String) (r source : List String) (n : ℕ) (item : A) (children : Tree A)
      → ((u : String) (p' w : List String)
          → at w (insert (u ∷ p') source (suc n) item children)
            ≡ at w children ++ here (u ∷ p') w item)
      → at (v ∷ r) (insert p source (suc n) item children)
        ≡ at (v ∷ r) children ++ here p (v ∷ r) item
  unfolding insert same_path
  at-inside [] v r source n item children h = sym (append-nil (at (v ∷ r) children))
  at-inside (u ∷ p) v r source n item children h = h u p (v ∷ r)

  at-insert :
      (s : String) (p q source : List String) (n : ℕ) (item : A) (tree : Tree A)
      → at q (insert (s ∷ p) source n item tree) ≡ at q tree ++ here (s ∷ p) q item
  unfolding insert
  at-insert s p q source n item leaf =
      at-branch s p q source n item ∙ ap (λ t. t ++ here (s ∷ p) q item) (sym (at-leaf q))
  at-insert s p q source n item (node key from items children rest) =
      let beside = at-insert s p q source n item rest in
      let inside = λ (u : String) (r : List String) (w : List String).
        at-insert u r w source (suc n) item children in
      elim (Bool-cases (str_eq key s)) [
        | inl h ↦
            ap (at q) (insert-hit s key p source from n item items children rest h)
            ∙ at-hit s key p q from item items children (insert p source (suc n) item children) rest
                h (λ v r. at-inside p v r source n item children inside)
        | inr h ↦
            ap (at q) (insert-miss s key p source from n item items children rest h)
            ∙ at-miss s key p q from item items children rest (insert (s ∷ p) source n item rest) h
                beside
      ]

  -- Only declarations with a path that is not empty are put into the tree.
  abbrev pub all_visible : Projected A → Bool
  all_visible [] = true
  all_visible (([], source, item) ∷ projected) = false
  all_visible ((s ∷ visible, source, item) ∷ projected) = all_visible projected

  at-tree_from :
      (tree : Tree A) (projected : Projected A) (q : List String)
      → all_visible projected ≡ true
      → at q (tree_from tree projected) ≡ at q tree ++ projected_to q projected
  unfolding tree_from projected_to
  at-tree_from tree [] q h = sym (append-nil (at q tree))
  at-tree_from tree (([], source, item) ∷ projected) q h = absurd (ground (arith, h))
  at-tree_from tree ((s ∷ visible, source, item) ∷ projected) q h =
      let n = length source - length (s ∷ visible) + 1 in
      at-tree_from (insert (s ∷ visible) source n item tree) projected q h
      ∙ ap (λ t. t ++ projected_to q projected) (at-insert s visible q source n item tree)
      ∙ append_assoc (at q tree) (here (s ∷ visible) q item) (projected_to q projected)
      ∙ ap (λ t. at q tree ++ t)
          (here-rest (same_path (s ∷ visible) q) item (projected_to q projected))
    where
      here-rest :
          (b : Bool) (item : A) (rest : List A)
          → (if b then item ∷ [] else []) ++ rest ≡ (if b then item ∷ rest else rest)
      here-rest true item rest = refl
      here-rest false item rest = refl

  nodes_at-view_nodes :
      (parent q : List String) (tree : Tree A) → nodes_at q (view_nodes parent tree) ≡ at q tree
  unfolding nodes_at view_nodes at
  nodes_at-view_nodes parent [] tree = refl
  nodes_at-view_nodes parent (s ∷ q) leaf = refl
  nodes_at-view_nodes parent (s ∷ []) (node key from items children rest) =
      ground (arith, nodes_at-view_nodes parent (s ∷ []) rest)
  nodes_at-view_nodes parent (s ∷ t ∷ q) (node key from items children rest) = ground (
    arith,
    nodes_at-view_nodes parent (s ∷ t ∷ q) rest,
    nodes_at-view_nodes (parent ++ key ∷ []) (t ∷ q) children,
  )

  -- The tree loses nothing, mixes nothing and keeps the order: at each path stand exactly the
  -- declarations that are projected to it, as they were declared.
  pub nodes_at-view_tree :
      (projected : Projected A) (q : List String)
      → all_visible projected ≡ true
      → nodes_at q (view_tree projected) ≡ projected_to q projected
  unfolding view_tree
  nodes_at-view_tree projected q h =
      nodes_at-view_nodes [] q (tree_from leaf projected)
      ∙ at-tree_from leaf projected q h
      ∙ ap (λ t. t ++ projected_to q projected) (at-leaf q)
