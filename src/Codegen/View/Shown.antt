-- ===== src/Codegen/View/Shown.antt =====
-- Every declaration is shown at its visible path.
use pyrpckit.Prelude.{
  Bool, Bool-cases, List, Option-cases, String, [], all, ap, arith, if◌then◌else◌, inl, inr,
  keep_if, not, refl, some, true, ◌&&◌, ◌++◌, ◌∙◌, ◌∷◌, ◌≡◌,
}
use pyrpckit.Codegen.Tree.Lookup.{
  all_visible, nodes_at, nodes_at-view_tree, projected_to, same_path,
}
use pyrpckit.Codegen.View.{
  Aliases, ApiView, ClientIr, Decl, api_view, is_empty, matched_keys, mem_text, place, placed,
  root_is_known, view_of, visible_path, visible_sources,
}
use pyrpckit.Codegen.Tree.{Projected, view_tree}

-- The operation has a path, and this is where it is visible.
abbrev pub is_shown_at : List String → Aliases → List String → Decl → Bool
is_shown_at root aliases q d =
    not (is_empty d.path) && same_path (visible_path root aliases d.path).1 q

-- The declarations that are visible at a path, as they were declared.
abbrev pub shown_at : List String → Aliases → List String → List Decl → List Decl
shown_at root aliases q decls = keep_if (is_shown_at root aliases q) decls

all_visible-placed :
    (d : Decl) (v : List String) (rest : List Decl × Projected Decl)
    → all_visible (placed d v rest).1 ≡ all_visible rest.1
unfolding placed
all_visible-placed d [] (root, projected) = refl
all_visible-placed d (s ∷ v) (root, projected) = refl

placed-root :
    (d : Decl) (v : List String) (rest : List Decl × Projected Decl)
    → (placed d v rest).0 ≡ (if same_path v [] then d ∷ rest.0 else rest.0)
unfolding placed same_path
placed-root d [] (root, projected) = refl
placed-root d (s ∷ v) (root, projected) = refl

placed-tree :
    (s : String) (q : List String) (d : Decl) (v : List String) (rest : List Decl × Projected Decl)
    → projected_to (s ∷ q) (placed d v rest).1 ≡ (
        if same_path v (s ∷ q)
        then d ∷ projected_to (s ∷ q) rest.1
        else projected_to (s ∷ q) rest.1)
unfolding placed projected_to same_path
placed-tree s q d [] (root, projected) = refl
placed-tree s q d (t ∷ v) (root, projected) = refl

module _ (root : List String) (aliases : Aliases) where
  all_visible-place : (decls : List Decl) → all_visible (place root aliases decls).1 ≡ true
  unfolding place
  all_visible-place [] = refl
  all_visible-place (d ∷ decls) =
      let rest = place root aliases decls in
      let v = (visible_path root aliases d.path).1 in
      let deeper = all_visible-place decls in
      elim (Bool-cases (is_empty d.path)) [
        | inl e ↦ rw e deeper
        | inr e ↦ rw e (all_visible-placed d v rest ∙ deeper)
      ]

  place-root : (decls : List Decl) → (place root aliases decls).0 ≡ shown_at root aliases [] decls
  unfolding place
  place-root [] = refl
  place-root (d ∷ decls) =
      let rest = place root aliases decls in
      let v = (visible_path root aliases d.path).1 in
      let deeper = place-root decls in
      elim (Bool-cases (is_empty d.path)) [
        | inl e ↦ rw e deeper
        | inr e ↦ rw e (placed-root d v rest ∙ ap (λ t. if same_path v [] then d ∷ t else t) deeper)
      ]

  place-tree :
      (s : String) (q : List String) (decls : List Decl)
      → projected_to (s ∷ q) (place root aliases decls).1 ≡ shown_at root aliases (s ∷ q) decls
  unfolding place
  place-tree s q [] = unfold projected_to in refl
  place-tree s q (d ∷ decls) =
      let rest = place root aliases decls in
      let v = (visible_path root aliases d.path).1 in
      let deeper = place-tree s q decls in
      elim (Bool-cases (is_empty d.path)) [
        | inl e ↦ rw e deeper
        | inr e ↦
            rw e
              (placed-tree s q d v rest ∙ ap (λ t. if same_path v (s ∷ q) then d ∷ t else t) deeper)
      ]

  api_view-place :
      (ir : ClientIr) (view : ApiView)
      → api_view ir root aliases ≡ some view
      → view
        ≡ view_of
            (ir.root_operations ++ (place root aliases ir.operations).0)
            (view_tree (place root aliases ir.operations).1)
  unfolding api_view
  api_view-place ir view h =
      let split = place root aliases ir.operations in
      let matched =
        matched_keys root aliases ir.operations ++ matched_keys root aliases ir.notifications in
      elim (Bool-cases (root_is_known root ir)) [
        | inr e ↦ absurd (ground (arith, h, e))
        | inl e ↦ elim (Bool-cases (all (λ entry. mem_text entry.0 matched) aliases)) [
          | inr f ↦ absurd (ground (arith, h, e, f))
          | inl f ↦ elim (Option-cases (visible_sources split.1 [])) [
            | inl n ↦ absurd (ground (arith, h, e, f, n))
            | inr (sources, n) ↦ ground (arith, h, e, f, n)
          ]
        ]
      ]

  -- In an accepted view of a contract, each operation with a path stands exactly where it is visible:
  -- at the root, behind the operations of the root, or in the tree at its visible path; and nothing
  -- else stands there.
  pub api_view-shown :
      (ir : ClientIr) (view : ApiView) (s : String) (q : List String)
      → api_view ir root aliases ≡ some view
      → (view.shown_at_root ≡ ir.root_operations ++ shown_at root aliases [] ir.operations)
        × (nodes_at (s ∷ q) view.nodes ≡ shown_at root aliases (s ∷ q) ir.operations)
  api_view-shown ir view s q h =
      let is = api_view-place ir view h in
      let split = place root aliases ir.operations in
      (
        ap (λ (x : ApiView). x.shown_at_root) is
            ∙ ap (λ t. ir.root_operations ++ t) (place-root ir.operations),
        ap (λ (x : ApiView). nodes_at (s ∷ q) x.nodes) is
            ∙ nodes_at-view_tree split.1 (s ∷ q) (all_visible-place ir.operations)
            ∙ place-tree s q ir.operations,
      )
