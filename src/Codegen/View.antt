-- ===== src/Codegen/View.antt =====
-- `api_view` and `event_view` of rpckit/codegen/names.py: where the declarations of a contract stand
-- in the client. `none` is the `UnsupportedSchemaError`. An `api_root` is given by its segments.
pub mod Shown
use pyrpckit.Prelude.{
  Bool, List, Option, String, [], all, any, false, if◌then◌else◌, length, none, not, some,
  str_append, str_eq, suc, true, zero, ℕ, ◌&&◌, ◌++◌, ◌+◌, ◌-◌, ◌>>=◌, ◌||◌, ◌∷◌,
}
use pyrpckit.Codegen.Tree.{Nodes, Projected, Tree, event_tree, leaf, node, take, view_tree}
use pyrpckit.Codegen.Tree.Lookup.{same_path}

-- `RouteDecl` or `NotificationDecl`; its number stands for what the emitters read.
pub record Decl : Type 0 where
  pub path : List String
  pub decl_ident : ℕ

-- What `ClientIr` has for the view; `api` is the tree of `ApiNode`s.
pub record ClientIr : Type 0 where
  pub api : Tree Decl
  pub root_operations : List Decl
  pub operations : List Decl
  pub notifications : List Decl

pub record ApiView : Type 0 where
  pub shown_at_root : List Decl
  pub nodes : Nodes Decl

-- `api_names`
abbrev pub Aliases : Type 0
Aliases = List (String × String)

drop {ℓ} : {A : Type ℓ} → ℕ → List A → List A
drop zero xs = xs
drop (suc n) [] = []
drop (suc n) (x ∷ xs) = drop n xs

-- `".".join(path)`
joined : List String → String
joined [] = ""
joined (s ∷ []) = s
joined (s ∷ t ∷ path) = str_append s (str_append "." (joined (t ∷ path)))

alias_of : String → Aliases → Option String
alias_of key [] = none
alias_of key ((k, name) ∷ aliases) = if str_eq k key then some name else alias_of key aliases

-- `for key in (...): if key in aliases`: the key that matched, and the name.
first_alias : List String → String → Aliases → List String × String
unfolding alias_of
first_alias [] segment aliases = ([], segment)
first_alias (key ∷ more) segment aliases =
    let rest = first_alias more segment aliases in
    elim (alias_of key aliases) [ some name ↦ (key ∷ [], name) | none ↦ rest ]

-- `_api_name` at `index`, where `segment` stands.
unfoldable pub api_name : List String → List String → ℕ → String → Aliases → List String × String
unfolding joined first_alias
api_name source visible index segment aliases =
    let root_length = length source - length visible in
    first_alias
      (joined (take (root_length + index + 1) source)
        ∷ joined (take (index + 1) visible)
        ∷ segment
        ∷ [])
      segment aliases

-- The names of the segments from `index` on, and the keys that matched.
names_from : List String → List String → ℕ → List String → Aliases → List String × List String
unfolding api_name
names_from source visible index [] aliases = ([], [])
names_from source visible index (segment ∷ segments) aliases =
    let here = api_name source visible index segment aliases in
    let rest = names_from source visible (suc index) segments aliases in
    (here.0 ++ rest.0, here.1 ∷ rest.1)

-- `path[len(root):] if root and path[:len(root)] == root else path`
unfoldable pub below_root : List String → List String → List String
unfolding drop same_path
below_root [] path = path
below_root (s ∷ root) path =
    if same_path (take (length (s ∷ root)) path) (s ∷ root)
    then drop (length (s ∷ root)) path
    else path

-- The visible path of a declaration, and the keys that matched on the way.
unfoldable pub visible_path : List String → Aliases → List String → List String × List String
unfolding names_from below_root
visible_path root aliases path =
    let source = below_root root path in names_from path source 0 source aliases

abbrev pub is_empty {ℓ} : {A : Type ℓ} → List A → Bool
is_empty [] = true
is_empty (x ∷ xs) = false

-- One declaration more: at the root, or in the tree.
unfoldable pub placed : Decl → List String → List Decl × Projected Decl → List Decl × Projected Decl
placed d [] (root, projected) = (d ∷ root, projected)
placed d (s ∷ visible) (root, projected) = (root, (s ∷ visible, d.path, d) ∷ projected)

-- The loop over the operations; one without a path is left to `root_operations`.
unfoldable pub place : List String → Aliases → List Decl → List Decl × Projected Decl
unfolding placed
place root aliases [] = ([], [])
place root aliases (d ∷ decls) =
    let rest = place root aliases decls in
    if is_empty d.path then rest else placed d (visible_path root aliases d.path).1 rest

children_of : String → Tree Decl → Option (Tree Decl)
children_of segment leaf = none
children_of segment (node key from items children rest) =
    let beside = children_of segment rest in if str_eq key segment then some children else beside

-- `_root_exists`
unfoldable pub root_exists : Tree Decl → List String → Bool
unfolding children_of
root_exists nodes [] = true
root_exists nodes (segment ∷ root) = elim (children_of segment nodes) [
  | none ↦ false
  | some children ↦ root_exists children root
]

pub matched_keys : List String → Aliases → List Decl → List String
unfolding visible_path
matched_keys root aliases [] = []
matched_keys root aliases (d ∷ decls) =
    (visible_path root aliases d.path).0 ++ matched_keys root aliases decls

unfoldable pub mem_text : String → List String → Bool
mem_text text [] = false
mem_text text (t ∷ texts) = str_eq t text || mem_text text texts

-- `visible_sources`
abbrev pub Sources : Type 0
Sources = List (List String × List String)

unfoldable pub source_of : List String → Sources → Option (List String)
unfolding same_path
source_of visible [] = none
source_of visible ((key, source) ∷ sources) =
    if same_path key visible then some source else source_of visible sources

-- One prefix of a visible path: it may come from one source prefix only.
unfoldable pub add_source : List String → List String → Sources → Option Sources
unfolding source_of
add_source visible source sources = elim (source_of visible sources) [
  | none ↦ some (sources ++ (visible, source) ∷ [])
  | some previous ↦ if same_path previous source then some sources else none
]

-- The prefixes of length `n` and more, `left` of them.
add_prefixes : List String → List String → ℕ → ℕ → Sources → Option Sources
unfolding add_source
add_prefixes visible source n zero sources = some sources
add_prefixes visible source n (suc left) sources = do
  more ← add_source (take n visible) (take (length source - length visible + n) source) sources
  add_prefixes visible source (suc n) left more

unfoldable pub visible_sources : Projected Decl → Sources → Option Sources
unfolding add_prefixes
visible_sources [] sources = some sources
visible_sources ((visible, source, d) ∷ projected) sources = do
  more ← add_prefixes visible source 1 (length visible) sources
  visible_sources projected more

-- `api_root` names a path of the contract.
pub root_is_known : List String → ClientIr → Bool
unfolding root_exists mem_text
root_is_known [] ir = true
root_is_known (s ∷ root) ir =
    not (mem_text "" (s ∷ root))
    && (root_exists ir.api (s ∷ root)
        || any (λ d. same_path (take (length (s ∷ root)) d.path) (s ∷ root)) ir.notifications)

abbrev pub view_of : List Decl → Nodes Decl → ApiView
view_of at_root nodes = record { shown_at_root = at_root; nodes = nodes }

unfoldable pub api_view : ClientIr → List String → Aliases → Option ApiView
unfolding place matched_keys root_is_known visible_sources view_tree mem_text
api_view ir root aliases =
    let split = place root aliases ir.operations in
    let matched =
      matched_keys root aliases ir.operations ++ matched_keys root aliases ir.notifications in
    if not (root_is_known root ir)
    then none
    else if not (all (λ entry. mem_text entry.0 matched) aliases)
    then none
    else elim (visible_sources split.1 []) [
      | none ↦ none
      | some sources ↦ some (view_of (ir.root_operations ++ split.0) (view_tree split.1))
    ]

-- The loop of `event_view`, in which an empty path is shown at the root.
unfoldable pub place_events : List String → Aliases → List Decl → List Decl × Projected Decl
unfolding placed
place_events root aliases [] = ([], [])
place_events root aliases (d ∷ decls) =
    placed d (visible_path root aliases d.path).1 (place_events root aliases decls)

-- `EventView` has the shape of `ApiView`.
unfoldable pub event_view : ClientIr → List String → Aliases → ApiView
unfolding place_events event_tree
event_view ir root aliases =
    let split = place_events root aliases ir.notifications in view_of split.0 (event_tree split.1)
