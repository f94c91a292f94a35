-- ===== src/Service/Matching.antt =====
-- `_match` of rpckit/service.py: a path against a template, by the search of Python's `re` with its
-- order of attempts, and `urllib.parse.unquote` of what the variables take.
pub mod Unquote
pub mod Instances
pub mod RoundTrip
use mathlib.Core.Option
use pyrpckit.Prelude.{
  Bool, List, Option, [], false, if◌then◌else◌, map, none, refl, some, true, ℕ, ◌==◌, ◌∷◌, ◌≡◌,
}
use pyrpckit.Service.Templates.{Piece, lit, pieces, var, variables}
use pyrpckit.Service.Matching.Unquote.{unquote}

-- `$`: the end of the text, or before a newline that ends it.
abbrev pub at_end : List ℕ → Bool
at_end [] = true
at_end (c ∷ []) = c == 10
at_end (c ∷ d ∷ text) = false

abbrev prepend : ℕ → List (List ℕ) → List (List ℕ)
prepend c [] = []
prepend c (group ∷ groups) = (c ∷ group) ∷ groups

abbrev or_else {ℓ} : {A : Type ℓ} → Option A → Option A → Option A
or_else none other = other
or_else (some a) other = some a

-- `([^/]+)` and what follows it: the longest run of characters other than `/` is tried first.
unfoldable pub group : (List ℕ → Option (List (List ℕ))) → List ℕ → Option (List (List ℕ))
group follow [] = none
group follow (c ∷ path) =
    let longer = group follow path in
    if c == b'/'
    then none
    else or_else (Option.map (prepend c) longer) (Option.map (λ gs. (c ∷ []) ∷ gs) (follow path))

-- `re.match(pattern, path)`: the groups of the pattern of the pieces.
unfoldable pub groups : List Piece → List ℕ → Option (List (List ℕ))
unfolding group
groups [] path = if at_end path then some [] else none
groups (lit c ∷ ps) [] = none
groups (lit c ∷ ps) (d ∷ path) = let rest = groups ps path in if c == d then rest else none
groups (var name ∷ ps) path = group (groups ps) path

-- `dict(zip(names, values, strict=True))` of unquoted values; `none` stands for its exception.
unfoldable pub zip_strict : List (List ℕ) → List (List ℕ) → Option (List (List ℕ × List ℕ))
zip_strict [] [] = some []
zip_strict (name ∷ names) (value ∷ values) =
    Option.map (λ rest. (name, value) ∷ rest) (zip_strict names values)
zip_strict _ _ = none

unfoldable pub match_path : (List ℕ → List ℕ) → List ℕ → List ℕ → Option (List (List ℕ × List ℕ))
unfolding groups pieces variables unquote zip_strict
match_path decode template path = elim (groups (pieces template) path) [
  | none ↦ none
  | some values ↦ zip_strict (variables (pieces template)) (map (unquote decode) values)
]

pub match_path-groups :
    (decode : List ℕ → List ℕ) (template path : List ℕ) (vs : List (List ℕ))
    → groups (pieces template) path ≡ some vs
    → match_path decode template path
      ≡ zip_strict (variables (pieces template)) (map (unquote decode) vs)
unfolding match_path
match_path-groups decode template path vs h = rw (h, match_path) refl

pub match_path-none :
    (decode : List ℕ → List ℕ) (template path : List ℕ)
    → groups (pieces template) path ≡ none
    → match_path decode template path ≡ none
unfolding match_path
match_path-none decode template path h = rw (h, match_path) refl
