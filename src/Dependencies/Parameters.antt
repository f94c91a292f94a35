-- ===== src/Dependencies/Parameters.antt =====
-- `injected_parameter` of rpckit/dependencies.py, and `_split_parameters` and
-- `_router_params_model` of rpckit/protocol.py: which parameters of a handler are dependencies and
-- which one the request fills. `none` is the `ProtocolDefinitionError`.
use pyrpckit.Prelude.{
  Bool, List, Option, Option-cases, String, [], all, ap, arith, false, if◌then◌else◌, inl, inr,
  keep_if, map, none, not, refl, some, subst, true, ℕ, ◌&&◌, ◌>>=◌, ◌||◌, ◌∙◌, ◌∷◌, ◌≡◌,
}

-- A type hint, as `get_origin` and `get_args` take it apart. A dependency that is no class is
-- `none`.
pub data Annotation : Type 0 where
  -- `Inject[T]`
  inject : Option ℕ → Annotation
  -- `Annotated[T, ...]`, and whether `_INJECT` is in its metadata
  annotated : Option ℕ → Bool → Annotation
  -- any other, and whether it is a Pydantic model
  other : Bool → Annotation

pub data ParameterKind : Type 0 where
  positional_only positional_or_keyword var_positional keyword_only var_keyword : ParameterKind

-- `inspect.Parameter`, with its type hint if it has one.
pub record Parameter : Type 0 where
  pub param_name : String
  pub annotation : Option Annotation
  pub param_kind : ParameterKind
  pub has_default : Bool

-- The outer `none` is the `TypeError`.
unfoldable pub injected_parameter : Annotation → Option (Option ℕ)
injected_parameter (inject none) = none
injected_parameter (inject (some cls)) = some (some cls)
injected_parameter (annotated dependency false) = some none
injected_parameter (annotated none true) = none
injected_parameter (annotated (some cls) true) = some (some cls)
injected_parameter (other model) = some none

unfoldable pub by_name : ParameterKind → Bool
by_name positional_or_keyword = true
by_name keyword_only = true
by_name _ = false

-- What the loop makes of one parameter: a dependency, or a parameter of the wire.
unfoldable pub sort_parameter : Parameter → Option (Option ℕ)
unfolding injected_parameter by_name
sort_parameter parameter = do
  hint ← parameter.annotation
  dependency ← injected_parameter hint
  elim dependency [
    | none ↦ some none
    | some cls ↦
        if not (by_name parameter.param_kind)
        then none
        else if parameter.has_default
        then none
        else some (some cls)
  ]

abbrev pub Split : Type 0
Split = List (String × ℕ) × List Parameter

unfoldable pub split_parameters : List Parameter → Option Split
unfolding sort_parameter
split_parameters [] = some ([], [])
split_parameters (parameter ∷ parameters) = do
  sorted ← sort_parameter parameter
  rest ← split_parameters parameters
  elim sorted [
    | none ↦ some (rest.0, parameter ∷ rest.1)
    | some cls ↦ some ((parameter.param_name, cls) ∷ rest.0, rest.1)
  ]

is_model : Option Annotation → Bool
is_model (some (other model)) = model
is_model _ = false

is_positional_or_keyword : ParameterKind → Bool
is_positional_or_keyword positional_or_keyword = true
is_positional_or_keyword _ = false

-- The name of the parameter that takes the request's params, if there is one, and the dependencies.
unfoldable pub router_params_model : List Parameter → Option (Option String × List (String × ℕ))
unfolding split_parameters is_model is_positional_or_keyword
router_params_model parameters = elim (split_parameters parameters) [
  | none ↦ none
  | some (injected, []) ↦ some (none, injected)
  | some (injected, parameter ∷ []) ↦
      if is_positional_or_keyword parameter.param_kind && is_model parameter.annotation
      then some (some parameter.param_name, injected)
      else none
  | some (injected, parameter ∷ second ∷ more) ↦ none
]

-- A parameter that is annotated as a dependency.
unfoldable pub is_dependency : Parameter → Bool
is_dependency parameter = elim parameter.annotation [
  | none ↦ false
  | some hint ↦ elim (injected_parameter hint) [ some (some cls) ↦ true | _ ↦ false ]
]

abbrev pub passable : Parameter → Bool
passable parameter =
    not (is_dependency parameter) || (by_name parameter.param_kind && not parameter.has_default)

abbrev pub IsSplit : List Parameter → Split → Type 0
IsSplit parameters (injected, wire) =
    (wire ≡ keep_if (λ p. not (is_dependency p)) parameters)
    × (map (λ entry. entry.0) injected ≡ map (λ p. p.param_name) (keep_if is_dependency parameters))
    × (all passable parameters ≡ true)

sorted_wire : (p : Parameter) → sort_parameter p ≡ some none → is_dependency p ≡ false
unfolding sort_parameter is_dependency
sorted_wire p h = ground (arith, h)

sorted_dependency :
    (p : Parameter) (cls : ℕ)
    → sort_parameter p ≡ some (some cls)
    → (is_dependency p ≡ true) × ((by_name p.param_kind && not p.has_default) ≡ true)
unfolding sort_parameter is_dependency
sorted_dependency p cls h = (ground (arith, h), ground (arith, h))

-- One parameter more.
wire-IsSplit :
    (p : Parameter) (parameters : List Parameter) (injected : List (String × ℕ))
    (wire : List Parameter)
    → is_dependency p ≡ false
    → IsSplit parameters (injected, wire)
    → IsSplit (p ∷ parameters) (injected, p ∷ wire)
wire-IsSplit p parameters injected wire d (w, i, a) =
    (rw d (ap (λ t. p ∷ t) w), i ∙ rw d refl, rw (d, a) refl)

dependency-IsSplit :
    (p : Parameter) (cls : ℕ) (parameters : List Parameter) (injected : List (String × ℕ))
    (wire : List Parameter)
    → is_dependency p ≡ true
    → (by_name p.param_kind && not p.has_default) ≡ true
    → IsSplit parameters (injected, wire)
    → IsSplit (p ∷ parameters) ((p.param_name, cls) ∷ injected, wire)
dependency-IsSplit p cls parameters injected wire d b (w, i, a) =
    (w ∙ rw d refl, rw d (ap (λ t. p.param_name ∷ t) i), rw (d, b, a) refl)

-- An accepted signature is split into its dependencies and its other parameters, each in their
-- order, and every dependency can be passed by name and has no default.
pub split_parameters-IsSplit :
    (parameters : List Parameter) (injected : List (String × ℕ)) (wire : List Parameter)
    → split_parameters parameters ≡ some (injected, wire)
    → IsSplit parameters (injected, wire)
unfolding split_parameters
split_parameters-IsSplit [] injected wire h =
    let is : injected ≡ [] = ground (arith, h) in
    let none_left : wire ≡ [] = ground (arith, h) in
    (none_left, ap (map (λ entry. entry.0)) is, refl)
split_parameters-IsSplit (p ∷ parameters) injected wire h =
    let deeper = split_parameters-IsSplit parameters in
    elim (Option-cases (sort_parameter p)) [
      | inl n ↦ absurd (ground (arith, h, n))
      | inr (sorted, n) ↦ elim (Option-cases (split_parameters parameters)) [
        | inl m ↦ absurd (ground (arith, h, n, m))
        | inr ((is, ws), m) ↦ elim (Option-cases sorted) [
          | inl s ↦
              let same_split : (is, p ∷ ws) ≡ (injected, wire) = ground (arith, h, n, m, s) in
              subst (λ t. IsSplit (p ∷ parameters) t) same_split
                (wire-IsSplit p parameters is ws (sorted_wire p (n ∙ ap some s)) (deeper is ws m))
          | inr (cls, s) ↦
              let (d, b) = sorted_dependency p cls (n ∙ ap some s) in
              let same_split : ((p.param_name, cls) ∷ is, ws) ≡ (injected, wire) =
                ground (arith, h, n, m, s) in
              subst (λ t. IsSplit (p ∷ parameters) t) same_split
                (dependency-IsSplit p cls parameters is ws d b (deeper is ws m))
        ]
      ]
    ]
