-- ===== src/Errors/Bindings.antt =====
-- `bind_contracts` and `contract_for` of rpckit/errors.py: the index of bindings by exception class,
-- and the binding of an exception.
use pyrpckit.Prelude.{
  All, List, Option, Option-cases, [], ap, arith, if◌then◌else◌, inl, inr, none, refl, some, ℕ,
  ◌++◌, ◌==◌, ◌∷◌, ◌≡◌,
}
use pyrpckit.Connection.Rejection.{Exception}
use pyrpckit.Errors.Types.{ErrorBinding}

-- `dict[type[Exception], RpcErrorBinding]`, in insertion order.
abbrev pub Bound : Type 0
Bound = List (ℕ × ErrorBinding)

unfoldable pub find : ℕ → Bound → Option ErrorBinding
find cls [] = none
find cls ((key, binding) ∷ rest) = if key == cls then some binding else find cls rest

-- The loop of `bind_contracts`; `none` is the `ProtocolDefinitionError`.
unfoldable pub bind_from : Bound → List ErrorBinding → Option Bound
bind_from bound [] = some bound
bind_from bound (contract ∷ contracts) =
    let added = bind_from (bound ++ (contract.exception, contract) ∷ []) contracts in
    let kept = bind_from bound contracts in
    elim (find contract.exception bound) [
      | none ↦ added
      | some previous ↦ if previous.binding_ident == contract.binding_ident then kept else none
    ]

unfoldable pub bind_contracts : List ErrorBinding → Option Bound
bind_contracts contracts = bind_from [] contracts

-- `next((contracts[cls] for cls in type(error).__mro__ if cls in contracts), None)`
unfoldable pub first_bound : List ℕ → Bound → Option ErrorBinding
first_bound [] bound = none
first_bound (cls ∷ mro) bound = elim (find cls bound) [
  | some binding ↦ some binding
  | none ↦ first_bound mro bound
]

unfoldable pub contract_for : Exception → Bound → Option ErrorBinding
unfolding first_bound
contract_for error bound = first_bound error.mro bound

pub find-append :
    (cls : ℕ) (xs ys : Bound)
    → find cls (xs ++ ys) ≡ (elim (find cls xs) [ none ↦ find cls ys | some b ↦ some b ])
unfolding find
find-append cls [] ys = refl
find-append cls ((key, binding) ∷ rest) ys = ground (arith, find-append cls rest ys)

-- A binding that is in the index stays the one found.
find-bind_from :
    (bound result : Bound) (contracts : List ErrorBinding) (cls : ℕ) (b : ErrorBinding)
    → bind_from bound contracts ≡ some result
    → find cls bound ≡ some b
    → find cls result ≡ some b
unfolding bind_from
find-bind_from bound result [] cls b h f = ground arith
find-bind_from bound result (contract ∷ contracts) cls b h f = ground (
  arith,
  find-append cls bound ((contract.exception, contract) ∷ []),
  find-bind_from (bound ++ (contract.exception, contract) ∷ []) result contracts cls b,
  find-bind_from bound result contracts cls b,
)

-- The index holds this binding, or one that is the same object, for the binding's exception.
abbrev pub IsIndexed : Bound → ErrorBinding → Type 0
IsIndexed bound contract =
    (b : ErrorBinding) × (find contract.exception bound ≡ some b)
    × (b.binding_ident ≡ contract.binding_ident)

bind_from-IsIndexed :
    (bound result : Bound) (contracts : List ErrorBinding)
    → bind_from bound contracts ≡ some result
    → All (IsIndexed result) contracts
bind_from-IsIndexed bound result [] h = tt
bind_from-IsIndexed bound result (contract ∷ contracts) h =
    elim (Option-cases (find contract.exception bound)) [
      | inl free ↦
          let more = bound ++ (contract.exception, contract) ∷ [] in
          let next : bind_from more contracts ≡ some result = unfold bind_from in ground arith in
          (
            (
              contract,
              find-bind_from more result contracts contract.exception contract next (
                  unfold find in
                  ground (
                    arith,
                    find-append contract.exception bound ((contract.exception, contract) ∷ []),
                  )),
              refl,
            ),
            bind_from-IsIndexed more result contracts next,
          )
      | inr (previous, taken) ↦
          let next : bind_from bound contracts ≡ some result = unfold bind_from in ground arith in
          (
            (
              previous,
              find-bind_from bound result contracts contract.exception previous next taken,
              unfold bind_from in ground arith,
            ),
            bind_from-IsIndexed bound result contracts next,
          )
    ]

-- When bindings are accepted as one index, the index finds, for the exception of every one of them,
-- that very binding: no two distinct bindings of one exception are accepted.
pub bind_contracts-IsIndexed :
    (contracts : List ErrorBinding) (bound : Bound)
    → bind_contracts contracts ≡ some bound
    → All (IsIndexed bound) contracts
unfolding bind_contracts
bind_contracts-IsIndexed contracts bound h = bind_from-IsIndexed [] bound contracts h

-- The class at which the search stops: it is bound, and no class before it is.
abbrev pub MostSpecific : List ℕ → Bound → ErrorBinding → Type 0
MostSpecific mro bound b =
    (before : List ℕ) × (cls : ℕ) × (after : List ℕ) × (mro ≡ before ++ cls ∷ after)
    × (find cls bound ≡ some b)
    × All (λ k. find k bound ≡ none) before

first_bound_lem :
    (mro : List ℕ) (bound : Bound) (b : ErrorBinding)
    → first_bound mro bound ≡ some b
    → MostSpecific mro bound b
unfolding first_bound
first_bound_lem [] bound b h = cc
first_bound_lem (cls ∷ mro) bound b h = elim (Option-cases (find cls bound)) [
  | inl free ↦
      let (before, k, after, split, found, none_before) =
        first_bound_lem mro bound b (ground arith) in
      (cls ∷ before, k, after, ap (◌∷◌ cls) split, found, (free, none_before))
  | inr (c, found) ↦ ([], cls, mro, refl, ground arith, tt)
]

-- The binding that answers for an exception is bound to a class of the exception before which no
-- class of its method resolution order is bound: the most specific one.
pub contract_for-MostSpecific :
    (error : Exception) (bound : Bound) (b : ErrorBinding)
    → contract_for error bound ≡ some b
    → MostSpecific error.mro bound b
unfolding contract_for
contract_for-MostSpecific error bound b h = first_bound_lem error.mro bound b h
