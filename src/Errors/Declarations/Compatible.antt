-- ===== src/Errors/Declarations/Compatible.antt =====
-- When a list of bindings is accepted as one index.
use pyrpckit.Prelude.{
  Bool, List, Option, Option-cases, [], all, arith, false, inl, inr, none, not, refl, some, subst,
  true, ℕ, ◌&&◌, ◌++◌, ◌==◌, ◌||◌, ◌∷◌, ◌≡◌,
}
use pyrpckit.Errors.Types.{ErrorBinding}
use pyrpckit.Errors.Bindings.{Bound, bind_contracts, bind_from, find, find-append}

-- Bindings of one exception are one binding.
abbrev pub agree : ErrorBinding → ErrorBinding → Bool
agree a b = not (a.exception == b.exception) || a.binding_ident == b.binding_ident

abbrev pub compatible : List ErrorBinding → Bool
compatible [] = true
compatible (c ∷ cs) = all (agree c) cs && compatible cs

abbrev pub is_accepted : Option Bound → Bool
is_accepted none = false
is_accepted (some bound) = true

fits_index : Bound → ErrorBinding → Bool
fits_index bound c = elim (find c.exception bound) [
  | none ↦ true
  | some previous ↦ previous.binding_ident == c.binding_ident
]

find_same :
    (bound : Bound) (k j : ℕ) (o : Option ErrorBinding)
    → find k bound ≡ o
    → k ≡ j
    → find j bound ≡ o
find_same bound k j o h e = subst (λ i. find i bound ≡ o) e h

-- Behind a binding that was free, the index accepts what it accepted and what agrees with it.
fits_added :
    (bound : Bound) (c : ErrorBinding) (cs : List ErrorBinding)
    → find c.exception bound ≡ none
    → all (fits_index (bound ++ (c.exception, c) ∷ [])) cs
      ≡ (all (fits_index bound) cs && all (agree c) cs)
unfolding fits_index find
fits_added bound c [] h = refl
fits_added bound c (d ∷ ds) h = ground (
  arith,
  fits_added bound c ds h,
  find-append d.exception bound ((c.exception, c) ∷ []),
  find_same bound c.exception d.exception none h,
)

-- Behind a binding that the index has already, agreeing with it is nothing new.
fits_known :
    (bound : Bound) (c previous : ErrorBinding) (cs : List ErrorBinding)
    → find c.exception bound ≡ some previous
    → previous.binding_ident ≡ c.binding_ident
    → all (fits_index bound) cs ≡ true
    → all (agree c) cs ≡ true
unfolding fits_index
fits_known bound c previous [] h e f = refl
fits_known bound c previous (d ∷ ds) h e f = ground (
  arith,
  fits_known bound c previous ds h e,
  find_same bound c.exception d.exception (some previous) h,
)

bind_from_lem :
    (bound : Bound) (cs : List ErrorBinding)
    → is_accepted (bind_from bound cs) ≡ (all (fits_index bound) cs && compatible cs)
unfolding bind_from fits_index
bind_from_lem bound [] = refl
bind_from_lem bound (c ∷ cs) = elim (Option-cases (find c.exception bound)) [
  | inl free ↦
      ground (arith, bind_from_lem (bound ++ (c.exception, c) ∷ []) cs, fits_added bound c cs free)
  | inr (previous, taken) ↦
      ground (arith, bind_from_lem bound cs, fits_known bound c previous cs taken)
]

fits_empty : (cs : List ErrorBinding) → all (fits_index []) cs ≡ true
unfolding fits_index find
fits_empty [] = refl
fits_empty (c ∷ cs) = fits_empty cs

-- A list of bindings is accepted exactly when no two distinct ones bind the same exception.
pub bind_contracts-eq-compatible :
    (cs : List ErrorBinding) → is_accepted (bind_contracts cs) ≡ compatible cs
unfolding bind_contracts
bind_contracts-eq-compatible cs = ground (arith, bind_from_lem [] cs, fits_empty cs)
