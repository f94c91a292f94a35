-- ===== src/Errors/Declarations/Merge.antt =====
-- An operation's own declarations beside those that it inherits.
use pyrpckit.Prelude.{
  Bool, List, Option-cases, [], all, any, arith, inl, inr, keep_if, refl, true, ℕ, ◌==◌, ◌∷◌, ◌≡◌,
}
use pyrpckit.Errors.Types.{ErrorBinding, ErrorType}
use pyrpckit.Errors.Declarations.{contracts_of}
use pyrpckit.Errors.Declarations.Compatible.{agree, compatible}

all-keep :
    (test : ErrorBinding → Bool) (keeps : ErrorType → Bool) (xs : List ErrorType)
    → all test (contracts_of xs) ≡ true
    → all test (contracts_of (keep_if keeps xs)) ≡ true
unfolding contracts_of
all-keep test keeps [] h = refl
all-keep test keeps (x ∷ xs) h = ground (arith, all-keep test keeps xs)

compatible-keep :
    (keeps : ErrorType → Bool) (xs : List ErrorType)
    → compatible (contracts_of xs) ≡ true
    → compatible (contracts_of (keep_if keeps xs)) ≡ true
unfolding contracts_of
compatible-keep keeps [] h = refl
compatible-keep keeps (x ∷ xs) h = elim (Option-cases x.contract) [
  | inl unbound ↦ ground (arith, compatible-keep keeps xs)
  | inr (c, bound) ↦ ground (arith, compatible-keep keeps xs, all-keep (agree c) keeps xs)
]

-- The classes that an operation ends with.
abbrev pub has_class : ℕ → List ErrorType → Bool
has_class ident errors = any (λ e. e.error_class.ident == ident) errors
