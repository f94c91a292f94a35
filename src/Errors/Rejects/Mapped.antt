-- ===== src/Errors/Rejects/Mapped.antt =====
-- What the `rejects=` of an accepted declaration do with a failure.
use pyrpckit.Prelude.{
  Bool, List, Option, Option-cases, [], all, arith, false, inl, inr, none, ok, refl, some, subst,
  true, ℕ, ◌&&◌, ◌++◌, ◌∷◌, ◌≡◌, ◌≢◌,
}
use pyrpckit.Connection.Rejection.{Exception}
use pyrpckit.Errors.Types.{ErrorBinding, reject_for}
use pyrpckit.Errors.Bindings.{Bound, bind_contracts, bind_from, contract_for, find, first_bound}
use pyrpckit.Errors.Rejects.{reject_bound, rejecting_contracts, rejects_once}

is_given {ℓ} : {A : Type ℓ} → Option A → Bool
is_given none = false
is_given (some a) = true

has_rejection : ErrorBinding → Bool
unfolding is_given
has_rejection contract = is_given contract.rejection

-- Every binding of a result, if there is one.
abbrev every : Option (List ErrorBinding) → Bool
every none = true
every (some contracts) = all has_rejection contracts

every-rejects_once :
    (seen : List ℕ) (rejects : List (Option ErrorBinding))
    → every (rejects_once seen rejects) ≡ true
unfolding rejects_once has_rejection is_given
every-rejects_once seen [] = refl
every-rejects_once seen (none ∷ rejects) = refl
every-rejects_once seen (some contract ∷ rejects) = ground (
  arith,
  every-rejects_once seen rejects,
  every-rejects_once (contract.binding_ident ∷ seen) rejects,
)

abbrev indexed : Bound → Bool
indexed bound = all (λ entry. has_rejection entry.1) bound

abbrev every_indexed : Option Bound → Bool
every_indexed none = true
every_indexed (some bound) = indexed bound

indexed-append : (bound more : Bound) → indexed (bound ++ more) ≡ (indexed bound && indexed more)
indexed-append [] more = refl
indexed-append (entry ∷ bound) more = ground (arith, indexed-append bound more)

every_indexed-bind_from :
    (bound : Bound) (contracts : List ErrorBinding)
    → indexed bound ≡ true
    → all has_rejection contracts ≡ true
    → every_indexed (bind_from bound contracts) ≡ true
unfolding bind_from
every_indexed-bind_from bound [] b h = b
every_indexed-bind_from bound (contract ∷ contracts) b h =
    let added = bound ++ (contract.exception, contract) ∷ [] in
    let fine : indexed added ≡ true =
      ground (arith, indexed-append bound ((contract.exception, contract) ∷ [])) in
    let rest : all has_rejection contracts ≡ true = ground (arith, h) in
    ground (
      arith,
      every_indexed-bind_from added contracts fine rest,
      every_indexed-bind_from bound contracts b rest,
    )

found : Option ErrorBinding → Bool
found none = true
found (some contract) = has_rejection contract

found-find : (cls : ℕ) (bound : Bound) → indexed bound ≡ true → found (find cls bound) ≡ true
unfolding find found
found-find cls [] h = refl
found-find cls ((key, contract) ∷ bound) h = ground (arith, h, found-find cls bound)

found-first_bound :
    (mro : List ℕ) (bound : Bound) → indexed bound ≡ true → found (first_bound mro bound) ≡ true
unfolding first_bound found
found-first_bound [] bound h = refl
found-first_bound (cls ∷ mro) bound h =
    ground (arith, found-find cls bound h, found-first_bound mro bound h)

-- A binding that rejects never leaves a failure to the next level.
reject_for-decides :
    (contract : ErrorBinding) (error : Exception)
    → has_rejection contract ≡ true
    → reject_for contract error ≢ ok none
unfolding reject_for has_rejection is_given
reject_for-decides contract error h e = absurd (ground (arith, h, e))

accepted :
    (rejects : List (Option ErrorBinding)) (contracts : List ErrorBinding)
    → rejecting_contracts rejects ≡ some contracts
    → (all has_rejection contracts ≡ true)
      × ((bound : Bound) × (bind_contracts contracts ≡ some bound))
unfolding rejecting_contracts
accepted rejects contracts h = elim (Option-cases (rejects_once [] rejects)) [
  | inl n ↦ absurd (ground (arith, h, n))
  | inr (cs, n) ↦ elim (Option-cases (bind_contracts cs)) [
    | inl m ↦ absurd (ground (arith, h, n, m))
    | inr (bound, m) ↦
        let same : cs ≡ contracts = ground (arith, h, n, m) in
        (
          subst (λ t. all has_rejection t ≡ true) same
              (subst (λ t. every t ≡ true) n (every-rejects_once [] rejects)),
          (bound, subst (λ t. bind_contracts t ≡ some bound) same m),
        )
  ]
]

reject_bound-found :
    (bound : Bound) (error : Exception) (contract : ErrorBinding)
    → contract_for error bound ≡ some contract
    → reject_bound bound error ≡ reject_for contract error
unfolding reject_bound
reject_bound-found bound error contract f = rw (f, reject_bound) refl

contract_for-HasRejection :
    (bound : Bound) (error : Exception) (contract : ErrorBinding)
    → indexed bound ≡ true
    → contract_for error bound ≡ some contract
    → has_rejection contract ≡ true
unfolding contract_for found
contract_for-HasRejection bound error contract listed f =
    subst (λ t. found t ≡ true) f (found-first_bound error.mro bound listed)

-- Accepted `rejects=` make a mapper, and a failure for which one of them is found is rejected as
-- that binding says: the mapper never leaves it to the next level.
pub rejecting_contracts-decide :
    (rejects : List (Option ErrorBinding)) (contracts : List ErrorBinding)
    → rejecting_contracts rejects ≡ some contracts
    → (bound : Bound) × (bind_contracts contracts ≡ some bound)
      × ((error : Exception) (contract : ErrorBinding)
          → contract_for error bound ≡ some contract
          → (reject_bound bound error ≡ reject_for contract error)
            × (reject_for contract error ≢ ok none))
unfolding bind_contracts
rejecting_contracts-decide rejects contracts h =
    let (given, (bound, binds)) = accepted rejects contracts h in
    let listed : indexed bound ≡ true =
      subst (λ t. every_indexed t ≡ true) binds (every_indexed-bind_from [] contracts refl given) in
    (
      bound,
      binds,
      λ error contract f. (
        reject_bound-found bound error contract f,
        reject_for-decides contract error (contract_for-HasRejection bound error contract listed f),
      ),
    )
