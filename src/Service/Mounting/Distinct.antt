-- ===== src/Service/Mounting/Distinct.antt =====
-- Endpoints keep distinct names and paths.
use pyrpckit.Errors.Types.{ErrorBinding}
use pyrpckit.Errors.Rejects.{rejecting_contracts}
use pyrpckit.Service.Templates.{pieces}
use pyrpckit.Prelude.{
  Bool, List, Option-cases, [], all, arith, false, inl, inr, map, ok, refl, true, ℕ, ◌&&◌, ◌++◌,
  ◌||◌, ◌∷◌, ◌≡◌,
}
use pyrpckit.Service.Endpoints.{
  Endpoint, EndpointKind, IsFresh, distinct, in_texts, is_endpoint_name, normalized, same, same-sym,
  valid_path, valid_variables, validate_endpoint-IsFresh,
}
use pyrpckit.Service.Mounting.{Options, Service, append_endpoint, endpoint_of, open_endpoint}

in_texts-append :
    (x t : List ℕ) (texts : List (List ℕ))
    → in_texts x (texts ++ t ∷ []) ≡ (in_texts x texts || same x t)
unfolding in_texts
in_texts-append x t [] = ground (arith, same-sym x t)
in_texts-append x t (u ∷ texts) = ground (arith, in_texts-append x t texts)

distinct-append :
    (t : List ℕ) (texts : List (List ℕ))
    → distinct texts ≡ true
    → in_texts t texts ≡ false
    → distinct (texts ++ t ∷ []) ≡ true
unfolding distinct in_texts
distinct-append t [] h n = refl
distinct-append t (u ∷ texts) h n =
    ground (arith, distinct-append t texts, in_texts-append u t texts, same-sym u t, h, n)

map-append {ℓ κ} :
    {A : Type ℓ} {B : Type κ} (f : A → B) (xs : List A) (x : A)
    → map f (xs ++ x ∷ []) ≡ map f xs ++ f x ∷ []
map-append f [] x = refl
map-append f (y ∷ xs) x = cc (map-append f xs x)

abbrev pub names : Service → List (List ℕ)
names service = map (λ e. e.name) service.endpoints

abbrev pub paths : Service → List (List ℕ)
paths service = map (λ e. normalized e.path) service.endpoints

-- An endpoint that `_validate_endpoint` let through.
abbrev pub accepted_endpoint : Endpoint → Bool
accepted_endpoint e =
    valid_path e.path && valid_variables (pieces e.path) && is_endpoint_name e.name

-- Names are distinct, and paths that differ only in the names of their variables do not meet.
pub record IsRoutable (service : Service) : Type 0 where
  pub distinct_names : distinct (names service) ≡ true
  pub distinct_paths : distinct (paths service) ≡ true
  pub all_accepted : all accepted_endpoint service.endpoints ≡ true

abbrev pub IsFreshFor : Service → Options → List (List ℕ) × List ℕ → Type 0
IsFreshFor service options valid = IsFresh service.endpoints options.given_path valid.1

pub open_endpoint-IsFresh :
    (service : Service) (options : Options) (valid : List (List ℕ) × List ℕ)
    → open_endpoint service options ≡ ok valid
    → IsFreshFor service options valid
unfolding open_endpoint
open_endpoint-IsFresh service options (vars, chosen) h =
    validate_endpoint-IsFresh service.endpoints options.given_path options.given_name
      options.given_subprotocol vars chosen (ground (arith, h))

all-append {ℓ} :
    {A : Type ℓ} (test : A → Bool) (xs : List A) (x : A)
    → all test (xs ++ x ∷ []) ≡ (all test xs && test x)
all-append test [] x = ground arith
all-append test (y ∷ xs) x = ground (arith, all-append test xs x)

-- The endpoints of a service, one appended.
appended-IsRoutable :
    (service after : Service) (e : Endpoint)
    → IsRoutable service
    → IsFresh service.endpoints e.path e.name
    → after.endpoints ≡ service.endpoints ++ e ∷ []
    → IsRoutable after
appended-IsRoutable service after e r f is = record {
  distinct_names =
      rw (is, map-append (λ x. x.name) service.endpoints e)
        (distinct-append e.name (names service) r.distinct_names f.fresh_name);
  distinct_paths =
      rw (is, map-append (λ x. normalized x.path) service.endpoints e)
        (distinct-append (normalized e.path) (paths service) r.distinct_paths f.fresh_path);
  all_accepted =
      rw
        (
          is,
          all-append accepted_endpoint service.endpoints e,
          r.all_accepted,
          f.path_valid,
          f.variables_valid,
          f.name_valid,
        )
        refl;
}

append_endpoint-endpoints :
    (service after : Service) (options : Options) (valid : List (List ℕ) × List ℕ)
    (kind : EndpointKind)
    → append_endpoint service options valid kind ≡ ok after
    → (rejects : List ErrorBinding) × (after.endpoints
        ≡ service.endpoints ++ endpoint_of options valid kind rejects ∷ [])
unfolding append_endpoint
append_endpoint-endpoints service after options (vars, chosen) kind h =
    elim (Option-cases (rejecting_contracts options.given_rejects)) [
      | inl n ↦ absurd (ground (arith, h, n))
      | inr (rejects, n) ↦ (rejects, ground (arith, h, n))
    ]

pub append_endpoint-IsRoutable :
    (service after : Service) (options : Options) (valid : List (List ℕ) × List ℕ)
    (kind : EndpointKind)
    → IsRoutable service
    → IsFreshFor service options valid
    → append_endpoint service options valid kind ≡ ok after
    → IsRoutable after
append_endpoint-IsRoutable service after options (vars, chosen) kind r f h =
    let (rejects, is) = append_endpoint-endpoints service after options (vars, chosen) kind h in
    appended-IsRoutable service after (endpoint_of options (vars, chosen) kind rejects) r f is

pub same_endpoints-IsRoutable :
    (service after : Service)
    → after.endpoints ≡ service.endpoints
    → IsRoutable service
    → IsRoutable after
same_endpoints-IsRoutable service after is r = record {
  distinct_names = rw is r.distinct_names;
  distinct_paths = rw is r.distinct_paths;
  all_accepted = rw is r.all_accepted;
}
