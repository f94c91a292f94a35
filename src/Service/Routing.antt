-- ===== src/Service/Routing.antt =====
-- `RpcService.match`, `endpoint` and `serve` of rpckit/service.py: which endpoint serves a path.
pub mod Priority
pub mod Static
use pyrpckit.Connection.Rejection.{Rejections, chain_rejections}
use pyrpckit.Errors.Types.{ErrorBinding}
use pyrpckit.Errors.Rejects.{contract_rejections}
use pyrpckit.Prelude.{
  Bool, List, Option, [], if◌then◌else◌, keep_if, none, not, some, ℕ, ◌++◌, ◌==◌, ◌>>=◌, ◌∷◌,
}
use pyrpckit.Service.Matching.{match_path}
use pyrpckit.Service.Endpoints.{Endpoint, has_char, same}

-- `"{" in endpoint.path`
abbrev pub is_templated : Endpoint → Bool
is_templated e = has_char b'{' e.path

-- `sorted(enumerate(endpoints), key=lambda item: ("{" in item[1].path, item[0]))`: the sort is
-- stable and its key has two values.
unfoldable pub ordered : List Endpoint → List Endpoint
ordered endpoints = keep_if (λ e. not (is_templated e)) endpoints ++ keep_if is_templated endpoints

module _ (decode : List ℕ → List ℕ) where
  unfoldable pub first_match : List Endpoint → List ℕ → Option (Endpoint × List (List ℕ × List ℕ))
  unfolding match_path
  first_match [] path = none
  first_match (e ∷ endpoints) path = elim (match_path decode e.path path) [
    | some values ↦ some (e, values)
    | none ↦ first_match endpoints path
  ]

  unfoldable pub match_service : List Endpoint → List ℕ → Option (Endpoint × List (List ℕ × List ℕ))
  unfolding ordered first_match
  match_service endpoints path = first_match (ordered endpoints) path

-- `RpcService.endpoint`; `none` is the `KeyError`.
unfoldable pub endpoint : List Endpoint → List ℕ → Option Endpoint
unfolding same
endpoint [] name = none
endpoint (e ∷ endpoints) name = if same e.name name then some e else endpoint endpoints name

-- `path.startswith(root_path)` and `path[len(root_path):]`
without_prefix : List ℕ → List ℕ → Option (List ℕ)
without_prefix [] path = some path
without_prefix (c ∷ root) [] = none
without_prefix (c ∷ root) (d ∷ path) =
    let rest = without_prefix root path in if c == d then rest else none

-- The path below `root_path`, at which an application is mounted.
unfoldable pub local_path : List ℕ → List ℕ → List ℕ
unfolding without_prefix
local_path root path = elim (without_prefix root path) [
  | none ↦ path
  | some [] ↦ elim root [ [] ↦ path | c ∷ more ↦ b'/' ∷ [] ]
  | some (c ∷ rest) ↦ c ∷ rest
]

-- `RpcService.serve`: the endpoint that serves the handshake; `none` is the rejection `NOT_FOUND`.
unfoldable pub serve :
    (List ℕ → List ℕ) → List Endpoint → List ℕ → List ℕ → Option (Endpoint × List (List ℕ × List ℕ))
unfolding match_service local_path
serve decode endpoints root path = match_service decode endpoints (local_path root path)

-- `endpoint_rejections`: the endpoint's `rejects=`, then the service's.
unfoldable pub endpoint_rejections :
    List ErrorBinding → List ErrorBinding → Option (Option Rejections)
unfolding contract_rejections chain_rejections
endpoint_rejections of_endpoint of_service = do
  first ← contract_rejections of_endpoint
  second ← contract_rejections of_service
  some (chain_rejections (first ∷ second ∷ []))
