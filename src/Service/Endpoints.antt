-- ===== src/Service/Endpoints.antt =====
-- The endpoints of an `RpcService` (rpckit/service.py): `_validate_endpoint`, `_endpoint_name`, and
-- `socket`, `stream` and `raw_socket`, which mount one. A text is the list of its code points, a
-- channel or a decorated function is known by a number.
use pyrpckit.Prelude.{
  Bool, List, Option, Result, [], all, any, arith, err, false, if◌then◌else◌, leb, map, none, not,
  ok, refl, some, true, ℕ, ◌&&◌, ◌++◌, ◌==◌, ◌||◌, ◌∷◌, ◌≡◌,
}
use pyrpckit.Errors.Types.{ErrorBinding}
use pyrpckit.Service.Templates.{Piece, pieces, substitute, variables}

-- `==` of two texts.
unfoldable pub same : List ℕ → List ℕ → Bool
same [] [] = true
same (c ∷ s) (d ∷ t) = c == d && same s t
same _ _ = false

unfoldable pub in_texts : List ℕ → List (List ℕ) → Bool
in_texts text [] = false
in_texts text (t ∷ texts) = same t text || in_texts text texts

-- `len(texts) == len(set(texts))`
unfoldable pub distinct : List (List ℕ) → Bool
unfolding in_texts
distinct [] = true
distinct (t ∷ texts) = not (in_texts t texts) && distinct texts

abbrev pub has_char : ℕ → List ℕ → Bool
has_char c text = any (λ d. d == c) text

-- `"//" in path`
double_slash : List ℕ → Bool
double_slash [] = false
double_slash (c ∷ []) = false
double_slash (c ∷ d ∷ text) = (c == b'/' && d == b'/') || double_slash (d ∷ text)

unfoldable pub ends_with : ℕ → List ℕ → Bool
ends_with c [] = false
ends_with c (d ∷ []) = d == c
ends_with c (d ∷ e ∷ text) = ends_with c (e ∷ text)

starts_with : ℕ → List ℕ → Bool
starts_with c [] = false
starts_with c (d ∷ text) = d == c

is_digit : ℕ → Bool
is_digit c = leb b'0' c && leb c b'9'

is_letter : ℕ → Bool
is_letter c = (leb b'A' c && leb c b'Z') || (leb b'a' c && leb c b'z')

-- `[A-Za-z_][A-Za-z0-9_]*`
pub is_identifier : List ℕ → Bool
unfolding is_letter is_digit
is_identifier [] = false
is_identifier (c ∷ text) =
    (is_letter c || c == b'_') && all (λ d. is_letter d || is_digit d || d == b'_') text

-- `[A-Za-z][A-Za-z0-9_-]*`
pub is_endpoint_name : List ℕ → Bool
unfolding is_letter is_digit
is_endpoint_name [] = false
is_endpoint_name (c ∷ text) =
    is_letter c && all (λ d. is_letter d || is_digit d || d == b'_' || d == b'-') text

-- `path.split("/")`
split_slash : List ℕ → List ℕ → List (List ℕ)
split_slash segment [] = segment ∷ []
split_slash segment (c ∷ path) =
    let next = split_slash [] path in
    let longer = split_slash (segment ++ c ∷ []) path in
    if c == b'/' then segment ∷ next else longer

-- The last segment that is not empty and has no variable.
last_plain : Option (List ℕ) → List (List ℕ) → Option (List ℕ)
last_plain found [] = found
last_plain found ([] ∷ segments) = last_plain found segments
last_plain found ((c ∷ text) ∷ segments) =
    let plain = not (has_char b'{' (c ∷ text)) in
    last_plain (if plain then some (c ∷ text) else found) segments

unfoldable pub endpoint_name : List ℕ → Option (List ℕ)
unfolding split_slash last_plain
endpoint_name path = last_plain none (split_slash [] path)

-- Each `ProtocolDefinitionError`, for its message.
pub data Refusal : Type 0 where
  invalid_path invalid_variables underivable_name invalid_name invalid_subprotocol : Refusal
  duplicate_name duplicate_path frozen path_model_fields no_channels channel_mounted : Refusal
  duplicate_channels handler_mounted not_decorated not_path_variables invalid_rejects : Refusal

pub record Channel : Type 0 where
  pub channel_ident : ℕ
  pub channel_name : List ℕ

pub data EndpointKind : Type 0 where
  -- `RpcEndpoint`: its channels and `close_when_events_complete`
  rpc_endpoint : List Channel → Bool → EndpointKind
  -- `RpcStreamEndpoint` and `RpcRawSocketEndpoint`: the definition's number, its name, its channel
  stream_endpoint raw_endpoint : ℕ → List ℕ → Channel → EndpointKind

pub record Endpoint : Type 0 where
  pub name : List ℕ
  pub path : List ℕ
  pub kind : EndpointKind
  pub subprotocol : Option (List ℕ)
  pub path_variables : List (List ℕ)
  pub rejects : List ErrorBinding

-- `re.sub(r"{[^{}]+}", "{}", path)`
unfoldable pub normalized : List ℕ → List ℕ
normalized path = substitute (b'{' ∷ b'}' ∷ []) (pieces path)

pub valid_path : List ℕ → Bool
unfolding double_slash ends_with starts_with
valid_path path =
    starts_with b'/' path
    && not (not (same path (b'/' ∷ [])) && ends_with b'/' path)
    && not (has_char b'?' path)
    && not (has_char b'#' path)
    && not (double_slash path)

pub valid_variables : List Piece → Bool
unfolding distinct is_identifier
valid_variables ps =
    distinct (variables ps)
    && all is_identifier (variables ps)
    && not (has_char b'{' (substitute [] ps))

-- `name or _endpoint_name(path)`
pub chosen_name : Option (List ℕ) → List ℕ → Option (List ℕ)
chosen_name none path = endpoint_name path
chosen_name (some []) path = endpoint_name path
chosen_name (some (c ∷ name)) path = some (c ∷ name)

empty_text : Option (List ℕ) → Bool
empty_text (some []) = true
empty_text _ = false

-- `_validate_endpoint`; it returns the variables, and the name that the callers compute again.
unfoldable pub validate_endpoint :
    List Endpoint
    → List ℕ
    → Option (List ℕ)
    → Option (List ℕ)
    → Result Refusal (List (List ℕ) × List ℕ)
unfolding valid_path valid_variables chosen_name empty_text in_texts normalized is_endpoint_name
validate_endpoint endpoints path name subprotocol =
    if not (valid_path path)
    then err invalid_path
    else if not (valid_variables (pieces path))
    then err invalid_variables
    else elim (chosen_name name path) [
      | none ↦ err underivable_name
      | some chosen ↦
          if not (is_endpoint_name chosen)
          then err invalid_name
          else if empty_text subprotocol
          then err invalid_subprotocol
          else if in_texts chosen (map (λ e. e.name) endpoints)
          then err duplicate_name
          else if in_texts (normalized path) (map (λ e. normalized e.path) endpoints)
          then err duplicate_path
          else ok (variables (pieces path), chosen)
    ]

-- What holds of an endpoint that is let through.
pub record IsFresh (endpoints : List Endpoint) (path name : List ℕ) : Type 0 where
  pub fresh_name : in_texts name (map (λ e. e.name) endpoints) ≡ false
  pub fresh_path : in_texts (normalized path) (map (λ e. normalized e.path) endpoints) ≡ false
  pub path_valid : valid_path path ≡ true
  pub variables_valid : valid_variables (pieces path) ≡ true
  pub name_valid : is_endpoint_name name ≡ true

pub validate_endpoint-IsFresh :
    (endpoints : List Endpoint) (path : List ℕ) (given subprotocol : Option (List ℕ))
    (vars : List (List ℕ)) (name : List ℕ)
    → validate_endpoint endpoints path given subprotocol ≡ ok (vars, name)
    → IsFresh endpoints path name
validate_endpoint-IsFresh endpoints path given subprotocol vars name h = record {
  fresh_name = unfold validate_endpoint in ground (arith, h);
  fresh_path = unfold validate_endpoint in ground (arith, h);
  path_valid = unfold validate_endpoint in ground (arith, h);
  variables_valid = unfold validate_endpoint in ground (arith, h);
  name_valid = unfold validate_endpoint in ground (arith, h);
}

pub same-sym : (s t : List ℕ) → same s t ≡ same t s
unfolding same
same-sym [] [] = refl
same-sym [] (d ∷ t) = refl
same-sym (c ∷ s) [] = refl
same-sym (c ∷ s) (d ∷ t) = ground (arith, same-sym s t)
