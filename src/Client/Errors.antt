-- ===== src/Client/Errors.antt =====
-- `_result`, `_error` and `_declared_error` of rpckit/connected_client.py: what a response of the
-- client becomes. `validate` is the validation of a result, and `validate_details` that of the
-- details of an error class; `none` is a `ValidationError`.
use pyrpckit.Prelude.{
  Bool, Bool-cases, List, Option, String, [], ap, arith, eq_iff, err, false, if◌then◌else◌, inl,
  inr, keep_if, none, ok, refl, some, str_eq, subst, sym, true, ◌>>=◌, ◌∷◌, ◌≡◌, ◌⊎◌,
}
use pyrpckit.Json.{Fields, Json, arr, bool, float, get, int, int_eq, null, obj, pos, str, ℤ}
use pyrpckit.Connection.Rejection.{RpcError}
use pyrpckit.Errors.Types.{ErrorClass, construct}

-- The exception that `_error` returns: an instance of a declared error, or
-- `RpcClientMethodFailedError` with its code, error code, message and details.
pub data RemoteError : Type 0 where
  declared_remote : RpcError → RemoteError
  failed_remote : ℤ → String → String → Option Json → RemoteError

pub data CallResult (V : Type 0) : Type 0 where
  value_result : V → CallResult V
  remote_error : RemoteError → CallResult V
  -- `RpcClientMethodResultError`
  bad_result : CallResult V

-- `next((error for error in errors if error.code == code), None)`
unfoldable pub first_with_code : String → List ErrorClass → Option ErrorClass
first_with_code code [] = none
first_with_code code (e ∷ es) = if str_eq e.class_code code then some e else first_with_code code es

unfoldable pub with_rpc_code : ℤ → List ErrorClass → List ErrorClass
with_rpc_code rpc_code errors = keep_if (λ e. int_eq e.class_rpc_code rpc_code) errors

-- `matches[0] if len(matches) == 1 else None`
unfoldable pub the_only : List ErrorClass → Option ErrorClass
the_only [] = none
the_only (e ∷ []) = some e
the_only (e ∷ d ∷ rest) = none

unfoldable pub declared_remote_error : List ErrorClass → Option Json → ℤ → Option ErrorClass
unfolding first_with_code with_rpc_code the_only
declared_remote_error errors (some (str code)) rpc_code =
    if str_eq code "" then the_only (with_rpc_code rpc_code errors) else first_with_code code errors
declared_remote_error errors _ rpc_code = the_only (with_rpc_code rpc_code errors)

-- JSON's `null` is Python's `None`.
abbrev not_null : Option Json → Option Json
not_null (some null) = none
not_null value = value

abbrev member_of : String → Option Json → Option Json
member_of key (some (obj fs)) = not_null (get key fs)
member_of key _ = none

abbrev int_or_zero : Option Json → ℤ
int_or_zero (some (int n)) = n
int_or_zero (some (bool true)) = pos 1
int_or_zero _ = pos 0

abbrev text_or : String → Option Json → String
text_or fallback (some (str s)) = s
text_or fallback _ = fallback

module _ (validate_details : ErrorClass → Option Json → Option Json) where
  -- The instance of the declared class, if it can be made.
  instance_of : ErrorClass → Option Json → String → Option RpcError
  instance_of cls details message = elim cls.details_type [
    | none ↦ elim (construct cls none message) [ err raised ↦ none | ok error ↦ some error ]
    | some accepts ↦ elim (validate_details cls details) [
      | none ↦ none
      | some value ↦ elim (construct cls (some value) message) [
        | err raised ↦ none
        | ok error ↦ some error
      ]
    ]
  ]

  or_failed : ℤ → Option Json → String → Option Json → Option RpcError → RemoteError
  or_failed rpc_code code message details (some error) = declared_remote error
  or_failed rpc_code code message details none =
      failed_remote rpc_code (text_or "" code) message details

  remote_object : List ErrorClass → Fields → RemoteError
  unfolding instance_of or_failed
  remote_object errors fs =
      let code = member_of "code" (get "data" fs) in
      let details = member_of "details" (get "data" fs) in
      let rpc_code = int_or_zero (get "code" fs) in
      let message = text_or "Remote RPC error" (get "message" fs) in
      or_failed rpc_code code message details
        (do cls ← declared_remote_error errors code rpc_code; instance_of cls details message)

  -- `_error`
  unfoldable pub remote_error_of : List ErrorClass → Json → RemoteError
  unfolding remote_object
  remote_error_of errors (obj fs) = remote_object errors fs
  remote_error_of errors _ = failed_remote (pos 0) "" "Invalid error response" none

  module _ {V : Type 0} (validate : Json → Option V) where
    abbrev validated : Option V → CallResult V
    validated none = bad_result
    validated (some value) = value_result value

    -- `_result`; a response has a member `error` or a member `result`.
    unfoldable pub result_of : List ErrorClass → Fields → CallResult V
    result_of errors message = elim (get "error" message) [
      | some error ↦ remote_error (remote_error_of errors error)
      | none ↦ elim (get "result" message) [
        | some value ↦ validated (validate value)
        | none ↦ bad_result
      ]
    ]

abbrev pub IsIn : ErrorClass → List ErrorClass → Type 0
IsIn e [] = ⊥
IsIn e (d ∷ ds) = (d ≡ e) ⊎ IsIn e ds

first_with_code_lem :
    (code : String) (errors : List ErrorClass) (e : ErrorClass)
    → first_with_code code errors ≡ some e
    → IsIn e errors × (e.class_code ≡ code)
unfolding first_with_code
first_with_code_lem code [] e h = cc
first_with_code_lem code (d ∷ ds) e h = elim (Bool-cases (str_eq d.class_code code)) [
  | inl hit ↦
      let same : d ≡ e = ground arith in
      (inl same, subst (λ k. k.class_code ≡ code) same ((eq_iff d.class_code code).0 hit))
  | inr miss ↦
      let (inside, same) = first_with_code_lem code ds e (ground arith) in (inr inside, same)
]

IsIn-keep_if :
    (test : ErrorClass → Bool) (errors : List ErrorClass) (e : ErrorClass)
    → IsIn e (keep_if test errors)
    → IsIn e errors
IsIn-keep_if test [] e h = h
IsIn-keep_if test (d ∷ ds) e h = go (test d) (IsIn-keep_if test ds e) h
  where
    go :
        (b : Bool)
        → (IsIn e (keep_if test ds) → IsIn e ds)
        → IsIn e (if b then d ∷ keep_if test ds else keep_if test ds)
        → IsIn e (d ∷ ds)
    go true deeper (inl same) = inl same
    go true deeper (inr inside) = inr (deeper inside)
    go false deeper inside = inr (deeper inside)

the_only_lem : (es : List ErrorClass) (e : ErrorClass) → the_only es ≡ some e → es ≡ e ∷ []
unfolding the_only
the_only_lem [] e h = cc
the_only_lem (d ∷ []) e h = let same : d ≡ e = ground arith in ap (λ k. k ∷ []) same
the_only_lem (d ∷ c ∷ ds) e h = cc

-- Why an error class stands for a remote error: it has the given code, or it is the only declared
-- one with the given number.
abbrev pub IsMeantBy : List ErrorClass → Option Json → ℤ → ErrorClass → Type 0
IsMeantBy errors code rpc_code e =
    ((name : String) × (code ≡ some (str name)) × (e.class_code ≡ name))
    ⊎ (with_rpc_code rpc_code errors ≡ e ∷ [])

by_number :
    (errors : List ErrorClass) (code : Option Json) (rpc_code : ℤ) (e : ErrorClass)
    → the_only (with_rpc_code rpc_code errors) ≡ some e
    → IsIn e errors × IsMeantBy errors code rpc_code e
by_number errors code rpc_code e h =
    let alone : with_rpc_code rpc_code errors ≡ e ∷ [] =
      the_only_lem (with_rpc_code rpc_code errors) e h in
    let inside : IsIn e (with_rpc_code rpc_code errors) = subst (IsIn e) (sym alone) (inl refl) in
    (
      unfold with_rpc_code in IsIn-keep_if (λ d. int_eq d.class_rpc_code rpc_code) errors e inside,
      inr alone,
    )

-- The class that a remote error is turned into is one that the client method declares, and either
-- has the code that the response names, or is the only declared one with the response's number:
-- of several classes with one number, none is guessed.
pub declared_remote_error_lem :
    (errors : List ErrorClass) (code : Option Json) (rpc_code : ℤ) (e : ErrorClass)
    → declared_remote_error errors code rpc_code ≡ some e
    → IsIn e errors × IsMeantBy errors code rpc_code e
unfolding declared_remote_error
declared_remote_error_lem errors (some (str code)) rpc_code e h =
    elim (Bool-cases (str_eq code "")) [
      | inl blank ↦ by_number errors (some (str code)) rpc_code e (ground arith)
      | inr named ↦
          let (inside, same) = first_with_code_lem code errors e (ground arith) in
          (inside, inl (code, refl, same))
    ]
declared_remote_error_lem errors none rpc_code e h = by_number errors none rpc_code e h
declared_remote_error_lem errors (some null) rpc_code e h =
    by_number errors (some null) rpc_code e h
declared_remote_error_lem errors (some (bool b)) rpc_code e h =
    by_number errors (some (bool b)) rpc_code e h
declared_remote_error_lem errors (some (int n)) rpc_code e h =
    by_number errors (some (int n)) rpc_code e h
declared_remote_error_lem errors (some (float t)) rpc_code e h =
    by_number errors (some (float t)) rpc_code e h
declared_remote_error_lem errors (some (arr vs)) rpc_code e h =
    by_number errors (some (arr vs)) rpc_code e h
declared_remote_error_lem errors (some (obj fs)) rpc_code e h =
    by_number errors (some (obj fs)) rpc_code e h
