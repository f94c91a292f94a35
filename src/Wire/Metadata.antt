-- ===== src/Wire/Metadata.antt =====
-- `validate_request_metadata` and `observed_request_metadata` of rpckit/request_metadata.py. The
-- size of the encoded metadata is a parameter, `none` where `.encode()` raises
-- `UnicodeEncodeError`; a `ValueError` is `none`.
use pyrpckit.Prelude.{
  Bool, List, Option, Option-cases, String, [], ap, arith, false, if◌then◌else◌, inl, inr, leb,
  none, some, true, ℕ, ◌&&◌, ◌∷◌, ◌≡◌, ◌≤◌,
}
use pyrpckit.Json.{Fields, Json, arr, bool, end, field, float, get, int, mem_str, null, obj, str}

abbrev pub request_metadata_keys : List String
request_metadata_keys = "traceparent" ∷ "tracestate" ∷ "baggage" ∷ []

abbrev pub request_metadata_max_bytes : ℕ
request_metadata_max_bytes = 4096

-- `key in REQUEST_METADATA_KEYS and isinstance(item, str)` for every member
unfoldable pub supported_fields : Fields → Bool
supported_fields end = true
supported_fields (field key (str item) fs) =
    mem_str key request_metadata_keys && supported_fields fs
supported_fields (field key item fs) = false

module _ (encoded_size : Fields → Option ℕ) where
  fits : Option ℕ → Bool
  fits none = false
  fits (some size) = leb size request_metadata_max_bytes

  unfoldable pub validate_request_metadata : Json → Option Fields
  unfolding supported_fields fits
  validate_request_metadata (obj fs) =
      if supported_fields fs && fits (encoded_size fs) then some fs else none
  validate_request_metadata value = none

  unfoldable pub observed_request_metadata : Json → Option Fields
  unfolding validate_request_metadata
  observed_request_metadata (obj fs) = elim (get "meta" fs) [
    | none ↦ none
    | some value ↦ validate_request_metadata value
  ]
  observed_request_metadata request = none

  -- What is accepted is the given object itself, has supported text members only, and encodes to
  -- at most 4096 bytes.
  pub validate_request_metadata_sound :
      (value : Json) (fs : Fields)
      → validate_request_metadata value ≡ some fs
      → (value ≡ obj fs)
        × (supported_fields fs ≡ true)
        × ((n : ℕ) × (encoded_size fs ≡ some n) × (n ≤ request_metadata_max_bytes))
  unfolding validate_request_metadata
  validate_request_metadata_sound (obj gs) fs h = elim (Option-cases (encoded_size gs)) [
    | inl e ↦ ground arith
    | inr (n, e) ↦
        let same : gs ≡ fs = ground arith in
        (ap obj same, ground arith, (n, ground arith, ground arith))
  ]
  validate_request_metadata_sound null fs h = cc
  validate_request_metadata_sound (bool b) fs h = cc
  validate_request_metadata_sound (int n) fs h = cc
  validate_request_metadata_sound (float t) fs h = cc
  validate_request_metadata_sound (str s) fs h = cc
  validate_request_metadata_sound (arr vs) fs h = cc
