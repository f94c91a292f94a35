-- ===== src/Connection/Rejection.antt =====
-- `RpcReject`, `rejection_for` and `chain_rejections` of rpckit/connection.py. Python classes are
-- numbers; an exception carries its `__mro__`, its text, and what kind of rpckit exception it is.
use pyrpckit.Prelude.{
  Bool, List, Option, Result, String, [], arith, err, false, if◌then◌else◌, none, ok, refl, some, ℕ,
  ◌==◌, ◌||◌, ◌∙◌, ◌∷◌, ◌≡◌,
}
use pyrpckit.Json.{Json, ℤ}
use pyrpckit.Connection.Close.{ConnectionClose, Disconnect, Rejection}

pub record RpcReject : Type 0 where
  pub rejection : Rejection
  pub reason : String
  pub headers : Option (List (String × String))

-- An instance of a subclass of `RpcError` (rpckit/errors.py), with the attributes it was given.
pub record RpcError : Type 0 where
  pub classes : List ℕ
  pub code : String
  pub message : String
  pub details : Option Json
  pub rpc_code : ℤ
  pub builtin : Bool

pub data Kind : Type 0 where
  rpc : RpcError → Kind
  reject : RpcReject → Kind
  disconnected : Disconnect → Kind
  stream_close : ConnectionClose → String → Kind
  plain : Kind

pub record Exception : Type 0 where
  pub mro : List ℕ
  pub text : String
  pub kind : Kind

abbrev pub mem_num : ℕ → List ℕ → Bool
mem_num n [] = false
mem_num n (m ∷ ms) = m == n || mem_num n ms

abbrev pub is_instance : Exception → ℕ → Bool
is_instance error cls = mem_num cls error.mro

-- `Mapping[type[Exception], RpcRejection] | RpcRejectionMapper`; a mapper may raise.
pub data Rejections : Type 0 where
  table : List (ℕ × Rejection) → Rejections
  mapper : (Exception → Result Exception (Option RpcReject)) → Rejections

pub first_entry : Exception → List (ℕ × Rejection) → Option RpcReject
first_entry error [] = none
first_entry error ((cls, rejection) ∷ rest) =
    if is_instance error cls
    then some (record { rejection = rejection; reason = error.text; headers = none })
    else first_entry error rest

pub map_failure : Exception → Option Rejections → Result Exception (Option RpcReject)
unfolding first_entry
map_failure error none = ok none
map_failure error (some (table entries)) = ok (first_entry error entries)
map_failure error (some (mapper f)) = f error

abbrev as_reject : Kind → Option RpcReject
as_reject (reject r) = some r
as_reject other = none

unfoldable pub rejection_for : Exception → Option Rejections → Result Exception (Option RpcReject)
unfolding map_failure
rejection_for error rejections = elim (as_reject error.kind) [
  | some r ↦ ok (some r)
  | none ↦ map_failure error rejections
]

-- `[level for level in levels if level is not None]`
pub present : List (Option Rejections) → List Rejections
present [] = []
present (none ∷ levels) = present levels
present (some level ∷ levels) = level ∷ present levels

-- The loop of the combined mapper: the first level that maps the failure wins.
pub first_rejection : List Rejections → Exception → Result Exception (Option RpcReject)
first_rejection [] error = ok none
first_rejection (level ∷ levels) error =
    let rest = first_rejection levels error in
    elim (rejection_for error (some level)) [
      | ok none ↦ rest
      | ok (some r) ↦ ok (some r)
      | err raised ↦ err raised
    ]

pub combined : List Rejections → Option Rejections
combined [] = none
combined (level ∷ []) = some level
combined (first ∷ second ∷ levels) = some (mapper (first_rejection (first ∷ second ∷ levels)))

unfoldable pub chain_rejections : List (Option Rejections) → Option Rejections
unfolding present combined first_rejection
chain_rejections levels = combined (present levels)

-- The documented meaning of a chain, level by level, with no case for short chains.
unfoldable pub consult : List (Option Rejections) → Exception → Result Exception (Option RpcReject)
consult [] error = ok none
consult (none ∷ levels) error = consult levels error
consult (some level ∷ levels) error =
    let rest = consult levels error in
    elim (rejection_for error (some level)) [
      | ok none ↦ rest
      | ok (some r) ↦ ok (some r)
      | err raised ↦ err raised
    ]

consult-present :
    (levels : List (Option Rejections)) (error : Exception)
    → first_rejection (present levels) error ≡ consult levels error
unfolding present first_rejection consult
consult-present [] error = refl
consult-present (none ∷ levels) error = consult-present levels error
consult-present (some level ∷ levels) error = ground (arith, consult-present levels error)

rejection_for_mapped :
    (error : Exception) (levels : Option Rejections)
    → as_reject error.kind ≡ none
    → rejection_for error levels ≡ map_failure error levels
unfolding rejection_for
rejection_for_mapped error levels h = rw (h, rejection_for) refl

combined_lem :
    (levels : List Rejections) (error : Exception)
    → as_reject error.kind ≡ none
    → map_failure error (combined levels) ≡ first_rejection levels error
unfolding map_failure combined first_rejection rejection_for
combined_lem [] error h = refl
combined_lem (table entries ∷ []) error h = ground arith
combined_lem (mapper f ∷ []) error h = ground arith
combined_lem (first ∷ second ∷ levels) error h = refl

-- Mapping a failure that is no `RpcReject` by a chain is consulting the chain's levels in order,
-- the absent ones left out: the first level that answers or raises decides.
pub chain_rejections_lem :
    (levels : List (Option Rejections)) (error : Exception)
    → as_reject error.kind ≡ none
    → rejection_for error (chain_rejections levels) ≡ consult levels error
unfolding chain_rejections
chain_rejections_lem levels error h =
    rejection_for_mapped error (combined (present levels)) h
    ∙ combined_lem (present levels) error h
    ∙ consult-present levels error
