-- ===== src/Connection/Limits.antt =====
-- `RpcLimits.__post_init__` of rpckit/connection.py. Python integers are ℤ; a float is a whole
-- number of ticks or one of the three special values. `err` holds the text of the `ValueError`.
use pyrpckit.Prelude.{
  Bool, Option, Result, String, arith, err, false, if◌then◌else◌, none, not, ok, refl, some, suc,
  true, zero, ℕ, ◌||◌, ◌≡◌, ◌≤◌,
}
use pyrpckit.Json.{negsuc, pos, ℤ}

pub data Seconds : Type 0 where
  ticks : ℤ → Seconds
  infinity minus_infinity nan : Seconds

-- `value <= 0`
abbrev pub not_positive : Seconds → Bool
not_positive (ticks (pos zero)) = true
not_positive (ticks (pos (suc n))) = false
not_positive (ticks (negsuc n)) = true
not_positive infinity = false
not_positive minus_infinity = true
not_positive nan = false

abbrev pub is_finite : Seconds → Bool
is_finite (ticks n) = true
is_finite infinity = false
is_finite minus_infinity = false
is_finite nan = false

-- What a caller passes as `request_timeout`: a number, a `bool`, or anything else.
pub data TimeoutValue : Type 0 where
  number : Seconds → TimeoutValue
  boolean : Bool → TimeoutValue
  no_number : TimeoutValue

pub record RpcLimits : Type 0 where
  pub max_concurrency : ℤ
  pub max_queue_size : ℤ
  pub max_message_bytes : Option ℤ
  pub client_method_timeout : Option Seconds
  pub send_timeout : Option Seconds
  pub max_batch_size : ℤ
  pub max_subscriptions : ℤ
  pub max_pending_requests : ℤ
  pub request_timeout : Option TimeoutValue

-- `value < 1` and `value < 0`
abbrev pub below_one : ℤ → Bool
below_one (pos zero) = true
below_one (pos (suc n)) = false
below_one (negsuc n) = true

abbrev pub is_negative : ℤ → Bool
is_negative (pos n) = false
is_negative (negsuc n) = true

bad_request_timeout : Option TimeoutValue → Bool
bad_request_timeout none = false
bad_request_timeout (some (number s)) = not (is_finite s) || not_positive s
bad_request_timeout (some (boolean b)) = true
bad_request_timeout (some no_number) = true

bad_bytes : Option ℤ → Bool
bad_bytes none = false
bad_bytes (some n) = below_one n

bad_timeout : Option Seconds → Bool
bad_timeout none = false
bad_timeout (some s) = not_positive s

unfoldable pub post_init : RpcLimits → Result String RpcLimits
unfolding bad_request_timeout bad_bytes bad_timeout
post_init limits =
    if bad_request_timeout limits.request_timeout
    then err "request_timeout must be finite and positive or None"
    else if below_one limits.max_concurrency || below_one limits.max_queue_size
    then err "RPC limits must be at least 1"
    else if bad_bytes limits.max_message_bytes
    then err "max_message_bytes must be at least 1 or None"
    else if bad_timeout limits.client_method_timeout
    then err "client_method_timeout must be positive or None"
    else if bad_timeout limits.send_timeout
    then err "send_timeout must be positive or None"
    else if is_negative limits.max_batch_size
    then err "max_batch_size must be at least 0"
    else if below_one limits.max_subscriptions
    then err "max_subscriptions must be at least 1"
    else if below_one limits.max_pending_requests
    then err "max_pending_requests must be at least 1"
    else ok limits

-- The value of an accepted limit as a number.
abbrev pub amount : ℤ → ℕ
amount (pos n) = n
amount (negsuc n) = 0

-- An integer of at least `k`.
abbrev pub AtLeast : ℕ → ℤ → Type 0
AtLeast k z = (n : ℕ) × (z ≡ pos n) × (k ≤ n)

abbrev pub WhenGiven {ℓ} : {A : Type ℓ} → (A → Type 0) → Option A → Type 0
WhenGiven P none = Unit
WhenGiven P (some a) = P a

abbrev pub IsPositive : Seconds → Type 0
IsPositive s = not_positive s ≡ false

abbrev pub IsRequestTimeout : TimeoutValue → Type 0
IsRequestTimeout v = (n : ℕ) × (v ≡ number (ticks (pos n))) × (1 ≤ n)

pub record IsValid (limits : RpcLimits) : Type 0 where
  pub concurrency : AtLeast 1 limits.max_concurrency
  pub queue : AtLeast 1 limits.max_queue_size
  pub bytes : WhenGiven (AtLeast 1) limits.max_message_bytes
  pub client_method : WhenGiven IsPositive limits.client_method_timeout
  pub send : WhenGiven IsPositive limits.send_timeout
  pub batch : AtLeast 0 limits.max_batch_size
  pub subscriptions : AtLeast 1 limits.max_subscriptions
  pub pending : AtLeast 1 limits.max_pending_requests
  pub request : WhenGiven IsRequestTimeout limits.request_timeout

below_one_lem : (z : ℤ) → below_one z ≡ false → AtLeast 1 z
below_one_lem (pos zero) h = cc
below_one_lem (pos (suc n)) h = (suc n, refl, omega arith)
below_one_lem (negsuc n) h = cc

is_negative_lem : (z : ℤ) → is_negative z ≡ false → AtLeast 0 z
is_negative_lem (pos n) h = (n, refl, omega arith)
is_negative_lem (negsuc n) h = cc

bad_bytes_lem : (o : Option ℤ) → bad_bytes o ≡ false → WhenGiven (AtLeast 1) o
unfolding bad_bytes
bad_bytes_lem none h = tt
bad_bytes_lem (some z) h = below_one_lem z h

bad_timeout_lem : (o : Option Seconds) → bad_timeout o ≡ false → WhenGiven IsPositive o
unfolding bad_timeout
bad_timeout_lem none h = tt
bad_timeout_lem (some s) h = h

bad_request_timeout_lem :
    (o : Option TimeoutValue) → bad_request_timeout o ≡ false → WhenGiven IsRequestTimeout o
unfolding bad_request_timeout
bad_request_timeout_lem none h = tt
bad_request_timeout_lem (some (number (ticks (pos zero)))) h = cc
bad_request_timeout_lem (some (number (ticks (pos (suc n))))) h = (suc n, refl, omega arith)
bad_request_timeout_lem (some (number (ticks (negsuc n)))) h = cc
bad_request_timeout_lem (some (number infinity)) h = cc
bad_request_timeout_lem (some (number minus_infinity)) h = cc
bad_request_timeout_lem (some (number nan)) h = cc
bad_request_timeout_lem (some (boolean b)) h = cc
bad_request_timeout_lem (some no_number) h = cc

module _ (limits accepted : RpcLimits) (h : post_init limits ≡ ok accepted) where
  -- Limits that are accepted are returned unchanged, and each lies in its documented range; a
  -- request timeout is a finite positive number, no `bool`.
  pub post_init-IsValid : (accepted ≡ limits) × IsValid limits
  unfolding post_init
  post_init-IsValid = (
    ground arith,
    record {
      concurrency = below_one_lem limits.max_concurrency (ground arith);
      queue = below_one_lem limits.max_queue_size (ground arith);
      bytes = bad_bytes_lem limits.max_message_bytes (ground arith);
      client_method = bad_timeout_lem limits.client_method_timeout (ground arith);
      send = bad_timeout_lem limits.send_timeout (ground arith);
      batch = is_negative_lem limits.max_batch_size (ground arith);
      subscriptions = below_one_lem limits.max_subscriptions (ground arith);
      pending = below_one_lem limits.max_pending_requests (ground arith);
      request = bad_request_timeout_lem limits.request_timeout (ground arith);
    },
  )
