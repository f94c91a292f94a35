-- ===== src/Service/Matching/Unquote.antt =====
-- `urllib.parse.unquote`, and `quote(value, safe="")` as a client of the service calls it. UTF-8 is
-- a parameter: `decode` is `bytes.decode("utf-8", "replace")`, `encode` is `str.encode`.
use pyrpckit.Prelude.{
  Bool, Bool-cases, List, Option, [], all, any, ap, append-nil, append_assoc, arith, false,
  if◌then◌else◌, inl, inr, leb, length, ltb, none, not, refl, some, sym, true, ℕ, ◌%◌, ◌&&◌, ◌*◌,
  ◌++◌, ◌+◌, ◌-◌, ◌/◌, ◌<◌, ◌==◌, ◌>>=◌, ◌||◌, ◌∙◌, ◌∷◌, ◌≡◌, ◌≤◌,
}

in_range : ℕ → ℕ → ℕ → Bool
in_range lo hi c = leb lo c && leb c hi

unfoldable pub hex_value : ℕ → Option ℕ
unfolding in_range
hex_value c =
    if in_range b'0' b'9' c
    then some (c - b'0')
    else if in_range b'a' b'f' c
    then some (c - 87)
    else if in_range b'A' b'F' c
    then some (c - 55)
    else none

-- The byte of two hexadecimal digits.
hex_byte : ℕ → ℕ → Option ℕ
unfolding hex_value
hex_byte a b = do hi ← hex_value a; lo ← hex_value b; some (hi * 16 + lo)

-- `unquote_to_bytes`
unfoldable pub unquote_bytes : List ℕ → List ℕ
unfolding hex_byte
unquote_bytes [] = []
unquote_bytes (c ∷ []) = c ∷ []
unquote_bytes (c ∷ a ∷ []) = c ∷ a ∷ []
unquote_bytes (c ∷ a ∷ b ∷ text) =
    let coded = unquote_bytes text in
    let plain = unquote_bytes (a ∷ b ∷ text) in
    elim (if c == b'%' then hex_byte a b else none) [ some byte ↦ byte ∷ coded | none ↦ c ∷ plain ]

module _ (decode : List ℕ → List ℕ) where
  -- The text is taken in runs of ASCII characters and of others; only the former are decoded.
  unfoldable pub unquote_runs : List ℕ → List ℕ → List ℕ
  unfolding unquote_bytes
  unquote_runs run [] = decode (unquote_bytes run)
  unquote_runs run (c ∷ text) =
      let longer = unquote_runs (run ++ c ∷ []) text in
      let next = unquote_runs [] text in
      if leb c 127 then longer else decode (unquote_bytes run) ++ c ∷ next

  unfoldable pub unquote : List ℕ → List ℕ
  unfolding unquote_runs
  unquote text = if any (λ c. c == b'%') text then unquote_runs [] text else text

hex_digit : ℕ → ℕ
hex_digit n = if ltb n 10 then n + 48 else n + 55

is_safe : ℕ → Bool
unfolding in_range
is_safe c =
    in_range b'0' b'9' c
    || in_range b'A' b'Z' c
    || in_range b'a' b'z' c
    || c == b'_'
    || c == b'.'
    || c == b'-'
    || c == b'~'

-- A byte of a percent-encoded value.
quote_byte : ℕ → List ℕ
unfolding is_safe hex_digit
quote_byte b = if is_safe b then b ∷ [] else b'%' ∷ hex_digit (b / 16) ∷ hex_digit (b % 16) ∷ []

-- The percent-encoding of the bytes of a value, with nothing but letters, digits and `_.-~` kept.
unfoldable pub quote : List ℕ → List ℕ
unfolding quote_byte
quote [] = []
quote (b ∷ bytes) = quote_byte b ++ quote bytes

hex_value-digit : (n : ℕ) → n < 16 → hex_value (hex_digit n) ≡ some n
unfolding hex_value in_range hex_digit
hex_value-digit n h = ground arith

hex_byte-digits : (b : ℕ) → b < 256 → hex_byte (hex_digit (b / 16)) (hex_digit (b % 16)) ≡ some b
unfolding hex_byte
hex_byte-digits b h =
    rw (hex_value-digit (b / 16) (omega arith), hex_value-digit (b % 16) (omega arith))
      (ap some (omega arith))

unquote_bytes-plain :
    (c : ℕ) (text : List ℕ)
    → (c == b'%') ≡ false
    → unquote_bytes (c ∷ text) ≡ c ∷ unquote_bytes text
unfolding unquote_bytes
unquote_bytes-plain c [] e = refl
unquote_bytes-plain c (a ∷ []) e = refl
unquote_bytes-plain c (a ∷ b ∷ text) e = rw (e, unquote_bytes) refl

unquote_bytes-coded :
    (b : ℕ) (text : List ℕ)
    → b < 256
    → unquote_bytes (b'%' ∷ hex_digit (b / 16) ∷ hex_digit (b % 16) ∷ text) ≡ b ∷ unquote_bytes text
unfolding unquote_bytes
unquote_bytes-coded b text h = rw (hex_byte-digits b h, unquote_bytes) refl

unquote_bytes-quote_byte :
    (b : ℕ) (text : List ℕ)
    → b < 256
    → unquote_bytes (quote_byte b ++ text) ≡ b ∷ unquote_bytes text
unfolding quote_byte
unquote_bytes-quote_byte b text h = elim (Bool-cases (is_safe b)) [
  | inl e ↦ rw e (unquote_bytes-plain b text (ground (arith, e)))
  | inr e ↦ rw e (unquote_bytes-coded b text h)
]

-- Percent-decoding undoes percent-encoding.
pub unquote_bytes-quote :
    (bytes : List ℕ) → all (λ b. ltb b 256) bytes ≡ true → unquote_bytes (quote bytes) ≡ bytes
unfolding quote
unquote_bytes-quote [] h = unfold unquote_bytes in refl
unquote_bytes-quote (b ∷ bytes) h =
    unquote_bytes-quote_byte b (quote bytes) (ground (arith, h))
    ∙ ap (λ t. b ∷ t) (unquote_bytes-quote bytes (ground (arith, h)))

-- An ASCII character that is no slash.
abbrev pub is_plain : ℕ → Bool
is_plain c = leb c 127 && not (c == b'/')

is_safe-plain : (b : ℕ) → is_safe b ≡ true → is_plain b ≡ true
unfolding is_safe in_range
is_safe-plain b h = ground (arith, h)

hex_digit-plain : (n : ℕ) → n < 16 → is_plain (hex_digit n) ≡ true
unfolding hex_digit
hex_digit-plain n h = ground arith

all_plain-quote_byte :
    (b : ℕ) (text : List ℕ) → b < 256 → all is_plain (quote_byte b ++ text) ≡ all is_plain text
unfolding quote_byte
all_plain-quote_byte b text h = elim (Bool-cases (is_safe b)) [
  | inl e ↦ rw (e, is_safe-plain b e) refl
  | inr e ↦
      rw (e, hex_digit-plain (b / 16) (omega arith), hex_digit-plain (b % 16) (omega arith)) refl
]

-- An encoded value is ASCII without a slash.
pub all_plain-quote :
    (bytes : List ℕ) → all (λ b. ltb b 256) bytes ≡ true → all is_plain (quote bytes) ≡ true
unfolding quote
all_plain-quote [] h = refl
all_plain-quote (b ∷ bytes) h =
    all_plain-quote_byte b (quote bytes) (ground (arith, h))
    ∙ all_plain-quote bytes (ground (arith, h))

-- A value that needs no escape is its own encoding.
pub quote-plain :
    (bytes : List ℕ) → any (λ c. c == b'%') (quote bytes) ≡ false → quote bytes ≡ bytes
unfolding quote quote_byte
quote-plain [] h = refl
quote-plain (b ∷ bytes) h = ground (arith, quote-plain bytes)

pub unquote_runs-plain :
    (decode : List ℕ → List ℕ) (run text : List ℕ)
    → all is_plain text ≡ true
    → unquote_runs decode run text ≡ decode (unquote_bytes (run ++ text))
unfolding unquote_runs
unquote_runs-plain decode run [] h = ap (λ t. decode (unquote_bytes t)) (sym (append-nil run))
unquote_runs-plain decode run (c ∷ text) h =
    let longer : leb c 127 ≡ true = ground (arith, h) in
    rw longer (
      unquote_runs-plain decode (run ++ c ∷ []) text (ground (arith, h))
      ∙ ap (λ t. decode (unquote_bytes t)) (append_assoc run (c ∷ []) text))

pub length-quote : (bytes : List ℕ) → length bytes ≤ length (quote bytes)
unfolding quote quote_byte
length-quote [] = omega arith
length-quote (b ∷ bytes) = ground (arith, length-quote bytes)
