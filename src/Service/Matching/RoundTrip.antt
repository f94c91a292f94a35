-- ===== src/Service/Matching/RoundTrip.antt =====
-- A client that percent-encodes the values of the variables gets them back from the match.
use mathlib.Core.Option
use pyrpckit.Prelude.{
  All, Bool, Bool-cases, List, Option, [], all, any, ap, arith, false, inl, inr, leb, length, ltb,
  map, none, refl, some, subst, sym, true, ℕ, ◌&&◌, ◌++◌, ◌<◌, ◌==◌, ◌∙◌, ◌∷◌, ◌≡◌, ◌⊎◌,
}
use pyrpckit.Service.Templates.{Piece, lit, pieces, var, variables}
use pyrpckit.Service.Matching.{group, groups, match_path, match_path-groups, zip_strict}
use pyrpckit.Service.Matching.Unquote.{
  all_plain-quote, is_plain, length-quote, quote, quote-plain, unquote, unquote_bytes-quote,
  unquote_runs-plain,
}
use pyrpckit.Service.Matching.Instances.{fill, fits, group-none, group-some, is_segment}

-- The codec carries this text: its bytes are bytes, and they are decoded to the text.
abbrev pub IsCarried : (List ℕ → List ℕ) → (List ℕ → List ℕ) → List ℕ → Type 0
IsCarried encode decode text =
    (all (λ b. ltb b 256) (encode text) ≡ true) × (decode (encode text) ≡ text)

-- ASCII bytes are decoded to themselves.
abbrev pub KeepsAscii : (List ℕ → List ℕ) → Type 0
KeepsAscii decode = (bytes : List ℕ) → all (λ b. leb b 127) bytes ≡ true → decode bytes ≡ bytes

all_plain-ascii : (text : List ℕ) → all is_plain text ≡ true → all (λ b. leb b 127) text ≡ true
all_plain-ascii [] h = refl
all_plain-ascii (c ∷ text) h = ground (arith, h, all_plain-ascii text)

module _ (encode decode : List ℕ → List ℕ) (ascii : KeepsAscii decode) where
  -- Unquoting what a client has quoted gives its text back.
  pub unquote-quote :
      (text : List ℕ) → IsCarried encode decode text → unquote decode (quote (encode text)) ≡ text
  unfolding unquote
  unquote-quote text (bytes, back) =
      let plain = all_plain-quote (encode text) bytes in
      elim (Bool-cases (any (λ c. c == b'%') (quote (encode text)))) [
        | inl e ↦ rw e (
            unquote_runs-plain decode [] (quote (encode text)) plain
            ∙ ap decode (unquote_bytes-quote (encode text) bytes)
            ∙ back)
        | inr e ↦
            let same = quote-plain (encode text) e in
            let low =
              all_plain-ascii (encode text) (subst (λ t. all is_plain t ≡ true) same plain) in
            rw e (same ∙ sym (ascii (encode text) low) ∙ back)
      ]

-- Each variable is a whole segment of the path, as in `/rooms/{room}/feed`.
unfoldable pub segmented : List Piece → Bool
segmented [] = true
segmented (lit c ∷ ps) = segmented ps
segmented (var name ∷ []) = true
segmented (var name ∷ lit c ∷ ps) = c == b'/' && segmented ps
segmented (var name ∷ var other ∷ ps) = false

-- A group takes the whole of a segment before a slash or the end.
abbrev ends_segment : List ℕ → Bool
ends_segment [] = true
ends_segment (c ∷ path) = c == b'/'

group-stop :
    (follow : List ℕ → Option (List (List ℕ))) (rest : List ℕ)
    → ends_segment rest ≡ true
    → group follow rest ≡ none
unfolding group
group-stop follow [] stop = refl
group-stop follow (c ∷ rest) stop = rw stop refl

group-segment :
    (follow : List ℕ → Option (List (List ℕ))) (v rest : List ℕ) (vs : List (List ℕ))
    → is_segment v ≡ true
    → ends_segment rest ≡ true
    → follow rest ≡ some vs
    → group follow (v ++ rest) ≡ some (v ∷ vs)
group-segment follow [] rest vs seg stop fol = absurd (ground (arith, seg))
group-segment follow (c ∷ []) rest vs seg stop fol =
    group-none follow c rest (ground (arith, seg)) (group-stop follow rest stop)
    ∙ ap (Option.map (λ gs. (c ∷ []) ∷ gs)) fol
group-segment follow (c ∷ d ∷ v) rest vs seg stop fol =
    group-some follow c (d ∷ v ++ rest) (d ∷ v) vs (ground (arith, seg))
      (group-segment follow (d ∷ v) rest vs (ground (arith, seg)) stop fol)

-- In a segmented template the values are found as they were put in.
groups-fill :
    (ps : List Piece) (vs : List (List ℕ))
    → segmented ps ≡ true
    → fits ps vs ≡ true
    → groups ps (fill ps vs) ≡ some vs
unfolding segmented fits fill groups
groups-fill [] [] s f = refl
groups-fill [] (v ∷ vs) s f = absurd (ground (arith, f))
groups-fill (lit c ∷ ps) vs s f = ground (arith, groups-fill ps vs s f)
groups-fill (var name ∷ ps) [] s f = absurd (ground (arith, f))
groups-fill (var name ∷ []) (v ∷ vs) s f =
    group-segment (groups []) v [] vs (ground (arith, f)) refl
      (groups-fill [] vs refl (ground (arith, f)))
groups-fill (var name ∷ lit c ∷ ps) (v ∷ vs) s f =
    group-segment (groups (lit c ∷ ps)) v (c ∷ fill ps vs) vs (ground (arith, f))
      (ground (arith, s)) (groups-fill (lit c ∷ ps) vs (ground (arith, s)) (ground (arith, f)))
groups-fill (var name ∷ var other ∷ ps) (v ∷ vs) s f = absurd (ground (arith, s))

-- A value that can be sent: it is carried by the codec, and not empty.
abbrev pub IsSendable : (List ℕ → List ℕ) → (List ℕ → List ℕ) → List ℕ → Type 0
IsSendable encode decode text = IsCarried encode decode text × (0 < length text)

-- The path that a client asks for.
unfoldable pub address : (List ℕ → List ℕ) → List ℕ → List (List ℕ) → List ℕ
address encode template values = fill (pieces template) (map (λ v. quote (encode v)) values)

all_plain-segment :
    (text : List ℕ) → all is_plain text ≡ true → 0 < length text → is_segment text ≡ true
all_plain-segment [] h n = absurd (omega arith)
all_plain-segment (c ∷ []) h n = ground (arith, h)
all_plain-segment (c ∷ d ∷ text) h n = ground (arith, h, all_plain-segment (d ∷ text))

nonempty : (text : List ℕ) → (text ≡ []) ⊎ (0 < length text)
nonempty [] = inl refl
nonempty (c ∷ text) = inr (omega arith)

module _ (encode decode : List ℕ → List ℕ) (ascii : KeepsAscii decode) where
  segment-quote :
      (text : List ℕ) → IsSendable encode decode text → is_segment (quote (encode text)) ≡ true
  segment-quote text ((bytes, back), some_text) =
      let full : 0 < length (encode text) = elim (nonempty (encode text)) [
        | inl e ↦ absurd (ground (arith, some_text, ascii [] refl, back, e))
        | inr n ↦ n
      ] in
      all_plain-segment (quote (encode text)) (all_plain-quote (encode text) bytes)
        (omega (arith, full, length-quote (encode text)))

  fits_quoted :
      (ps : List Piece) (values : List (List ℕ))
      → All (IsSendable encode decode) values
      → length (variables ps) ≡ length values
      → fits ps (map (λ v. quote (encode v)) values) ≡ true
  unfolding fits variables
  fits_quoted [] [] h n = refl
  fits_quoted [] (v ∷ vs) h n = absurd (omega arith)
  fits_quoted (lit c ∷ ps) vs h n = fits_quoted ps vs h n
  fits_quoted (var name ∷ ps) [] h n = absurd (omega arith)
  fits_quoted (var name ∷ ps) (v ∷ vs) (here, h) n =
      rw (segment-quote v here) (fits_quoted ps vs h (omega arith))

  zip-unquoted :
      (names values : List (List ℕ))
      → All (IsSendable encode decode) values
      → zip_strict names (map (unquote decode) (map (λ v. quote (encode v)) values))
        ≡ zip_strict names values
  unfolding zip_strict
  zip-unquoted [] [] h = refl
  zip-unquoted [] (v ∷ vs) h = refl
  zip-unquoted (name ∷ names) [] h = refl
  zip-unquoted (name ∷ names) (v ∷ vs) ((carried, some_text), h) =
      rw (unquote-quote encode decode ascii v carried, zip-unquoted names vs h) refl

  -- A client that writes non-empty values, percent-encoded, into a segmented template gets exactly
  -- these values, under the names of the variables, from the match of its path.
  pub match_path-address :
      (template : List ℕ) (values : List (List ℕ))
      → segmented (pieces template) ≡ true
      → All (IsSendable encode decode) values
      → length (variables (pieces template)) ≡ length values
      → match_path decode template (address encode template values)
        ≡ zip_strict (variables (pieces template)) values
  unfolding address
  match_path-address template values s h n =
      let ps = pieces template in
      let quoted = map (λ v. quote (encode v)) values in
      match_path-groups decode template (fill ps quoted) quoted
        (groups-fill ps quoted s (fits_quoted ps values h n))
      ∙ zip-unquoted (variables ps) values h
