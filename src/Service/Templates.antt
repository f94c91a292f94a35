-- ===== src/Service/Templates.antt =====
-- Path templates of rpckit/service.py: the regular expression `{([^{}]+)}`, as `_match` and
-- `_validate_endpoint` apply it. A text is the list of its code points.
use pyrpckit.Prelude.{
  List, Option, [], any, ap, append-nil, append_assoc, arith, false, if◌then◌else◌, map, none, refl,
  some, sym, ℕ, ◌++◌, ◌==◌, ◌∙◌, ◌∷◌, ◌≡◌,
}

-- A template is cut into literal characters and variables, from the left.
pub data Piece : Type 0 where
  lit : ℕ → Piece
  var : List ℕ → Piece

-- An open brace and the characters behind it, where no variable begins.
unfoldable pub unclosed : List ℕ → List Piece
unclosed name = lit b'{' ∷ map lit name

closed : List ℕ → List Piece
unfolding unclosed
closed [] = unclosed [] ++ lit b'}' ∷ []
closed (c ∷ name) = var (c ∷ name) ∷ []

-- The characters since an open brace, if there is one.
advance : Option (List ℕ) → ℕ → Option (List ℕ)
advance none c = if c == b'{' then some [] else none
advance (some name) c =
    if c == b'{' then some [] else if c == b'}' then none else some (name ++ c ∷ [])

-- The pieces that are complete with the next character.
emit : Option (List ℕ) → ℕ → List Piece
unfolding closed
emit none c = if c == b'{' then [] else lit c ∷ []
emit (some name) c = if c == b'{' then unclosed name else if c == b'}' then closed name else []

unfoldable pub scan : Option (List ℕ) → List ℕ → List Piece
unfolding advance emit
scan none [] = []
scan (some name) [] = unclosed name
scan state (c ∷ text) = emit state c ++ scan (advance state c) text

unfoldable pub pieces : List ℕ → List Piece
unfolding scan
pieces = scan none

-- `re.findall(r"{([^{}]+)}", path)`
unfoldable pub variables : List Piece → List (List ℕ)
variables [] = []
variables (lit c ∷ ps) = variables ps
variables (var name ∷ ps) = name ∷ variables ps

-- `re.sub(r"{[^{}]+}", text, path)`
unfoldable pub substitute : List ℕ → List Piece → List ℕ
substitute text [] = []
substitute text (lit c ∷ ps) = c ∷ substitute text ps
substitute text (var name ∷ ps) = text ++ substitute text ps

-- The template of the pieces.
unfoldable pub source : List Piece → List ℕ
source [] = []
source (lit c ∷ ps) = c ∷ source ps
source (var name ∷ ps) = b'{' ∷ name ++ b'}' ∷ source ps

source-append : (ps qs : List Piece) → source (ps ++ qs) ≡ source ps ++ source qs
unfolding source
source-append [] qs = refl
source-append (lit c ∷ ps) qs = cc (source-append ps qs)
source-append (var name ∷ ps) qs =
    rw (source-append ps qs, append_assoc name (b'}' ∷ source ps) (source qs)) refl

source-unclosed : (name : List ℕ) → source (unclosed name) ≡ b'{' ∷ name
unfolding unclosed source
source-unclosed name = ap (λ t. b'{' ∷ t) (plain name)
  where
    plain : (text : List ℕ) → source (map lit text) ≡ text
    plain [] = refl
    plain (c ∷ text) = cc (plain text)

-- What an unfinished variable has read.
abbrev pending : Option (List ℕ) → List ℕ
pending none = []
pending (some name) = b'{' ∷ name

source-emit :
    (state : Option (List ℕ)) (c : ℕ)
    → source (emit state c) ++ pending (advance state c) ≡ pending state ++ c ∷ []
unfolding emit advance source closed
source-emit none c = ground arith
source-emit (some []) c = ground (arith, source-unclosed [])
source-emit (some (d ∷ name)) c =
    ground (arith, source-unclosed (d ∷ name), append-nil (name ++ b'}' ∷ []))

source-scan_step :
    (state : Option (List ℕ)) (c : ℕ) (text : List ℕ)
    → source (scan (advance state c) text) ≡ pending (advance state c) ++ text
    → source (emit state c ++ scan (advance state c) text) ≡ pending state ++ c ∷ text
source-scan_step state c text h =
    source-append (emit state c) (scan (advance state c) text)
    ∙ ap (λ t. source (emit state c) ++ t) h
    ∙ sym (append_assoc (source (emit state c)) (pending (advance state c)) text)
    ∙ ap (λ t. t ++ text) (source-emit state c)
    ∙ append_assoc (pending state) (c ∷ []) text

source-scan :
    (state : Option (List ℕ)) (text : List ℕ) → source (scan state text) ≡ pending state ++ text
unfolding scan source
source-scan none [] = refl
source-scan (some name) [] = rw (source-unclosed name, append-nil name) refl
source-scan none (c ∷ text) = source-scan_step none c text (source-scan (advance none c) text)
source-scan (some name) (c ∷ text) =
    source-scan_step (some name) c text (source-scan (advance (some name) c) text)

-- Cutting a template into pieces loses nothing.
pub source-pieces : (text : List ℕ) → source (pieces text) ≡ text
unfolding pieces
source-pieces text = source-scan none text

-- A text without a brace is its own literals.
pub pieces-plain : (text : List ℕ) → any (λ c. c == b'{') text ≡ false → pieces text ≡ map lit text
unfolding pieces scan advance emit
pieces-plain [] h = refl
pieces-plain (c ∷ text) h = ground (arith, h, pieces-plain text)
