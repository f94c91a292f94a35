-- ===== src/Codegen/Casing.antt =====
-- `_words`, `snake_case`, `camel_case` and `pascal_case` of rpckit/codegen/names.py, on texts as
-- lists of code points. The character classes of the patterns are ASCII ones, so `lower` and `upper`
-- meet ASCII letters only.
pub mod Canonical
use pyrpckit.Prelude.{Bool, List, [], if◌then◌else◌, leb, ℕ, ◌&&◌, ◌++◌, ◌+◌, ◌-◌, ◌||◌, ◌∷◌}

unfoldable pub is_upper : ℕ → Bool
is_upper c = leb b'A' c && leb c b'Z'

unfoldable pub is_lower : ℕ → Bool
is_lower c = leb b'a' c && leb c b'z'

unfoldable pub is_digit : ℕ → Bool
is_digit c = leb b'0' c && leb c b'9'

-- `re.sub(r"([A-Z]+)([A-Z][a-z])", r"\1_\2", value)`: a match takes a run of upper-case letters with
-- the lower-case one behind it, so the sign goes before the last letter of each such run.
unfoldable pub acronyms : List ℕ → List ℕ
unfolding is_upper is_lower
acronyms [] = []
acronyms (a ∷ []) = a ∷ []
acronyms (a ∷ b ∷ []) = a ∷ b ∷ []
acronyms (a ∷ b ∷ c ∷ text) =
    let rest = acronyms (b ∷ c ∷ text) in
    if is_upper a && is_upper b && is_lower c then a ∷ b'_' ∷ rest else a ∷ rest

-- `re.sub(r"([a-z0-9])([A-Z])", r"\1_\2", separated)`
unfoldable pub humps : List ℕ → List ℕ
unfolding is_upper is_lower is_digit
humps [] = []
humps (a ∷ []) = a ∷ []
humps (a ∷ b ∷ text) =
    let rest = humps (b ∷ text) in
    if (is_lower a || is_digit a) && is_upper b then a ∷ b'_' ∷ rest else a ∷ rest

-- `[A-Za-z0-9]`
unfoldable pub in_word : ℕ → Bool
unfolding is_upper is_lower is_digit
in_word c = is_upper c || is_lower c || is_digit c

abbrev pub with_part : List ℕ → List (List ℕ) → List (List ℕ)
with_part [] parts = parts
with_part (c ∷ part) parts = (c ∷ part) ∷ parts

-- `part for part in re.split(r"[^A-Za-z0-9]+", separated) if part`, where `run` is the part so far.
unfoldable pub split_parts : List ℕ → List ℕ → List (List ℕ)
unfolding in_word
split_parts run [] = with_part run []
split_parts run (c ∷ text) =
    let longer = split_parts (run ++ c ∷ []) text in
    let next = split_parts [] text in if in_word c then longer else with_part run next

-- `_words`
unfoldable pub words : List ℕ → List (List ℕ)
unfolding acronyms humps split_parts
words value = split_parts [] (humps (acronyms value))

unfoldable pub lower : ℕ → ℕ
unfolding is_upper
lower c = if is_upper c then c + 32 else c

unfoldable pub upper : ℕ → ℕ
unfolding is_lower
upper c = if is_lower c then c - 32 else c

abbrev pub lowered : List ℕ → List ℕ
lowered [] = []
lowered (c ∷ part) = lower c ∷ lowered part

abbrev pub all_lowered : List (List ℕ) → List (List ℕ)
all_lowered [] = []
all_lowered (part ∷ parts) = lowered part ∷ all_lowered parts

-- `part[:1].upper() + part[1:].lower()`
unfoldable pub capitalized : List ℕ → List ℕ
unfolding upper lower
capitalized [] = []
capitalized (c ∷ part) = upper c ∷ lowered part

-- `"".join(...)` of the capitalized parts
unfoldable pub capitalized_all : List (List ℕ) → List ℕ
unfolding capitalized
capitalized_all [] = []
capitalized_all (part ∷ parts) = capitalized part ++ capitalized_all parts

-- `"_".join(parts)`
unfoldable pub underscored : List (List ℕ) → List ℕ
underscored [] = []
underscored (part ∷ []) = part
underscored (part ∷ more ∷ parts) = part ++ b'_' ∷ underscored (more ∷ parts)

unfoldable pub snake_case : List ℕ → List ℕ
unfolding words underscored lower
snake_case value = underscored (all_lowered (words value))

unfoldable pub camel_case : List ℕ → List ℕ
unfolding words capitalized_all lower
camel_case value = elim (words value) [
  | [] ↦ []
  | first ∷ rest ↦ lowered first ++ capitalized_all rest
]

unfoldable pub pascal_case : List ℕ → List ℕ
unfolding words capitalized_all
pascal_case value = capitalized_all (words value)
