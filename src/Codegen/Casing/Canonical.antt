-- ===== src/Codegen/Casing/Canonical.antt =====
-- Snake case loses nothing that the other cases read.
use pyrpckit.Prelude.{
  Bool, Bool-cases, List, [], all, ap, append-nil, append_assoc, arith, false, inl, inr, not, refl,
  subst, sym, true, ℕ, ◌++◌, ◌∙◌, ◌∷◌, ◌≡◌,
}
use pyrpckit.Codegen.Casing.{
  acronyms, all_lowered, camel_case, capitalized, capitalized_all, humps, in_word, is_digit,
  is_lower, is_upper, lower, lowered, pascal_case, snake_case, split_parts, underscored, upper,
  with_part, words,
}

abbrev plain : ℕ → Bool
plain c = not (is_upper c)

acronyms-plain : (text : List ℕ) → all plain text ≡ true → acronyms text ≡ text
unfolding acronyms
acronyms-plain [] h = refl
acronyms-plain (a ∷ []) h = refl
acronyms-plain (a ∷ b ∷ []) h = refl
acronyms-plain (a ∷ b ∷ c ∷ text) h = ground (arith, h, acronyms-plain (b ∷ c ∷ text))

humps-plain : (text : List ℕ) → all plain text ≡ true → humps text ≡ text
unfolding humps
humps-plain [] h = refl
humps-plain (a ∷ []) h = refl
humps-plain (a ∷ b ∷ text) h = ground (arith, h, humps-plain (b ∷ text))

lower-plain : (c : ℕ) → is_upper (lower c) ≡ false
unfolding lower is_upper
lower-plain c = ground arith

lower-in_word : (c : ℕ) → in_word c ≡ true → in_word (lower c) ≡ true
unfolding in_word lower is_upper is_lower is_digit
lower-in_word c h = ground arith

lower-lower : (c : ℕ) → lower (lower c) ≡ lower c
unfolding lower is_upper
lower-lower c = ground arith

upper-lower : (c : ℕ) → upper (lower c) ≡ upper c
unfolding lower upper is_upper is_lower
upper-lower c = ground arith

abbrev is_part : List ℕ → Bool
is_part [] = false
is_part (c ∷ part) = all in_word (c ∷ part)

in_word-snoc :
    (run : List ℕ) (c : ℕ)
    → all in_word run ≡ true
    → in_word c ≡ true
    → all in_word (run ++ c ∷ []) ≡ true
in_word-snoc [] c h e = rw e refl
in_word-snoc (r ∷ run) c h e = ground (arith, h, e, in_word-snoc run c)

with_part-parts :
    (run : List ℕ) (parts : List (List ℕ))
    → all in_word run ≡ true
    → all is_part parts ≡ true
    → all is_part (with_part run parts) ≡ true
with_part-parts [] parts h p = p
with_part-parts (c ∷ run) parts h p = ground (arith, h, p)

split_parts-parts :
    (run text : List ℕ) → all in_word run ≡ true → all is_part (split_parts run text) ≡ true
unfolding split_parts
split_parts-parts run [] h = with_part-parts run [] h refl
split_parts-parts run (c ∷ text) h = elim (Bool-cases (in_word c)) [
  | inl e ↦ rw e (split_parts-parts (run ++ c ∷ []) text (in_word-snoc run c h e))
  | inr e ↦ rw e (with_part-parts run (split_parts [] text) h (split_parts-parts [] text refl))
]

-- A part is read to its end.
split_parts-part :
    (run part text : List ℕ)
    → all in_word part ≡ true
    → split_parts run (part ++ text) ≡ split_parts (run ++ part) text
unfolding split_parts
split_parts-part run [] text h = ap (λ r. split_parts r text) (sym (append-nil run))
split_parts-part run (c ∷ part) text h =
    ground (arith, h, split_parts-part (run ++ c ∷ []) part text, append_assoc run (c ∷ []) part)

with_part-part :
    (part : List ℕ) (parts : List (List ℕ))
    → is_part part ≡ true
    → with_part part parts ≡ part ∷ parts
with_part-part [] parts h = cc
with_part-part (c ∷ part) parts h = refl

part-in_word : (part : List ℕ) → is_part part ≡ true → all in_word part ≡ true
part-in_word [] h = refl
part-in_word (c ∷ part) h = h

split_parts-last : (part : List ℕ) → is_part part ≡ true → split_parts [] part ≡ part ∷ []
unfolding split_parts
split_parts-last part h =
    ap (split_parts []) (sym (append-nil part))
    ∙ (split_parts-part [] part [] (part-in_word part h) ∙ with_part-part part [] h)

split_parts-next :
    (part text : List ℕ)
    → is_part part ≡ true
    → split_parts [] (part ++ b'_' ∷ text) ≡ part ∷ split_parts [] text
unfolding split_parts in_word is_upper is_lower is_digit
split_parts-next part text h =
    split_parts-part [] part (b'_' ∷ text) (part-in_word part h)
    ∙ with_part-part part (split_parts [] text) h

split_parts-underscored :
    (parts : List (List ℕ)) → all is_part parts ≡ true → split_parts [] (underscored parts) ≡ parts
unfolding underscored
split_parts-underscored [] h = unfold split_parts in refl
split_parts-underscored (part ∷ []) h = split_parts-last part (ground (arith, h))
split_parts-underscored (part ∷ more ∷ parts) h =
    split_parts-next part (underscored (more ∷ parts)) (ground (arith, h))
    ∙ ap (λ ps. part ∷ ps) (split_parts-underscored (more ∷ parts) (ground (arith, h)))

lowered-in_word : (part : List ℕ) → all in_word part ≡ true → all in_word (lowered part) ≡ true
lowered-in_word [] h = refl
lowered-in_word (c ∷ part) h = ground (arith, h, lower-in_word c, lowered-in_word part)

lowered-part : (part : List ℕ) → is_part part ≡ true → is_part (lowered part) ≡ true
lowered-part [] h = h
lowered-part (c ∷ part) h = lowered-in_word (c ∷ part) h

all_lowered-parts :
    (parts : List (List ℕ)) → all is_part parts ≡ true → all is_part (all_lowered parts) ≡ true
all_lowered-parts [] h = refl
all_lowered-parts (part ∷ parts) h = ground (arith, h, lowered-part part, all_lowered-parts parts)

lowered-plain :
    (part text : List ℕ) → all plain text ≡ true → all plain (lowered part ++ text) ≡ true
lowered-plain [] text h = h
lowered-plain (c ∷ part) text h = ground (arith, lower-plain c, lowered-plain part text h)

behind_sign : (text : List ℕ) → all plain text ≡ true → all plain (b'_' ∷ text) ≡ true
unfolding is_upper
behind_sign text h = h

underscored-plain : (parts : List (List ℕ)) → all plain (underscored (all_lowered parts)) ≡ true
unfolding underscored
underscored-plain [] = refl
underscored-plain (part ∷ []) =
    subst (λ t. all plain t ≡ true) (append-nil (lowered part)) (lowered-plain part [] refl)
underscored-plain (part ∷ more ∷ parts) =
    lowered-plain part (b'_' ∷ underscored (all_lowered (more ∷ parts)))
      (behind_sign (underscored (all_lowered (more ∷ parts))) (underscored-plain (more ∷ parts)))

words-snake_case : (value : List ℕ) → words (snake_case value) ≡ all_lowered (words value)
unfolding words snake_case
words-snake_case value =
    let parts = words value in
    let text = underscored (all_lowered parts) in
    ap (λ t. split_parts [] (humps t)) (acronyms-plain text (underscored-plain parts))
    ∙ (ap (split_parts []) (humps-plain text (underscored-plain parts))
        ∙ split_parts-underscored (all_lowered parts)
            (all_lowered-parts parts (split_parts-parts [] (humps (acronyms value)) refl)))

lowered-lowered : (part : List ℕ) → lowered (lowered part) ≡ lowered part
lowered-lowered [] = refl
lowered-lowered (c ∷ part) = ground (arith, lower-lower c, lowered-lowered part)

all_lowered-lowered : (parts : List (List ℕ)) → all_lowered (all_lowered parts) ≡ all_lowered parts
all_lowered-lowered [] = refl
all_lowered-lowered (part ∷ parts) = ground (arith, lowered-lowered part, all_lowered-lowered parts)

capitalized-lowered : (part : List ℕ) → capitalized (lowered part) ≡ capitalized part
unfolding capitalized
capitalized-lowered [] = refl
capitalized-lowered (c ∷ part) = ground (arith, upper-lower c, lowered-lowered part)

capitalized_all-lowered :
    (parts : List (List ℕ)) → capitalized_all (all_lowered parts) ≡ capitalized_all parts
unfolding capitalized_all
capitalized_all-lowered [] = refl
capitalized_all-lowered (part ∷ parts) =
    ground (arith, capitalized-lowered part, capitalized_all-lowered parts)

camel : List (List ℕ) → List ℕ
camel [] = []
camel (first ∷ rest) = lowered first ++ capitalized_all rest

camel-lowered : (parts : List (List ℕ)) → camel (all_lowered parts) ≡ camel parts
unfolding camel
camel-lowered [] = refl
camel-lowered (first ∷ rest) = ground (arith, lowered-lowered first, capitalized_all-lowered rest)

camel_case-camel : (value : List ℕ) → camel_case value ≡ camel (words value)
unfolding camel_case camel
camel_case-camel value = elim (words value) [ [] ↦ refl | first ∷ rest ↦ refl ]

-- The snake case of a name stays under a second conversion, and the camel case and the Pascal case
-- of the name can be read off it.
pub snake_case-canonical :
    (value : List ℕ)
    → (snake_case (snake_case value) ≡ snake_case value)
      × ((camel_case (snake_case value) ≡ camel_case value)
          × (pascal_case (snake_case value) ≡ pascal_case value))
snake_case-canonical value =
    let read = words-snake_case value in
    (
      unfold snake_case in
          ap (λ ps. underscored (all_lowered ps)) (unfold snake_case in read)
          ∙ ap underscored (all_lowered-lowered (words value)),
      (
        camel_case-camel (snake_case value)
            ∙ (ap camel read ∙ (camel-lowered (words value) ∙ sym (camel_case-camel value))),
        unfold pascal_case in ap capitalized_all read ∙ capitalized_all-lowered (words value),
      ),
    )
