-- ===== src/Service/Matching/Instances.antt =====
-- The paths that a template matches are its instances.
use mathlib.Core.Option
use pyrpckit.Prelude.{
  Bool, Bool-cases, List, Option, Option-cases, [], all, ap, append_assoc, arith, false, inl, inr,
  none, not, refl, some, subst, sym, true, ℕ, ◌&&◌, ◌++◌, ◌==◌, ◌↔◌, ◌∙◌, ◌∷◌, ◌≡◌, ◌≢◌,
}
use pyrpckit.Service.Templates.{Piece, lit, pieces, var}
use pyrpckit.Service.Matching.{at_end, group, groups}

abbrev pub no_slash : List ℕ → Bool
no_slash v = all (λ c. not (c == b'/')) v

-- What `([^/]+)` can take.
abbrev pub is_segment : List ℕ → Bool
is_segment [] = false
is_segment (c ∷ v) = no_slash (c ∷ v)

-- One segment for each variable.
unfoldable pub fits : List Piece → List (List ℕ) → Bool
fits [] [] = true
fits [] (v ∷ vs) = false
fits (lit c ∷ ps) vs = fits ps vs
fits (var name ∷ ps) [] = false
fits (var name ∷ ps) (v ∷ vs) = is_segment v && fits ps vs

-- The path in which each variable has its value.
unfoldable pub fill : List Piece → List (List ℕ) → List ℕ
fill [] vs = []
fill (lit c ∷ ps) vs = c ∷ fill ps vs
fill (var name ∷ ps) [] = fill ps []
fill (var name ∷ ps) (v ∷ vs) = v ++ fill ps vs

-- The path of these values, up to a newline that `$` leaves.
abbrev pub IsInstance : List Piece → List (List ℕ) → List ℕ → Type 0
IsInstance ps vs path =
    (fits ps vs ≡ true) × (end : List ℕ) × (at_end end ≡ true) × (path ≡ fill ps vs ++ end)

segment-cons :
    (c : ℕ) (v : List ℕ) → (c == b'/') ≡ false → is_segment v ≡ true → is_segment (c ∷ v) ≡ true
segment-cons c [] e h = absurd (ground (arith, h))
segment-cons c (d ∷ v) e h = rw e h

module _ (follow : List ℕ → Option (List (List ℕ))) where
  abbrev IsGroup : List (List ℕ) → List ℕ → Type 0
  IsGroup gs path =
      (v rest : List ℕ) × (vs : List (List ℕ)) × (gs ≡ v ∷ vs)
      × (is_segment v ≡ true)
      × (path ≡ v ++ rest)
      × (follow rest ≡ some vs)

  pub group-none :
      (c : ℕ) (path : List ℕ)
      → (c == b'/') ≡ false
      → group follow path ≡ none
      → group follow (c ∷ path) ≡ Option.map (λ gs. (c ∷ []) ∷ gs) (follow path)
  unfolding group
  group-none c path e n = rw (e, n) refl

  pub group-some :
      (c : ℕ) (path v : List ℕ) (vs : List (List ℕ))
      → (c == b'/') ≡ false
      → group follow path ≡ some (v ∷ vs)
      → group follow (c ∷ path) ≡ some ((c ∷ v) ∷ vs)
  unfolding group
  group-some c path v vs e n = rw (e, n) refl

  shorter :
      (c : ℕ) (path : List ℕ) (gs : List (List ℕ))
      → (c == b'/') ≡ false
      → Option.map (λ gs. (c ∷ []) ∷ gs) (follow path) ≡ some gs
      → IsGroup gs (c ∷ path)
  shorter c path gs e h = elim (Option-cases (follow path)) [
    | inl n ↦ absurd (ground (arith, h, n))
    | inr (vs, n) ↦ (c ∷ [], path, vs, ground (arith, h, n), rw e refl, refl, n)
  ]

  longer :
      (c : ℕ) (path : List ℕ) (gs more : List (List ℕ))
      → (c == b'/') ≡ false
      → group follow path ≡ some more
      → group follow (c ∷ path) ≡ some gs
      → IsGroup more path
      → IsGroup gs (c ∷ path)
  longer c path gs more e n h (v, rest, vs, is, seg, cut, fol) =
      let here = group-some c path v vs e (n ∙ ap some is) in
      (c ∷ v, rest, vs, ground (arith, h, here), segment-cons c v e seg, ap (λ t. c ∷ t) cut, fol)

  -- A group takes a segment and leaves the rest to what follows.
  group_sound : (path : List ℕ) (gs : List (List ℕ)) → group follow path ≡ some gs → IsGroup gs path
  unfolding group
  group_sound [] gs h = absurd (ground (arith, h))
  group_sound (c ∷ path) gs h =
      let deeper = group_sound path in
      elim (Bool-cases (c == b'/')) [
        | inl e ↦ absurd (ground (arith, h, e))
        | inr e ↦ elim (Option-cases (group follow path)) [
          | inl n ↦ shorter c path gs e (sym (group-none c path e n) ∙ h)
          | inr (more, n) ↦ longer c path gs more e n h (deeper more n)
        ]
      ]

abbrev SoundAt : List Piece → Type 0
SoundAt ps = (path : List ℕ) (gs : List (List ℕ)) → groups ps path ≡ some gs → IsInstance ps gs path

sound_lit :
    (c d : ℕ) (ps : List Piece) (path : List ℕ) (gs : List (List ℕ))
    → groups (lit c ∷ ps) (d ∷ path) ≡ some gs
    → (groups ps path ≡ some gs → IsInstance ps gs path)
    → IsInstance (lit c ∷ ps) gs (d ∷ path)
unfolding groups fill fits
sound_lit c d ps path gs h deeper = elim (Bool-cases (c == d)) [
  | inl e ↦
      let (fit, end, ends, cut) = deeper (ground (arith, h, e)) in
      (fit, end, ends, ground (arith, cut, e))
  | inr e ↦ absurd (ground (arith, h, e))
]

sound_var :
    (name : List ℕ) (ps : List Piece) (path : List ℕ) (gs : List (List ℕ))
    → IsGroup (groups ps) gs path
    → SoundAt ps
    → IsInstance (var name ∷ ps) gs path
unfolding fill fits
sound_var name ps path gs (v, rest, vs, is, seg, cut, fol) deeper =
    let (fit, end, ends, more) = deeper rest vs fol in
    (
      rw (is, seg, fit) refl,
      end,
      ends,
      rw is (cut ∙ ap (λ t. v ++ t) more ∙ sym (append_assoc v (fill ps vs) end)),
    )

-- The groups of a match are segments that fill the pieces to the path.
pub groups_sound : (ps : List Piece) → SoundAt ps
unfolding groups fill fits
groups_sound [] path gs h = elim (Bool-cases (at_end path)) [
  | inl e ↦ (ground (arith, h, e), path, e, refl)
  | inr e ↦ absurd (ground (arith, h, e))
]
groups_sound (lit c ∷ ps) [] gs h = absurd (ground (arith, h))
groups_sound (lit c ∷ ps) (d ∷ path) gs h = sound_lit c d ps path gs h (groups_sound ps path gs)
groups_sound (var name ∷ ps) path gs h =
    sound_var name ps path gs (group_sound (groups ps) path gs h) (groups_sound ps)

-- Whatever follows a segment is reached from its group.
group_complete :
    (follow : List ℕ → Option (List (List ℕ))) (v rest : List ℕ)
    → is_segment v ≡ true
    → group follow (v ++ rest) ≡ none
    → follow rest ≡ none
unfolding group
group_complete follow [] rest seg h = absurd (ground (arith, seg))
group_complete follow (c ∷ []) rest seg h = ground (arith, seg, h)
group_complete follow (c ∷ d ∷ v) rest seg h =
    let deeper = group_complete follow (d ∷ v) rest in
    deeper (ground (arith, seg)) (ground (arith, seg, h))

-- A template fails only on a path that is no instance.
pub groups_complete :
    (ps : List Piece) (vs : List (List ℕ)) (end : List ℕ)
    → fits ps vs ≡ true
    → at_end end ≡ true
    → groups ps (fill ps vs ++ end) ≢ none
unfolding groups fill fits
groups_complete [] [] end h e n = absurd (ground (arith, e, n))
groups_complete [] (v ∷ vs) end h e n = absurd (ground (arith, h))
groups_complete (lit c ∷ ps) vs end h e n = groups_complete ps vs end h e (ground (arith, n))
groups_complete (var name ∷ ps) [] end h e n = absurd (ground (arith, h))
groups_complete (var name ∷ ps) (v ∷ vs) end h e n =
    let n' : group (groups ps) (v ++ (fill ps vs ++ end)) ≡ none =
      ap (group (groups ps)) (sym (append_assoc v (fill ps vs) end)) ∙ n in
    groups_complete ps vs end (ground (arith, h)) e
      (group_complete (groups ps) v (fill ps vs ++ end) (ground (arith, h)) n')

-- A template matches a path exactly if the path is an instance of it: some values, one segment for
-- each variable, fill the template to the path (up to a newline at its end).
pub matches-IsInstance :
    (template path : List ℕ)
    → (groups (pieces template) path ≢ none)
      ↔ ((vs : List (List ℕ)) × IsInstance (pieces template) vs path)
matches-IsInstance template path = (there, back)
  where
    there :
        groups (pieces template) path ≢ none
        → (vs : List (List ℕ)) × IsInstance (pieces template) vs path
    there h = elim (Option-cases (groups (pieces template) path)) [
      | inl n ↦ absurd (h n)
      | inr (vs, n) ↦ (vs, groups_sound (pieces template) path vs n)
    ]

    back :
        (vs : List (List ℕ)) × IsInstance (pieces template) vs path
        → groups (pieces template) path ≢ none
    back (vs, (fit, end, ends, cut)) =
        subst (λ t. groups (pieces template) t ≢ none) (sym cut)
          (groups_complete (pieces template) vs end fit ends)
