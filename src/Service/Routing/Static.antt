-- ===== src/Service/Routing/Static.antt =====
-- A path without variables is served by the endpoint that was mounted at it.
use pyrpckit.Prelude.{
  Bool-cases, List, Option-cases, [], ap, append-nil, arith, false, inl, inr, keep_if, map, none,
  not, refl, some, subst, sym, true, ℕ, ◌++◌, ◌∙◌, ◌∷◌, ◌≡◌, ◌≢◌, ◌≤◌,
}
use pyrpckit.Service.Templates.{lit, pieces-plain, substitute, variables}
use pyrpckit.Service.Matching.{
  at_end, groups, match_path, match_path-groups, match_path-none, zip_strict,
}
use pyrpckit.Service.Matching.Instances.{fill, groups_sound}
use pyrpckit.Service.Endpoints.{
  Endpoint, distinct, ends_with, has_char, in_texts, normalized, same, same-sym,
}
use pyrpckit.Service.Routing.{first_match, is_templated, match_service}

substitute-plain : (by text : List ℕ) → substitute by (map lit text) ≡ text
unfolding substitute
substitute-plain by [] = refl
substitute-plain by (c ∷ text) = cc (substitute-plain by text)

fill-plain : (text : List ℕ) (vs : List (List ℕ)) → fill (map lit text) vs ≡ text
unfolding fill
fill-plain [] vs = refl
fill-plain (c ∷ text) vs = cc (fill-plain text vs)

groups-plain : (text : List ℕ) → groups (map lit text) text ≡ some []
unfolding groups
groups-plain [] = refl
groups-plain (c ∷ text) = ground (arith, groups-plain text)

variables-plain : (text : List ℕ) → variables (map lit text) ≡ []
unfolding variables
variables-plain [] = refl
variables-plain (c ∷ text) = variables-plain text

normalized-plain : (text : List ℕ) → has_char b'{' text ≡ false → normalized text ≡ text
unfolding normalized
normalized-plain text h = rw (pieces-plain text h) (substitute-plain (b'{' ∷ b'}' ∷ []) text)

-- A literal path matches itself, and otherwise only itself before a newline.
match_path-plain :
    (decode : List ℕ → List ℕ) (text : List ℕ)
    → has_char b'{' text ≡ false
    → match_path decode text text ≡ some []
match_path-plain decode text h =
    let literal = pieces-plain text h in
    match_path-groups decode text text [] (ap (λ ps. groups ps text) literal ∙ groups-plain text)
    ∙ ap (λ names. zip_strict names []) (ap variables literal ∙ variables-plain text)
    ∙ (unfold zip_strict in refl)

same_refl : (t : List ℕ) → same t t ≡ true
unfolding same
same_refl [] = refl
same_refl (c ∷ t) = ground (arith, same_refl t)

ends-append : (text : List ℕ) → ends_with 10 (text ++ 10 ∷ []) ≡ true
unfolding ends_with
ends-append [] = refl
ends-append (c ∷ []) = refl
ends-append (c ∷ d ∷ text) = ends-append (d ∷ text)

other_literal :
    (text path : List ℕ) (vs : List (List ℕ))
    → ends_with 10 path ≡ false
    → same path text ≡ false
    → groups (map lit text) path ≢ some vs
other_literal text path vs stop differs h =
    let (fit, end, ends, cut) = groups_sound (map lit text) path vs h in
    omega (arith, refuse end ends (cut ∙ ap (λ t. t ++ end) (fill-plain text vs)))
  where
    refuse : (end : List ℕ) → at_end end ≡ true → path ≡ text ++ end → 1 ≤ 0
    refuse [] ends is =
        let it : path ≡ text = is ∙ append-nil text in
        ground (arith, differs, subst (λ t. same t text ≡ true) (sym it) (same_refl text))
    refuse (c ∷ []) ends is =
        let newline : c ≡ 10 = ground (arith, ends) in
        let it : path ≡ text ++ 10 ∷ [] = is ∙ ap (λ d. text ++ d ∷ []) newline in
        ground (arith, stop, subst (λ t. ends_with 10 t ≡ true) (sym it) (ends-append text))
    refuse (c ∷ d ∷ end) ends is = absurd (ground (arith, ends))

unmatched_literal :
    (decode : List ℕ → List ℕ) (text path : List ℕ)
    → has_char b'{' text ≡ false
    → ends_with 10 path ≡ false
    → same path text ≡ false
    → match_path decode text path ≡ none
unmatched_literal decode text path h stop differs =
    elim (Option-cases (groups (map lit text) path)) [
      | inl n ↦
          match_path-none decode text path (ap (λ ps. groups ps path) (pieces-plain text h) ∙ n)
      | inr (vs, n) ↦ absurd (other_literal text path vs stop differs n)
    ]

distinct-apart :
    (t x : List ℕ) (before after : List (List ℕ))
    → in_texts t (before ++ x ∷ after) ≡ false
    → same x t ≡ false
unfolding in_texts
distinct-apart t x [] after h = ground (arith, h)
distinct-apart t x (u ∷ before) after h = distinct-apart t x before after (ground (arith, h))

distinct-before :
    (x : List ℕ) (before after : List (List ℕ))
    → distinct (before ++ x ∷ after) ≡ true
    → in_texts x before ≡ false
unfolding distinct in_texts
distinct-before x [] after h = refl
distinct-before x (t ∷ before) after h = ground (
  arith,
  same-sym t x,
  distinct-apart t x before after (ground (arith, h)),
  distinct-before x before after (ground (arith, h)),
)

map-split {ℓ κ} :
    {A : Type ℓ} {B : Type κ} (f : A → B) (before after : List A) (x : A)
    → map f (before ++ x ∷ after) ≡ map f before ++ f x ∷ map f after
map-split f [] after x = refl
map-split f (y ∷ before) after x = cc (map-split f before after x)

skipped :
    (decode : List ℕ → List ℕ) (before after rest : List Endpoint) (e : Endpoint)
    → in_texts e.path (map (λ d. normalized d.path) before) ≡ false
    → is_templated e ≡ false
    → ends_with 10 e.path ≡ false
    → first_match decode (keep_if (λ d. not (is_templated d)) (before ++ e ∷ after) ++ rest) e.path
      ≡ some (e, [])
unfolding first_match in_texts
skipped decode [] after rest e h static stop =
    ground (arith, static, match_path-plain decode e.path static)
skipped decode (d ∷ before) after rest e h static stop =
    let deeper = skipped decode before after rest e (ground (arith, h)) static stop in
    elim (Bool-cases (is_templated d)) [
      | inl t ↦ ground (arith, t, deeper)
      | inr t ↦
          let plain = normalized-plain d.path t in
          let differs : same d.path e.path ≡ false =
            subst (λ p. same p e.path ≡ false) plain (ground (arith, h)) in
          let unmatched =
            unmatched_literal decode d.path e.path t stop (same-sym e.path d.path ∙ differs) in
          ground (arith, t, deeper, unmatched)
    ]

-- Whatever is mounted before or after it, and whatever templates would match: in a service whose
-- paths are distinct, a path without variables that does not end in a newline is served by the
-- endpoint that is mounted at it.
pub match_service-own_path :
    (decode : List ℕ → List ℕ) (before after : List Endpoint) (e : Endpoint)
    → distinct (map (λ d. normalized d.path) (before ++ e ∷ after)) ≡ true
    → is_templated e ≡ false
    → ends_with 10 e.path ≡ false
    → match_service decode (before ++ e ∷ after) e.path ≡ some (e, [])
unfolding match_service
match_service-own_path decode before after e h static stop =
    skipped decode before after (keep_if is_templated (before ++ e ∷ after)) e fresh static stop
  where
    fresh : in_texts e.path (map (λ d. normalized d.path) before) ≡ false
    fresh =
        subst (λ p. in_texts p (map (λ d. normalized d.path) before) ≡ false)
          (normalized-plain e.path static)
          (distinct-before (normalized e.path) (map (λ d. normalized d.path) before)
            (map (λ d. normalized d.path) after)
            (subst (λ t. distinct t ≡ true) (map-split (λ d. normalized d.path) before after e) h))
