-- ===== src/Service/Routing/Priority.antt =====
-- Which endpoint `RpcService.match` finds.
use pyrpckit.Prelude.{
  All, Bool, Bool-cases, List, Option, Option-cases, [], all, ap, arith, if◌then◌else◌, inl, inr,
  keep_if, none, not, refl, some, subst, sym, true, ℕ, ◌++◌, ◌∙◌, ◌∷◌, ◌≡◌,
}
use pyrpckit.Service.Matching.{match_path}
use pyrpckit.Service.Endpoints.{Endpoint}
use pyrpckit.Service.Routing.{first_match, is_templated, match_service}

abbrev pub Unmatched : (List ℕ → List ℕ) → List ℕ → Endpoint → Type 0
Unmatched decode path e = match_path decode e.path path ≡ none

abbrev pub Matched : (List ℕ → List ℕ) → List ℕ → Endpoint → List (List ℕ × List ℕ) → Type 0
Matched decode path e values = match_path decode e.path path ≡ some values

first_match-append :
    (decode : List ℕ → List ℕ) (xs ys : List Endpoint) (path : List ℕ)
    → first_match decode (xs ++ ys) path
      ≡ (elim (first_match decode xs path) [ some r ↦ some r | none ↦ first_match decode ys path ])
unfolding first_match
first_match-append decode [] ys path = refl
first_match-append decode (d ∷ xs) ys path = ground (arith, first_match-append decode xs ys path)

first_match-none :
    (decode : List ℕ → List ℕ) (xs : List Endpoint) (path : List ℕ)
    → first_match decode xs path ≡ none
    → All (Unmatched decode path) xs
unfolding first_match
first_match-none decode [] path h = tt
first_match-none decode (d ∷ xs) path h =
    let deeper = first_match-none decode xs path in
    elim (Option-cases (match_path decode d.path path)) [
      | inl n ↦ (n, deeper (ground (arith, h, n)))
      | inr (vs, n) ↦ absurd (ground (arith, h, n))
    ]

first_match-some :
    (decode : List ℕ → List ℕ) (test : Endpoint → Bool) (xs : List Endpoint) (path : List ℕ)
    (e : Endpoint) (values : List (List ℕ × List ℕ))
    → all test xs ≡ true
    → first_match decode xs path ≡ some (e, values)
    → (test e ≡ true) × Matched decode path e values
unfolding first_match
first_match-some decode test [] path e values a h = absurd (ground (arith, h))
first_match-some decode test (d ∷ xs) path e values a h =
    let deeper = first_match-some decode test xs path e values (ground (arith, a)) in
    elim (Option-cases (match_path decode d.path path)) [
      | inl n ↦ deeper (ground (arith, h, n))
      | inr (vs, n) ↦
          let same_end : d ≡ e = ground (arith, h, n) in
          let same_values : vs ≡ values = ground (arith, h, n) in
          let test_d : test d ≡ true = ground (arith, a) in
          (
            subst (λ t. test t ≡ true) same_end test_d,
            subst (λ t. Matched decode path t values) same_end (n ∙ ap some same_values),
          )
    ]

all-keep_if : (test : Endpoint → Bool) (xs : List Endpoint) → all test (keep_if test xs) ≡ true
all-keep_if test [] = refl
all-keep_if test (d ∷ xs) = ground (arith, all-keep_if test xs)

-- What holds of the kept endpoints, and of the others.
All-kept :
    (P : Endpoint → Type 0) (test : Endpoint → Bool) (xs : List Endpoint)
    → All P (keep_if test xs)
    → All (λ d. test d ≡ true → P d) xs
All-kept P test [] h = tt
All-kept P test (d ∷ xs) h =
    let deeper = All-kept P test xs in
    elim (Bool-cases (test d)) [
      | inl e ↦
          let (here, rest) =
            subst (λ b. All P (if b then d ∷ keep_if test xs else keep_if test xs)) e h in
          (λ _. here, deeper rest)
      | inr e ↦ (
        λ t. absurd (ground (arith, t, e)),
        deeper (subst (λ b. All P (if b then d ∷ keep_if test xs else keep_if test xs)) e h),
      )
    ]

-- What a match of the service means: nothing, if no endpoint matches; otherwise an endpoint that
-- matches with these values, and one with variables only if no endpoint without any matches.
abbrev pub IsRouted :
    (List ℕ → List ℕ) → List Endpoint → List ℕ → Option (Endpoint × List (List ℕ × List ℕ)) → Type 0
IsRouted decode endpoints path none = All (Unmatched decode path) endpoints
IsRouted decode endpoints path (some (e, values)) =
    Matched decode path e values
    × (is_templated e ≡ true
        → All (λ d. not (is_templated d) ≡ true → Unmatched decode path d) endpoints)

All-both :
    (P : Endpoint → Type 0) (xs : List Endpoint)
    → All (λ d. not (is_templated d) ≡ true → P d) xs
    → All (λ d. is_templated d ≡ true → P d) xs
    → All P xs
All-both P [] h k = tt
All-both P (d ∷ xs) (h, hs) (k, ks) =
    (elim (Bool-cases (is_templated d)) [ inl e ↦ k e | inr e ↦ h (ap not e) ], All-both P xs hs ks)

-- A service answers a path exactly if one of its endpoints matches it; the endpoint that it finds
-- matches with the values that it returns, and has variables only if no endpoint without variables
-- matches.
pub match_service-IsRouted :
    (decode : List ℕ → List ℕ) (endpoints : List Endpoint) (path : List ℕ)
    → IsRouted decode endpoints path (match_service decode endpoints path)
unfolding match_service
match_service-IsRouted decode endpoints path =
    elim (Option-cases (first_match decode statics path)) [
      | inl n ↦
          let unmatched =
            All-kept (Unmatched decode path) (λ d. not (is_templated d)) endpoints
              (first_match-none decode statics path n) in
          elim (Option-cases (first_match decode templated path)) [
            | inl m ↦ answered none (whole ∙ both n ∙ m) (
                All-both (Unmatched decode path) endpoints unmatched (
                  All-kept (Unmatched decode path) is_templated endpoints
                    (first_match-none decode templated path m)))
            | inr ((e, values), m) ↦
                let (_, matched) =
                  first_match-some decode is_templated templated path e values
                    (all-keep_if is_templated endpoints) m in
                answered (some (e, values)) (whole ∙ both n ∙ m) (matched, λ _. unmatched)
          ]
      | inr ((e, values), n) ↦
          let (static, matched) =
            first_match-some decode (λ d. not (is_templated d)) statics path e values
              (all-keep_if (λ d. not (is_templated d)) endpoints) n in
          answered (some (e, values)) (whole ∙ both n)
            (matched, λ t. absurd (ground (arith, t, static)))
    ]
  where
    statics : List Endpoint
    statics = keep_if (λ d. not (is_templated d)) endpoints

    templated : List Endpoint
    templated = keep_if is_templated endpoints

    next : Option (Endpoint × List (List ℕ × List ℕ)) → Option (Endpoint × List (List ℕ × List ℕ))
    next found = elim found [ some r ↦ some r | none ↦ first_match decode templated path ]

    whole : match_service decode endpoints path ≡ next (first_match decode statics path)
    whole = first_match-append decode statics templated path

    both :
        {found : Option (Endpoint × List (List ℕ × List ℕ))}
        → first_match decode statics path ≡ found
        → next (first_match decode statics path) ≡ next found
    both n = ap next n

    answered :
        (r : Option (Endpoint × List (List ℕ × List ℕ)))
        → match_service decode endpoints path ≡ r
        → IsRouted decode endpoints path r
        → IsRouted decode endpoints path (match_service decode endpoints path)
    answered r is h = subst (λ t. IsRouted decode endpoints path t) (sym is) h
