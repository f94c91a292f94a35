-- ===== src/Service/Freeze/Frozen.antt =====
-- What a frozen protocol promises about its names.
use pyrpckit.Prelude.{
  Bool-cases, List, Result-cases, [], any, ap, arith, false, inl, inr, map, ok, refl, subst, true,
  ℕ, ◌<◌, ◌∙◌, ◌∷◌, ◌≡◌, ◌≤◌,
}
use pyrpckit.Service.Endpoints.{Endpoint, in_texts, same}
use pyrpckit.Service.Freeze.{Gathered, Operation, RpcProtocol, op_names}
use pyrpckit.Service.Freeze.Gather.{
  freeze, gather_endpoints, names_conflict, namespaces, nothing_gathered, protocol_fits,
  rename_requests, text_count, with_requests,
}
use pyrpckit.Service.Freeze.Names.{IsTally, all_names, keys, same-eq, tally, tally-all_names}
use pyrpckit.Service.Freeze.Sound.{gather_endpoints-IsTally}

op_names-rename :
    (taken : List (List ℕ)) (ms : List Operation)
    → op_names (rename_requests taken ms) ≡ op_names ms
unfolding rename_requests
op_names-rename taken [] = refl
op_names-rename taken (m ∷ ms) = ground (arith, op_names-rename taken ms)

tally-with_requests : (n : List ℕ) (p : RpcProtocol) → tally n (with_requests p) ≡ tally n p
unfolding tally with_requests
tally-with_requests n p =
    omega (
      arith,
      ap (text_count n) (op_names-rename (map (λ m. m.op_request_name) p.methods) p.methods),
    )

-- No name is a namespace of another.
abbrev pub NoNamespace : List (List ℕ) → Type 0
NoNamespace names =
    (name space : List ℕ)
    → 0 < text_count name names
    → in_texts space (namespaces [] name) ≡ true
    → text_count space names ≡ 0

-- What the checks of a frozen service have let through.
frozen_from :
    (channel_protocol : ℕ → RpcProtocol) (endpoints : List Endpoint) (p : RpcProtocol)
    → freeze channel_protocol endpoints ≡ ok p
    → (g : Gathered) × (gather_endpoints channel_protocol endpoints nothing_gathered ≡ ok g)
      × (names_conflict (keys g.owners) ≡ false)
      × (p ≡ with_requests g.gathered)
unfolding freeze
frozen_from channel_protocol endpoints p h =
    elim (Result-cases (gather_endpoints channel_protocol endpoints nothing_gathered)) [
      | inl (refused, m) ↦ absurd (ground (arith, h, m))
      | inr (g, m) ↦ elim (Bool-cases (names_conflict (keys g.owners))) [
        | inl c ↦ absurd (ground (arith, h, m, c))
        | inr c ↦ elim (Bool-cases (protocol_fits (with_requests g.gathered))) [
          | inl f ↦ (g, m, c, ground (arith, h, m, c, f))
          | inr f ↦ absurd (ground (arith, h, m, c, f))
        ]
      ]
    ]

none_taken :
    (all_of spaces : List (List ℕ)) (space : List ℕ)
    → any (λ prefix. in_texts prefix all_of) spaces ≡ false
    → in_texts space spaces ≡ true
    → in_texts space all_of ≡ false
unfolding in_texts
none_taken all_of [] space h i = absurd (ground (arith, i))
none_taken all_of (s ∷ spaces) space h i =
    let deeper = none_taken all_of spaces space in
    elim (Bool-cases (same s space)) [
      | inl hit ↦ subst (λ t. in_texts t all_of ≡ false) (same-eq s space hit) (ground (arith, h))
      | inr miss ↦ deeper (ground (arith, h)) (ground (arith, i, miss))
    ]

-- A name of a list that has no conflict: none of its namespaces is in the list.
names_conflict-none :
    (all_of names : List (List ℕ)) (name space : List ℕ)
    → any (λ n. any (λ prefix. in_texts prefix all_of) (namespaces [] n)) names ≡ false
    → 0 < text_count name names
    → in_texts space (namespaces [] name) ≡ true
    → in_texts space all_of ≡ false
unfolding text_count
names_conflict-none all_of [] name space h n i = absurd (omega arith)
names_conflict-none all_of (t ∷ names) name space h n i =
    let deeper = names_conflict-none all_of names name space in
    elim (Bool-cases (same t name)) [
      | inl hit ↦
          none_taken all_of (namespaces [] name) space
            (subst (λ k. any (λ prefix. in_texts prefix all_of) (namespaces [] k) ≡ false)
              (same-eq t name hit) (ground (arith, h)))
            i
      | inr miss ↦ deeper (ground (arith, h)) (ground (arith, n, miss)) i
    ]

count-absent :
    (n : List ℕ) (texts : List (List ℕ)) → in_texts n texts ≡ false → text_count n texts ≡ 0
unfolding in_texts text_count
count-absent n [] h = refl
count-absent n (t ∷ texts) h = ground (arith, h, count-absent n texts)

-- When a service freezes, its protocol has no operation name twice, over methods, events,
-- subscriptions, client methods, streams and raw sockets of all channels together, and no name is a
-- namespace of another one.
pub freeze-names :
    (channel_protocol : ℕ → RpcProtocol) (endpoints : List Endpoint) (p : RpcProtocol)
    → freeze channel_protocol endpoints ≡ ok p
    → ((name : List ℕ) → text_count name (all_names p) ≤ 1) × NoNamespace (all_names p)
freeze-names channel_protocol endpoints p h =
    let (g, gathers, conflict, is) = frozen_from channel_protocol endpoints p h in
    let (u, t) =
      gather_endpoints-IsTally channel_protocol endpoints nothing_gathered g start gathers in
    let counted : (n : List ℕ) → text_count n (all_names p) ≡ text_count n (keys g.owners) = λ n.
      omega (arith, t n, tally-all_names n p, ap (tally n) is, tally-with_requests n g.gathered) in
    (
      λ n. omega (arith, u n, counted n),
      λ name space n i.
          counted space
          ∙ count-absent space (keys g.owners) (
              names_conflict-none (keys g.owners) (keys g.owners) name space
                (unfold names_conflict in conflict) (omega (arith, n, counted name)) i),
    )
  where
    start : IsTally nothing_gathered
    start = (λ n. unfold text_count in omega arith, λ n. unfold text_count tally in refl)
