-- ===== src/Service/Freeze/Names.antt =====
-- How often a name is taken, in `owners` and among the gathered operations.
use pyrpckit.Prelude.{
  Bool-cases, List, Result-cases, [], ap, arith, false, inl, inr, map, ok, refl, subst, true, ℕ,
  ◌++◌, ◌+◌, ◌∙◌, ◌∷◌, ◌≡◌, ◌≤◌,
}
use pyrpckit.Service.Endpoints.{same}
use pyrpckit.Service.Freeze.{
  Gathered, Operation, RpcProtocol, op_names, owner_of, served, unique_name, unique_names,
}
use pyrpckit.Service.Freeze.Gather.{text_count}

abbrev pub keys : List (List ℕ × List ℕ) → List (List ℕ)
keys owners = map (λ entry. entry.0) owners

pub same-eq : (s t : List ℕ) → same s t ≡ true → s ≡ t
unfolding same
same-eq [] [] h = refl
same-eq [] (d ∷ t) h = absurd (ground (arith, h))
same-eq (c ∷ s) [] h = absurd (ground (arith, h))
same-eq (c ∷ s) (d ∷ t) h = ground (arith, h, same-eq s t)

pub text_count-append :
    (n : List ℕ) (xs ys : List (List ℕ))
    → text_count n (xs ++ ys) ≡ text_count n xs + text_count n ys
unfolding text_count
text_count-append n [] ys = omega arith
text_count-append n (x ∷ xs) ys = ground (arith, text_count-append n xs ys)

count-owner_of :
    (n : List ℕ) (owners : List (List ℕ × List ℕ))
    → owner_of n owners ≡ false
    → text_count n (keys owners) ≡ 0
unfolding owner_of text_count
count-owner_of n [] h = refl
count-owner_of n ((key, channel) ∷ rest) h = ground (arith, h, count-owner_of n rest)

count-keys-append :
    (n name channel : List ℕ) (owners : List (List ℕ × List ℕ))
    → text_count n (keys (owners ++ (name, channel) ∷ []))
      ≡ text_count n (keys owners) + text_count n (name ∷ [])
unfolding text_count
count-keys-append n name channel [] = ground arith
count-keys-append n name channel (entry ∷ owners) =
    ground (arith, count-keys-append n name channel owners)

-- No name is taken twice.
abbrev pub Unshared : List (List ℕ × List ℕ) → Type 0
Unshared owners = (n : List ℕ) → text_count n (keys owners) ≤ 1

-- The names that are taken, and those of a list on top.
abbrev pub Taken : List (List ℕ × List ℕ) → List (List ℕ × List ℕ) → List (List ℕ) → Type 0
Taken owners more names =
    (n : List ℕ) → text_count n (keys more) ≡ text_count n (keys owners) + text_count n names

still-unshared :
    (n name : List ℕ) (owners : List (List ℕ × List ℕ))
    → owner_of name owners ≡ false
    → text_count n (keys owners) ≤ 1
    → text_count n (keys owners) + text_count n (name ∷ []) ≤ 1
unfolding text_count
still-unshared n name owners e u = elim (Bool-cases (same name n)) [
  | inl hit ↦
      let none_yet : text_count n (keys owners) ≡ 0 =
        subst (λ t. text_count t (keys owners) ≡ 0) (same-eq name n hit)
          (count-owner_of name owners e) in
      ground (arith, hit, none_yet)
  | inr miss ↦ ground (arith, miss, u)
]

pub unique_name-Taken :
    (owners more : List (List ℕ × List ℕ)) (name channel : List ℕ)
    → Unshared owners
    → unique_name owners name channel ≡ ok more
    → Unshared more × Taken owners more (name ∷ [])
unfolding unique_name
unique_name-Taken owners more name channel u h = elim (Bool-cases (owner_of name owners)) [
  | inl e ↦ absurd (ground (arith, h, e))
  | inr e ↦
      let is : owners ++ (name, channel) ∷ [] ≡ more = ground (arith, h, e) in
      let taken : Taken owners more (name ∷ []) = λ n.
        subst (λ t. text_count n (keys t) ≡ text_count n (keys owners) + text_count n (name ∷ []))
          is (count-keys-append n name channel owners) in
      (λ n. omega (arith, taken n, still-unshared n name owners e (u n)), taken)
]

pub unique_names-Taken :
    (owners more : List (List ℕ × List ℕ)) (names : List (List ℕ)) (channel : List ℕ)
    → Unshared owners
    → unique_names owners names channel ≡ ok more
    → Unshared more × Taken owners more names
unfolding unique_names
unique_names-Taken owners more [] channel u h =
    let is : owners ≡ more = ground (arith, h) in
    subst (λ t. Unshared t × Taken owners t []) is (u, λ n. unfold text_count in omega arith)
unique_names-Taken owners more (name ∷ names) channel u h =
    let deeper = λ (next : List (List ℕ × List ℕ)). unique_names-Taken next more names channel in
    elim (Result-cases (unique_name owners name channel)) [
      | inl (refused, m) ↦ absurd (ground (arith, h, m))
      | inr (next, m) ↦
          let (u', t) = unique_name-Taken owners next name channel u m in
          let (u'', t') = deeper next u' (ground (arith, h, m)) in
          (u'', λ n. omega (arith, t n, t' n, text_count-append n (name ∷ []) names))
    ]

-- The names of all operations of a protocol.
unfoldable pub all_names : RpcProtocol → List (List ℕ)
all_names p =
    op_names p.methods
    ++ op_names p.notifications
    ++ op_names p.subscriptions
    ++ op_names p.client_methods
    ++ p.streams
    ++ p.raws

-- What the names of a protocol count to, kind by kind.
unfoldable pub tally : List ℕ → RpcProtocol → ℕ
tally n p =
    text_count n (op_names p.methods)
    + text_count n (op_names p.notifications)
    + text_count n (op_names p.subscriptions)
    + text_count n (op_names p.client_methods)
    + text_count n p.streams
    + text_count n p.raws

pub tally-all_names : (n : List ℕ) (p : RpcProtocol) → text_count n (all_names p) ≡ tally n p
unfolding all_names tally
tally-all_names n p =
    let a = op_names p.methods in
    let b = a ++ op_names p.notifications in
    let c = b ++ op_names p.subscriptions in
    let d = c ++ op_names p.client_methods in
    omega (
      arith,
      text_count-append n a (op_names p.notifications),
      text_count-append n b (op_names p.subscriptions),
      text_count-append n c (op_names p.client_methods),
      text_count-append n d p.streams,
      text_count-append n (d ++ p.streams) p.raws,
    )

-- Exactly the names of the gathered operations are taken, each once.
abbrev pub IsTally : Gathered → Type 0
IsTally g = Unshared g.owners × ((n : List ℕ) → text_count n (keys g.owners) ≡ tally n g.gathered)

op_names-append : (xs ys : List Operation) → op_names (xs ++ ys) ≡ op_names xs ++ op_names ys
op_names-append [] ys = refl
op_names-append (x ∷ xs) ys = cc (op_names-append xs ys)

op_names-served :
    (server : List ℕ) (ops : List Operation) → op_names (served server ops) ≡ op_names ops
op_names-served server [] = refl
op_names-served server (op ∷ ops) = cc (op_names-served server ops)

-- The names of operations that join a list of them.
pub count-served :
    (n server : List ℕ) (xs ops : List Operation)
    → text_count n (op_names (xs ++ served server ops))
      ≡ text_count n (op_names xs) + text_count n (op_names ops)
count-served n server xs ops =
    ap (text_count n) (op_names-append xs (served server ops))
    ∙ text_count-append n (op_names xs) (op_names (served server ops))
    ∙ ap (λ t. text_count n (op_names xs) + text_count n t) (op_names-served server ops)
