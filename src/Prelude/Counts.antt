-- ===== src/Prelude/Counts.antt =====
-- Lists of numbers as sets: removal of a number, and how often a number occurs.
use Prim.Native.Nat.{ℕ, suc, ◌+◌, ◌≤◌, ◌<◌}
use mathlib.Core.Path.{◌≡◌}
use mathlib.Core.List.{List, [], ◌∷◌, ◌++◌}
use native.Mathlib.Omega.{arith}
use pyrpckit.Prelude.Tests.{◌==◌, if◌then◌else◌}
use pyrpckit.Prelude.Lists.{length}

-- `set.discard(n)`
unfoldable pub discard : ℕ → List ℕ → List ℕ
discard n [] = []
discard n (m ∷ ms) = if m == n then discard n ms else m ∷ discard n ms

unfoldable pub count : ℕ → List ℕ → ℕ
count n [] = 0
count n (m ∷ ms) = if m == n then suc (count n ms) else count n ms

pub count-append : (n : ℕ) (xs ys : List ℕ) → count n (xs ++ ys) ≡ count n xs + count n ys
unfolding count
count-append n [] ys = omega arith
count-append n (x ∷ xs) ys = ground (arith, count-append n xs ys)

pub count-discard :
    (n m : ℕ) (xs : List ℕ) → count n (discard m xs) ≡ (if m == n then 0 else count n xs)
unfolding count discard
count-discard n m [] = ground arith
count-discard n m (x ∷ xs) = ground (arith, count-discard n m xs)

pub length-discard-le : (n : ℕ) (xs : List ℕ) → length (discard n xs) ≤ length xs
unfolding discard
length-discard-le n [] = omega arith
length-discard-le n (x ∷ xs) = ground (arith, length-discard-le n xs)

-- The first occurrence of `n` is taken out.
erase : ℕ → List ℕ → List ℕ
erase n [] = []
erase n (x ∷ xs) = if x == n then xs else x ∷ erase n xs

count-erase :
    (n m : ℕ) (xs : List ℕ)
    → 0 < count m xs
    → (if m == n then suc (count n (erase m xs)) else count n (erase m xs)) ≡ count n xs
unfolding count erase
count-erase n m [] h = absurd (omega arith)
count-erase n m (x ∷ xs) h = ground (arith, count-erase n m xs)

length-erase : (m : ℕ) (xs : List ℕ) → 0 < count m xs → suc (length (erase m xs)) ≡ length xs
unfolding count erase
length-erase m [] h = absurd (omega arith)
length-erase m (x ∷ xs) h = ground (arith, length-erase m xs)

-- A list whose members all occur in another as often is no longer than that one.
pub length-le_of_count :
    (xs ys : List ℕ) → ((n : ℕ) → count n xs ≤ count n ys) → length xs ≤ length ys
length-le_of_count [] ys h = omega arith
length-le_of_count (x ∷ xs) ys h =
    let here : 0 < count x ys = unfold count in ground (arith, h x) in
    omega (arith, length-erase x ys here, length-le_of_count xs (erase x ys) (λ n. fewer n here))
  where
    fewer : (n : ℕ) → 0 < count x ys → count n xs ≤ count n (erase x ys)
    fewer n here = unfold count in ground (arith, h n, count-erase n x ys here)
