-- ===== src/Runtime/Invariant.antt =====
-- What holds of the endpoint's bookkeeping at every moment.
pub mod Calls
mod Admission
mod Reader
pub mod Judged
pub mod Bounds
use pyrpckit.Prelude.{
  Bool, List, [], count, false, if◌then◌else◌, length, none, some, suc, true, ℕ, ◌+◌, ◌∷◌, ◌≡◌, ◌≤◌,
}
use pyrpckit.Wire.Envelope.{RequestId}
use pyrpckit.Runtime.State.{Call, Collector, Loop, id_eq}

-- The reservations that calls hold, and those of the calls whose task has not ended.
unfoldable pub claims : List Call → List ℕ
claims [] = []
claims (c ∷ cs) = elim c.reservation [ none ↦ claims cs | some r ↦ r ∷ claims cs ]

unfoldable pub running : List Call → List ℕ
running [] = []
running (c ∷ cs) =
    let rest = running cs in
    elim c.reservation [ none ↦ rest | some r ↦ if c.done then rest else r ∷ rest ]

unfoldable pub count_key : RequestId → List (RequestId × ℕ) → ℕ
count_key k [] = 0
count_key k ((j, i) ∷ rest) = if id_eq j k then suc (count_key k rest) else count_key k rest

pub record Books (P Q max_pending max_queue next : ℕ) (reservations : List ℕ) (calls : List Call)
    (requests : List (RequestId × ℕ)) (collectors : List Collector) : Type 0 where
  pub same_pending : max_pending ≡ P
  pub same_queue : max_queue ≡ Q
  pub reserved : length reservations ≤ P
  pub collected : length collectors ≤ P + Q
  pub unique : (n : ℕ) → count n reservations ≤ 1
  pub fresh : (n : ℕ) → next ≤ n → count n reservations ≡ 0
  pub claimed_once : (n : ℕ) → count n (claims calls) ≤ 1
  pub claims_fresh : (n : ℕ) → next ≤ n → count n (claims calls) ≡ 0
  pub backed : (n : ℕ) → count n (running calls) ≤ count n reservations
  pub keyed_once : (k : RequestId) → count_key k requests ≤ 1

-- The invariant says nothing of the connection, the connected client and the flags, so a step that
-- changes only those keeps it as it stands.
abbrev pub Inv : ℕ → ℕ → Loop → Type 0
Inv P Q l =
    Books P Q l.max_pending_requests l.max_queue_size l.next l.reservations l.calls l.requests
      l.collectors

module _ {P Q : ℕ} where
  pub if-Inv : (b : Bool) (x y : Loop) → Inv P Q x → Inv P Q y → Inv P Q (if b then x else y)
  if-Inv true x y hx hy = hx
  if-Inv false x y hx hy = hy
