-- ===== src/Prelude/Tables.antt =====
-- Tables as lists of rows: conditions, selection, order by time, windows, and the predicates on
-- tables by which their constraints are stated.
pub mod Laws
pub mod Order
use kube_extauth_demo.Prelude.Tests.{if◌then◌else◌, leb}
use Prim.Native.Nat.{ℕ}
use mathlib.Core.Path.{◌≡◌}
use mathlib.Core.Bool.{Bool, true, false, not, ◌||◌}
use mathlib.Core.Option.{Option, none, some}
use mathlib.Core.List.{List, [], ◌∷◌}

module _ {ℓ} {A : Type ℓ} where
  -- The first row that meets the condition.
  unfoldable pub find_row : (A → Bool) → List A → Option A
  find_row p [] = none
  find_row p (x ∷ xs) = if p x then some x else find_row p xs

  -- The rows that meet the condition, in order.
  unfoldable pub rows_where : (A → Bool) → List A → List A
  rows_where p [] = []
  rows_where p (x ∷ xs) = let rest = rows_where p xs in if p x then x ∷ rest else rest

  -- The rows that do not.
  abbrev pub rows_except : (A → Bool) → List A → List A
  rows_except p xs = rows_where (λ x. not (p x)) xs

  -- Whether some row meets the condition.
  unfoldable pub has_row : (A → Bool) → List A → Bool
  has_row p [] = false
  has_row p (x ∷ xs) = p x || has_row p xs

  -- A row among rows in the order of a key: before the first whose key is not below its own.
  unfoldable pub insert_by : (A → ℕ) → A → List A → List A
  insert_by key x [] = x ∷ []
  insert_by key x (y ∷ ys) =
      let rest = insert_by key x ys in if leb (key x) (key y) then x ∷ y ∷ ys else y ∷ rest

  -- ORDER BY key ASC; rows with one key keep the order of the table.
  unfoldable pub order_by : (A → ℕ) → List A → List A
  unfolding insert_by
  order_by key [] = []
  order_by key (x ∷ xs) = insert_by key x (order_by key xs)

module _ {ℓ κ} {A : Type ℓ} where
  abbrev pub All : (A → Type κ) → List A → Type κ
  All P [] = Unit
  All P (x ∷ xs) = P x × All P xs

-- No row is the same as a later one.
abbrev pub Distinct {ℓ} : {A : Type ℓ} → (A → A → Bool) → List A → Type 0
Distinct same [] = Unit
Distinct same (x ∷ xs) = (has_row (same x) xs ≡ false) × Distinct same xs
