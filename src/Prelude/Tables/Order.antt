-- ===== src/Prelude/Tables/Order.antt =====
-- ORDER BY: the rows are the same, and they come in the order of the key.
use Prim.Native.Nat.{ℕ, ◌<◌}
use kube_extauth_demo.Prelude.Tests.{Bool-cases, leb}
use kube_extauth_demo.Prelude.Lists.{length}
use kube_extauth_demo.Prelude.Tables.{rows_where, insert_by, order_by, All}
use kube_extauth_demo.Prelude.Tables.Laws.{All-map}
use mathlib.Core.Path.{◌≡◌, refl, ◌∙◌}
use mathlib.Core.Logic.{inl, inr}
use mathlib.Core.Bool.{Bool}
use mathlib.Core.List.{List, [], ◌∷◌}
use native.Mathlib.Omega.{arith}

module _ {ℓ} {A : Type ℓ} where
  -- Every condition selects as many rows of the one as of the other.
  abbrev pub SameRows : List A → List A → Type ℓ
  SameRows xs ys = (p : A → Bool) → length (rows_where p xs) ≡ length (rows_where p ys)

  insert_by-SameRows : (key : A → ℕ) (x : A) (xs : List A) → SameRows (insert_by key x xs) (x ∷ xs)
  unfolding insert_by rows_where
  insert_by-SameRows key x [] p = refl
  insert_by-SameRows key x (y ∷ ys) p = ground (arith, insert_by-SameRows key x ys p)

  pub order_by-SameRows : (key : A → ℕ) (xs : List A) → SameRows (order_by key xs) xs
  unfolding order_by rows_where
  order_by-SameRows key [] p = refl
  order_by-SameRows key (x ∷ xs) p =
      insert_by-SameRows key x (order_by key xs) p ∙ ground (arith, order_by-SameRows key xs p)

  -- No two rows have the same key.
  abbrev pub DistinctKeys : (A → ℕ) → List A → Type 0
  DistinctKeys key [] = Unit
  DistinctKeys key (x ∷ xs) = All (λ y. ¬ (key x ≡ key y)) xs × DistinctKeys key xs

  -- Every row has a smaller key than the rows after it.
  abbrev pub StrictlyAscending : (A → ℕ) → List A → Type 0
  StrictlyAscending key [] = Unit
  StrictlyAscending key (x ∷ xs) = All (λ y. key x < key y) xs × StrictlyAscending key xs

  All-insert :
      (key : A → ℕ) (P : A → Type 0) (x : A) (xs : List A)
      → P x
      → All P xs
      → All P (insert_by key x xs)
  unfolding insert_by
  All-insert key P x [] h a = (h, tt)
  All-insert key P x (y ∷ ys) h a = elim (Bool-cases (leb (key x) (key y))) [
    | inl before ↦ rw before (h, a)
    | inr after ↦ rw after (a.0, All-insert key P x ys h a.1)
  ]

  All-order_by : (key : A → ℕ) (P : A → Type 0) (xs : List A) → All P xs → All P (order_by key xs)
  unfolding order_by
  All-order_by key P [] a = tt
  All-order_by key P (x ∷ xs) a =
      All-insert key P x (order_by key xs) a.0 (All-order_by key P xs a.1)

  insert_by-StrictlyAscending :
      (key : A → ℕ) (x : A) (xs : List A)
      → All (λ y. ¬ (key x ≡ key y)) xs
      → StrictlyAscending key xs
      → StrictlyAscending key (insert_by key x xs)
  unfolding insert_by
  insert_by-StrictlyAscending key x [] apart a = (tt, tt)
  insert_by-StrictlyAscending key x (y ∷ ys) apart a = elim (Bool-cases (leb (key x) (key y))) [
    | inl before ↦
        let first : key x < key y = ground (arith, apart.0) in
        rw before ((first, All-map _ _ ys (λ z below. ground arith) a.0), a)
    | inr after ↦
        let first : key y < key x = ground arith in
        rw after (
          All-insert key (λ z. key y < key z) x ys first a.0,
          insert_by-StrictlyAscending key x ys apart.1 a.1,
        )
  ]

  -- With distinct keys ORDER BY has no choice.
  pub order_by-StrictlyAscending :
      (key : A → ℕ) (xs : List A) → DistinctKeys key xs → StrictlyAscending key (order_by key xs)
  unfolding order_by
  order_by-StrictlyAscending key [] d = tt
  order_by-StrictlyAscending key (x ∷ xs) d =
      insert_by-StrictlyAscending key x (order_by key xs)
        (All-order_by key (λ y. ¬ (key x ≡ key y)) xs d.0) (order_by-StrictlyAscending key xs d.1)
