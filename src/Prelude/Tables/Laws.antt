-- ===== src/Prelude/Tables/Laws.antt =====
-- How removing, replacing and adding rows acts on conditions and constraints.
use kube_extauth_demo.Prelude.Tests.{Bool-cases}
use kube_extauth_demo.Prelude.Tables.{find_row, rows_where, rows_except, has_row, All, Distinct}
use mathlib.Core.Path.{◌≡◌, refl}
use mathlib.Core.Logic.{inl, inr}
use mathlib.Core.Bool.{Bool, true, false}
use mathlib.Core.Option.{none, some}
use mathlib.Core.List.{List, [], ◌∷◌, ◌++◌}
use native.Mathlib.Omega.{arith}

module _ {ℓ} {A : Type ℓ} where
  -- A row that is found meets the condition, and is found only if there is one.
  pub find_row_sound : (p : A → Bool) (xs : List A) {x : A} → find_row p xs ≡ some x → p x ≡ true
  unfolding find_row
  find_row_sound p [] h = cc
  find_row_sound p (y ∷ ys) h = elim (Bool-cases (p y)) [
    | inl yes_y ↦ ground arith
    | inr no_y ↦ find_row_sound p ys (rw no_y at h)
  ]

  pub has_row-find_row :
      (p : A → Bool) (xs : List A) {x : A} → find_row p xs ≡ some x → has_row p xs ≡ true
  unfolding find_row has_row
  has_row-find_row p [] h = cc
  has_row-find_row p (y ∷ ys) {x} h = ground (arith, has_row-find_row p ys {x = x})

  pub find_row-eq-none_iff :
      (p : A → Bool) (xs : List A) → has_row p xs ≡ false → find_row p xs ≡ none
  unfolding find_row has_row
  find_row-eq-none_iff p [] h = refl
  find_row-eq-none_iff p (y ∷ ys) h = ground (arith, find_row-eq-none_iff p ys)

  -- A condition that holds of some row holds of a row that is removed or of one that stays.
  pub has_row-rows_except :
      (q g : A → Bool) (xs : List A)
      → has_row q xs ≡ true
      → has_row q (rows_where g xs) ≡ false
      → has_row q (rows_except g xs) ≡ true
  unfolding has_row rows_where
  has_row-rows_except q g [] h k = cc
  has_row-rows_except q g (x ∷ xs) h k = ground (arith, has_row-rows_except q g xs)

  -- What held of no row holds of none of a part of the rows.
  pub has_row-rows_where :
      (q g : A → Bool) (xs : List A) → has_row q xs ≡ false → has_row q (rows_where g xs) ≡ false
  unfolding has_row rows_where
  has_row-rows_where q g [] h = refl
  has_row-rows_where q g (x ∷ xs) h = ground (arith, has_row-rows_where q g xs)

  -- Replacing the rows that meet `p` by `new` keeps a condition that `new` takes over from them.
  pub has_row-replace :
      (q p : A → Bool) (new : A) (xs : List A)
      → ((x : A) → p x ≡ true → q x ≡ true → q new ≡ true)
      → has_row q xs ≡ true
      → has_row q (new ∷ rows_except p xs) ≡ true
  unfolding has_row rows_where
  has_row-replace q p new [] keep h = cc
  has_row-replace q p new (x ∷ xs) keep h = ground (arith, keep x, has_row-replace q p new xs keep)

  pub Distinct-rows_where :
      (same : A → A → Bool) (g : A → Bool) (xs : List A)
      → Distinct same xs
      → Distinct same (rows_where g xs)
  unfolding rows_where
  Distinct-rows_where same g [] d = tt
  Distinct-rows_where same g (x ∷ xs) d =
      ground (arith, Distinct-rows_where same g xs d.1, has_row-rows_where (same x) g xs d.0)

  -- After removal by a condition, no row meets it.
  pub has_row-rows_except_self : (p : A → Bool) (xs : List A) → has_row p (rows_except p xs) ≡ false
  unfolding has_row rows_where
  has_row-rows_except_self p [] = refl
  has_row-rows_except_self p (x ∷ xs) = ground (arith, has_row-rows_except_self p xs)

  pub rows_where-eq-nil : (p : A → Bool) (xs : List A) → has_row p xs ≡ false → rows_where p xs ≡ []
  unfolding has_row rows_where
  rows_where-eq-nil p [] h = refl
  rows_where-eq-nil p (x ∷ xs) h = ground (arith, rows_where-eq-nil p xs)

  -- Conditions that agree on the rows select the same rows.
  pub rows_where-same :
      (p q : A → Bool) (xs : List A) → All (λ x. p x ≡ q x) xs → rows_where p xs ≡ rows_where q xs
  unfolding rows_where
  rows_where-same p q [] h = refl
  rows_where-same p q (x ∷ xs) h = ground (arith, rows_where-same p q xs h.1)

module _ {ℓ κ} {A : Type ℓ} where
  pub All-rows_where :
      (P : A → Type κ) (g : A → Bool) (xs : List A) → All P xs → All P (rows_where g xs)
  unfolding rows_where
  All-rows_where P g [] h = tt
  All-rows_where P g (x ∷ xs) h = ground (arith, All-rows_where P g xs h.1)

  pub All-snoc : (P : A → Type κ) (xs : List A) (x : A) → All P xs → P x → All P (xs ++ (x ∷ []))
  All-snoc P [] x h p = (p, tt)
  All-snoc P (y ∷ ys) x h p = (h.0, All-snoc P ys x h.1 p)

module _ {ℓ κ μ} {A : Type ℓ} where
  pub All-map :
      (P : A → Type κ) (Q : A → Type μ) (xs : List A) → ((x : A) → P x → Q x) → All P xs → All Q xs
  All-map P Q [] f h = tt
  All-map P Q (x ∷ xs) f h = (f x h.0, All-map P Q xs f h.1)

  -- The same for a part of the rows, of which the condition is known too.
  pub All-map_where :
      (P : A → Type κ) (Q : A → Type μ) (g : A → Bool) (xs : List A)
      → ((x : A) → g x ≡ true → P x → Q x)
      → All P xs
      → All Q (rows_where g xs)
  unfolding rows_where
  All-map_where P Q g [] f h = tt
  All-map_where P Q g (x ∷ xs) f h = elim (Bool-cases (g x)) [
    | inl here ↦ rw here (f x here h.0, All-map_where P Q g xs f h.1)
    | inr gone ↦ rw gone (All-map_where P Q g xs f h.1)
  ]

module _ {ℓ} {A : Type ℓ} where
  -- A row that is found meets every condition that fails on no row.
  find_row-refutes :
      (p q : A → Bool) (xs : List A) {x : A}
      → find_row p xs ≡ some x
      → has_row q xs ≡ false
      → q x ≡ false
  unfolding find_row has_row
  find_row-refutes p q [] h k = cc
  find_row-refutes p q (y ∷ ys) {x} h k = ground (arith, find_row-refutes p q ys {x = x})

  -- Among distinct rows, a row that some condition finds is the one found by its key.
  pub find_row-Distinct :
      (same : A → A → Bool) (p : A → Bool) (xs : List A) {x : A}
      → ((a b : A) → same a b ≡ same b a)
      → Distinct same xs
      → same x x ≡ true
      → find_row p xs ≡ some x
      → find_row (same x) xs ≡ some x
  unfolding find_row has_row
  find_row-Distinct same p [] flip d self h = cc
  find_row-Distinct same p (y ∷ ys) {x} flip d self h = elim (Bool-cases (p y)) [
    | inl here ↦ ground (arith, self)
    | inr gone ↦
        let found = rw gone at h in
        ground (
          arith,
          find_row-Distinct same p ys {x = x} flip d.1 self found,
          find_row-refutes p (same y) ys found d.0,
          flip x y,
        )
  ]
