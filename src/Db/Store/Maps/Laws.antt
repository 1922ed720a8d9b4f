-- ===== src/Db/Store/Maps/Laws.antt =====
-- How adding, replacing and removing rows acts on the map of a table.
use kube_extauth_demo.Prelude.{
  Bool, true, false, Option, none, some, List, [], ◌∷◌, ◌==◌, nat_eq, ◌&&◌, ◌≡◌, refl, ◌∙◌, ap,
  subst, Bool-cases, inl, inr, arith,
}
use kube_extauth_demo.Prelude.Tables.{find_row, has_row, rows_where, rows_except, Distinct}
use kube_extauth_demo.Prelude.Tables.Laws.{find_row-eq-none_iff, has_row-rows_where, find_row_sound}
use kube_extauth_demo.Db.Store.Deletion.{has_row-same}
use kube_extauth_demo.Db.Models.{Uuid, PgUuid, ◌=?◌}
use kube_extauth_demo.Db.Store.Maps.{put, remove, keep, view}

-- Ids that are equal in SQL are the same.
pub equal_ids : (a b : PgUuid) → a =? b ≡ true → (a ≡ b) × (b.valid ≡ true)
unfolding ◌=?◌
equal_ids a b h = ground arith

abbrev pub is_some {ℓ} : {A : Type ℓ} → Option A → Bool
is_some none = false
is_some (some x) = true

module _ {ℓ} {A : Type ℓ} (key : A → PgUuid) where
  pub view-cons :
      (x : A) (xs : List A) (k : Uuid)
      → (key x).valid ≡ true
      → view key (x ∷ xs) k ≡ put (key x).bytes x (view key xs) k
  unfolding view put find_row ◌=?◌
  view-cons x xs k valid = ground arith

  pub view-remove :
      (id : PgUuid) (xs : List A) (k : Uuid)
      → id.valid ≡ true
      → view key (rows_except (λ x. key x =? id) xs) k ≡ remove id.bytes (view key xs) k
  unfolding view remove find_row ◌=?◌ rows_where
  view-remove id [] k valid = ground arith
  view-remove id (x ∷ xs) k valid = ground (arith, view-remove id xs k valid)

  -- A row that replaces the one with its id.
  pub view-replace :
      (x : A) (xs : List A) (k : Uuid)
      → (key x).valid ≡ true
      → view key (x ∷ rows_except (λ y. key y =? key x) xs) k ≡ put (key x).bytes x (view key xs) k
  unfolding put remove
  view-replace x xs k valid = ground (
    arith,
    view-cons x (rows_except (λ y. key y =? key x) xs) k valid,
    view-remove (key x) xs k valid,
  )

  -- No row stays under the id of a row that differs from all.
  pub view-absent :
      (g : A → Bool) (id : PgUuid) (xs : List A) (k : Uuid)
      → id =? record { bytes = k; valid = true } ≡ true
      → has_row (λ y. key y =? id) xs ≡ false
      → view key (rows_where g xs) k ≡ none
  unfolding view ◌=?◌
  view-absent g id xs k here fresh =
      let flipped : record { bytes = k; valid = true } =? id ≡ true = ground arith in
      find_row-eq-none_iff _ (rows_where g xs) (
        has_row-rows_where _ g xs
          (has_row-same key id (record { bytes = k; valid = true }) xs flipped fresh))

  -- Of distinct rows, those that stay are the ones that are kept.
  pub view-keep :
      (g : A → Bool) (xs : List A) (k : Uuid)
      → Distinct (λ a b. key b =? key a) xs
      → view key (rows_where g xs) k ≡ keep g (view key xs) k
  unfolding view keep find_row rows_where
  view-keep g [] k d = refl
  view-keep g (x ∷ xs) k d = elim (Bool-cases (key x =? record { bytes = k; valid = true })) [
    | inl here ↦ ground (arith, view-absent g (key x) xs k here d.0)
    | inr other ↦ ground (arith, view-keep g xs k d.1)
  ]

  pub view-update :
      (xs : List A) (id : PgUuid) (row : A) (k : Uuid) {old : A}
      → find_row (λ x. key x =? id) xs ≡ some old
      → key row ≡ key old
      → view key (row ∷ rows_except (λ x. key x =? id) xs) k
        ≡ put (key row).bytes row (view key xs) k
  view-update xs id row k found same =
      let (at, valid) = equal_ids _ id (find_row_sound _ xs found) in
      subst
        (λ i.
          view key (row ∷ rows_except (λ x. key x =? i) xs) k
          ≡ put (key row).bytes row (view key xs) k)
        (same ∙ at) (view-replace row xs k (ap (λ i. i.valid) (same ∙ at) ∙ valid))

  pub view-has_row :
      (a : PgUuid) (xs : List A)
      → a.valid ≡ true
      → has_row (λ x. key x =? a) xs ≡ is_some (view key xs a.bytes)
  unfolding view find_row has_row ◌=?◌
  view-has_row a [] valid = refl
  view-has_row a (x ∷ xs) valid = ground (arith, view-has_row a xs valid)

  pub valid-has_row :
      (a : PgUuid) (xs : List A) → has_row (λ x. key x =? a) xs ≡ true → a.valid ≡ true
  unfolding has_row ◌=?◌
  valid-has_row a [] h = cc
  valid-has_row a (x ∷ xs) h = ground (arith, valid-has_row a xs)

  has_row-selected :
      (id : Uuid) (a : PgUuid) (xs : List A)
      → has_row
          (λ x. key x =? a)
          (rows_where (λ x. key x =? record { bytes = id; valid = true }) xs)
        ≡ (has_row (λ x. key x =? a) xs && a.bytes == id)
  unfolding has_row rows_where ◌=?◌
  has_row-selected id a [] = refl
  has_row-selected id a (x ∷ xs) = ground (arith, has_row-selected id a xs)

  -- A row that is there goes exactly if its id is the one of the rows that go.
  pub has_row-gone :
      (id : Uuid) (a : PgUuid) (xs : List A)
      → has_row (λ x. key x =? a) xs ≡ true
      → has_row
          (λ x. key x =? a)
          (rows_where (λ x. key x =? record { bytes = id; valid = true }) xs)
        ≡ (a.bytes == id)
  has_row-gone id a xs there = has_row-selected id a xs ∙ ap (λ b. b && a.bytes == id) there
