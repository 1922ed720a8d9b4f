-- ===== src/Db/Client/Laws.antt =====
-- Reading rows, sample-api/pkg/db/query.sql.go: the loop over rows.Next(), on every outcome.
use kube_extauth_demo.Prelude.{
  ◌≡◌, refl, sym, ap, ◌∙◌, List, [], ◌∷◌, ◌++◌, Option, none, some, map,
}
use kube_extauth_demo.Effect.{Err, Result, ok, err, lift}
use kube_extauth_demo.Effect.Outcomes.{Result-cases, bind-eq-ok, bind_ok, pair-eq}
use kube_extauth_demo.Prelude.{inl, inr, ◌↔◌}
use kube_extauth_demo.Db.Client.{Value, Statement, Rows, Dbtx, scan_rows, many}
use mathlib.Core.List.{append_assoc, append-nil}

module _ {A : Type 0} (scan : List Value → Result A) where
  -- Every row written as columns is read back, in order.
  pub scan_rows-map :
      (columns : A → List Value)
      → ((a : A) → scan (columns a) ≡ ok a)
      → (items rows : List A) → scan_rows scan items (map columns rows) none ≡ ok (items ++ rows)
  unfolding scan_rows
  scan_rows-map columns back items [] = ap ok (sym (append-nil items))
  scan_rows-map columns back items (a ∷ rows) = rw (back a) (
      scan_rows-map columns back (items ++ (a ∷ [])) rows
      ∙ ap ok (append_assoc items (a ∷ []) rows))

  scan_rows_ok :
      (rows : List (List Value)) (items ys : List A)
      → map scan rows ≡ map ok ys
      → scan_rows scan items rows none ≡ ok (items ++ ys)
  unfolding scan_rows
  scan_rows_ok [] items [] h = ap ok (sym (append-nil items))
  scan_rows_ok [] items (y ∷ ys) h = cc
  scan_rows_ok (row ∷ rows) items [] h = cc
  scan_rows_ok (row ∷ rows) items (y ∷ ys) h =
      let first : scan row ≡ ok y = cc in
      let rest : map scan rows ≡ map ok ys = cc in
      rw (first, scan_rows)
        (scan_rows_ok rows (items ++ (y ∷ [])) ys rest ∙ ap ok (append_assoc items (y ∷ []) ys))

  scan_rows-eq-ok :
      (rows : List (List Value)) (items : List A) (last_err : Option Err) (xs : List A)
      → scan_rows scan items rows last_err ≡ ok xs
      → (last_err ≡ none) × (ys : List A) × (xs ≡ items ++ ys) × (map scan rows ≡ map ok ys)
  unfolding scan_rows
  scan_rows-eq-ok [] items none xs h = (refl, [], sym (append-nil items ∙ cc), refl)
  scan_rows-eq-ok [] items (some e) xs h = cc
  scan_rows-eq-ok (row ∷ rows) items last_err xs h = elim (Result-cases (scan row)) [
    | inr (e, failed) ↦ let raised : err e ≡ ok xs = rw (failed, scan_rows) at h in cc
    | inl (a, first) ↦
        let read : scan_rows scan (items ++ (a ∷ [])) rows last_err ≡ ok xs =
          rw (first, scan_rows) at h in
        let (no_err, ys, whole, rest) = scan_rows-eq-ok rows (items ++ (a ∷ [])) last_err xs read in
        (no_err, a ∷ ys, whole ∙ append_assoc items (a ∷ []) ys, cc)
  ]

  -- The rows are all scanned, in order, and none was lost to an error, exactly when a list comes out.
  pub scan_rows_iff :
      (rows : List (List Value)) (last_err : Option Err) (xs : List A)
      → (scan_rows scan [] rows last_err ≡ ok xs)
        ↔ ((last_err ≡ none) × (map scan rows ≡ map ok xs))
  unfolding scan_rows
  scan_rows_iff rows last_err xs = (
    λ h.
        let (no_err, ys, same, read) = scan_rows-eq-ok rows [] last_err xs h in
        (no_err, read ∙ ap (map ok) (sym same)),
    λ (no_err, read). rw no_err (scan_rows_ok rows [] xs read),
  )

module _ (db : Dbtx) {A : Type 0} (scan : List Value → Result A) where
  -- A list that a `:many` method returns holds every row of the answer, scanned and in order. It is
  -- returned exactly when the query succeeds, each of its rows can be scanned and rows.Err() is nil
  -- after the last: no error leaves a shorter list.
  pub many_iff :
      (statement : Statement) (args : List Value) (s : db.State) (xs : List A)
      → ((many db scan statement args s).0 ≡ ok xs) ↔ (
          (r : Rows) × ((db.query statement args s).0 ≡ ok r)
          × (r.last_err ≡ none)
          × (map scan r.rows ≡ map ok xs))
  unfolding many lift
  many_iff statement args s xs = (
    λ h.
        let (r, found, read) =
          bind-eq-ok (db.query statement args) (λ r. lift (scan_rows scan [] r.rows r.last_err)) s
            (pair-eq (many db scan statement args s) h refl) in
        let (no_err, all) = (scan_rows_iff scan r.rows r.last_err xs).0 (ap (λ p. p.0) read) in
        (r, found, no_err, all),
    λ (r, found, no_err, all).
        ap (λ p. p.0)
          (bind_ok (db.query statement args) (λ r. lift (scan_rows scan [] r.rows r.last_err)) s
            found)
        ∙ (scan_rows_iff scan r.rows r.last_err xs).1 (no_err, all),
  )
