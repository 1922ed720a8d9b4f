-- ===== src/Db/Store/Wire/Reads.antt =====
-- The columns of a row against the calls of Scan in sample-api/pkg/db/query.sql.go that read them.
use kube_extauth_demo.Prelude.{◌≡◌, refl, ap, ℕ, List, []}
use kube_extauth_demo.Effect.{
  panic, no_rows, pg_error, other, wrapped, Result, ok, err, Exec, map_ok, raise, lift, check,
}
use kube_extauth_demo.Db.Models.{User, UserRole, Post, Comment}
use kube_extauth_demo.Db.Client.{Value, scan_rows}
use kube_extauth_demo.Db.Client.Laws.{scan_rows-map}
use kube_extauth_demo.Db.Client.Scan.{
  take_user, take_role, take_post, take_comment, take_count, all, both, scan_user, scan_role,
  scan_post, scan_comment, scan_user_with_role, scan_post_with_count,
}
use kube_extauth_demo.Db.Store.Base.{Database}
use kube_extauth_demo.Db.Store.Wire.{all_rows}
use kube_extauth_demo.Db.Store.Wire.Columns.{
  user_columns, role_columns, post_columns, comment_columns, user_with_role_columns,
  post_with_count_columns,
}

module _ {A C : Type 0} (scan : C → Result A) (columns : A → C) where
  after-columns :
      ((a : A) → scan (columns a) ≡ ok a)
      → (r : Result A × Database)
      → check (λ _. map_ok columns r) raise (λ row. lift (scan row)) r.1 ≡ r
  unfolding check
  after-columns back (ok a, db) = ap (λ x. (x, db)) (back a)
  after-columns back (err (panic m), db) = refl
  after-columns back (err no_rows, db) = refl
  after-columns back (err (pg_error c), db) = refl
  after-columns back (err (other m), db) = refl
  after-columns back (err (wrapped m e), db) = refl

  -- The value that a statement returned is what is scanned from its columns.
  pub check-columns :
      ((a : A) → scan (columns a) ≡ ok a)
      → (run : Exec Database A) (db : Database)
      → check (λ s. map_ok columns (run s)) raise (λ row. lift (scan row)) db ≡ run db
  unfolding check
  check-columns back run db = after-columns back (run db)

pub map_ok_id : {A : Type 0} → (r : Result A × Database) → map_ok (λ a. a) r ≡ r
map_ok_id (ok a, db) = refl
map_ok_id (err e, db) = refl

module _ {A : Type 0} (scan : List Value → Result A) (columns : A → List Value) where
  pub check-all_rows :
      ((a : A) → scan (columns a) ≡ ok a)
      → (run : Exec Database (List A)) (db : Database)
      → check
          (λ s. map_ok (all_rows columns) (run s))
          raise
          (λ rows. lift (scan_rows scan [] rows.rows rows.last_err))
          db
        ≡ run db
  check-all_rows back =
      check-columns (λ rows. scan_rows scan [] rows.rows rows.last_err) (all_rows columns)
        (scan_rows-map scan columns back [])

pub scan-user_columns : (u : User) → scan_user (user_columns u) ≡ ok u
unfolding all take_user
scan-user_columns u = refl

pub scan-role_columns : (r : UserRole) → scan_role (role_columns r) ≡ ok r
unfolding all take_role
scan-role_columns r = refl

pub scan-post_columns : (p : Post) → scan_post (post_columns p) ≡ ok p
unfolding all take_post
scan-post_columns p = refl

pub scan-comment_columns : (c : Comment) → scan_comment (comment_columns c) ≡ ok c
unfolding all take_comment
scan-comment_columns c = refl

module _ {A : Type 0} where
  pub scan-user_with_role_columns :
      (f : User × UserRole → A) (u : User) (r : UserRole)
      → scan_user_with_role f (user_with_role_columns u r) ≡ ok (f (u, r))
  unfolding all both take_user take_role
  scan-user_with_role_columns f u r = refl

  pub scan-post_with_count_columns :
      (f : Post × ℕ → A) (p : Post) (n : ℕ)
      → scan_post_with_count f (post_with_count_columns p n) ≡ ok (f (p, n))
  unfolding all both take_post take_count
  scan-post_with_count_columns f p n = refl
