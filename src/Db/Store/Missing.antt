-- ===== src/Db/Store/Missing.antt =====
-- The deletions of sample-api/pkg/db/query.sql.go, when there is nothing to delete.
use kube_extauth_demo.Prelude.{◌≡◌, refl, Bool, true, false, List, [], ◌∷◌, arith, ap}
use kube_extauth_demo.Prelude.Tables.{rows_where, rows_except, has_row}
use kube_extauth_demo.Db.Models.{PgUuid, ◌=?◌}
use kube_extauth_demo.Db.Store.Base.{Database, written}
use kube_extauth_demo.Db.Store.Users.{delete_user}
use kube_extauth_demo.Db.Store.Posts.{delete_post}
use kube_extauth_demo.Db.Store.Comments.{delete_comment}
use kube_extauth_demo.Db.Store.Invariant.{has_user, has_post}
use kube_extauth_demo.Effect.{ok, Exec}

module _ {ℓ} {A : Type ℓ} where
  rows_where-none : (p : A → Bool) (xs : List A) → has_row p xs ≡ false → rows_where p xs ≡ []
  unfolding has_row rows_where
  rows_where-none p [] h = refl
  rows_where-none p (x ∷ xs) h = ground (arith, rows_where-none p xs)

  rows_except-none : (p : A → Bool) (xs : List A) → has_row p xs ≡ false → rows_except p xs ≡ xs
  unfolding has_row rows_where
  rows_except-none p [] h = refl
  rows_except-none p (x ∷ xs) h = ground (arith, rows_except-none p xs)

  rows_where-all : (xs : List A) → rows_where (λ x. true) xs ≡ xs
  unfolding rows_where
  rows_where-all [] = refl
  rows_where-all (x ∷ xs) = ap (λ r. x ∷ r) (rows_where-all xs)

  rows_where-never : (xs : List A) → rows_where (λ x. false) xs ≡ []
  unfolding rows_where
  rows_where-never [] = refl
  rows_where-never (x ∷ xs) = rows_where-never xs

-- The tables that rows are deleted from by their ids.
pub data Table : Type 0 where
  users posts comments : Table

abbrev pub has_id : Table → Database → PgUuid → Bool
has_id users db id = has_user db.users id
has_id posts db id = has_post db.posts id
has_id comments db id = has_row (λ c. c.id =? id) db.comments

abbrev pub delete_from : Table → PgUuid → Exec Database (Unit {0})
delete_from users id = delete_user id
delete_from posts id = delete_post id
delete_from comments id = delete_comment id

-- Deleting a user, a post or a comment whose id is not in its table succeeds and leaves all tables as
-- they were, whatever other tables have that id.
pub delete_missing :
    (table : Table) (id : PgUuid) (db : Database)
    → has_id table db id ≡ false
    → delete_from table id db ≡ (ok tt, written db db.tables)
unfolding delete_user delete_post delete_comment has_row
delete_missing users id db missing =
    let kept = rows_except-none (λ u. u.id =? id) db.users missing in
    let gone = rows_where-none (λ u. u.id =? id) db.users missing in
    rw (kept, gone)
      (rw (rows_where-all db.posts, rows_where-never db.posts)
        (rw (rows_where-all db.comments) refl))
delete_missing posts id db missing =
    let kept = rows_except-none (λ p. p.id =? id) db.posts missing in
    let gone = rows_where-none (λ p. p.id =? id) db.posts missing in
    rw (kept, gone) (rw (rows_where-all db.comments) refl)
delete_missing comments id db missing =
    rw (rows_except-none (λ c. c.id =? id) db.comments missing) refl
