-- ===== src/Db/Store/Deletion.antt =====
-- What is left after a user or a post is deleted.
use kube_extauth_demo.Prelude.{◌≡◌, refl, Bool, true, false, List, [], ◌∷◌, nat_eq, arith}
use kube_extauth_demo.Prelude.Tables.{find_row, rows_where, rows_except, has_row, All}
use kube_extauth_demo.Prelude.Tables.Laws.{has_row-rows_except_self, find_row-eq-none_iff, All-map}
use kube_extauth_demo.Effect.{no_rows, err}
use kube_extauth_demo.Db.Models.{PgUuid, ◌=?◌}
use kube_extauth_demo.Db.Store.Base.{Database}
use kube_extauth_demo.Db.Store.Users.{delete_user, get_user}
use kube_extauth_demo.Db.Store.Posts.{delete_post, get_post}
use kube_extauth_demo.Db.Store.Invariant.{IsConsistent, PostRefs, CommentRefs, has_user, has_post}
use kube_extauth_demo.Db.Store.Invariant.Users.{delete_user-IsConsistent}
use kube_extauth_demo.Db.Store.Invariant.Posts.{delete_post-IsConsistent}

-- Two columns that are equal select the same row.
pub has_row-same {ℓ} :
    {A : Type ℓ} (key : A → PgUuid) (id other : PgUuid) (xs : List A)
    → other =? id ≡ true
    → has_row (λ x. key x =? id) xs ≡ false
    → has_row (λ x. key x =? other) xs ≡ false
unfolding has_row ◌=?◌
has_row-same key id other [] h k = refl
has_row-same key id other (x ∷ xs) h k = ground (arith, has_row-same key id other xs)

-- Rows whose references are there refer to no row that is not.
module _ {ℓ κ} {A : Type ℓ} {B : Type κ} (ref : A → PgUuid) (key : B → PgUuid) (id : PgUuid)
    (targets : List B) where
  pub unreferenced :
      (xs : List A)
      → has_row (λ t. key t =? id) targets ≡ false
      → All (λ x. has_row (λ t. key t =? ref x) targets ≡ true) xs
      → has_row (λ x. ref x =? id) xs ≡ false
  unfolding has_row
  unreferenced [] gone refs = refl
  unreferenced (x ∷ xs) gone refs =
      ground (arith, has_row-same key id (ref x) targets, unreferenced xs gone refs.1)

-- Removing the rows that one condition selects leaves those that an exclusive one selects.
find_row-rows_except {ℓ} :
    {A : Type ℓ} (p q : A → Bool) (xs : List A)
    → ((x : A) → p x ≡ true → q x ≡ false)
    → find_row p (rows_except q xs) ≡ find_row p xs
unfolding find_row rows_where
find_row-rows_except p q [] apart = refl
find_row-rows_except p q (x ∷ xs) apart = ground (arith, apart x, find_row-rows_except p q xs apart)

-- DeleteUser removes the user with everything of theirs, when the tables meet the constraints of
-- the schema: afterwards no user has the id, no post and no comment has it as author, and GetUser
-- finds no row.
delete_user-cascade :
    (id : PgUuid) (db : Database)
    → IsConsistent db.tables
    → (has_user (delete_user id db).1.users id ≡ false)
      × (has_row (λ p. p.author_id =? id) (delete_user id db).1.posts ≡ false)
      × (has_row (λ c. c.author_id =? id) (delete_user id db).1.comments ≡ false)
      × ((get_user id (delete_user id db).1).0 ≡ err no_rows)
unfolding delete_user get_user
delete_user-cascade id db c =
    let after = delete_user-IsConsistent id db c in
    let gone = has_row-rows_except_self (λ u. u.id =? id) db.users in
    let t = (delete_user id db).1.tables in
    (
      gone,
      unreferenced (λ p. p.author_id) (λ u. u.id) id t.users t.posts gone
          (All-map (PostRefs t.users) _ t.posts (λ p h. h.1) after.posts),
      unreferenced (λ d. d.author_id) (λ u. u.id) id t.users t.comments gone
          (All-map (CommentRefs t.users t.posts) _ t.comments (λ d h. h.2) after.comments),
      rw (find_row-eq-none_iff _ _ gone) refl,
    )

-- DeleteUser leaves every other user as it was.
delete_user-others :
    (id other : PgUuid) (db : Database)
    → id =? other ≡ false
    → find_row (λ u. u.id =? other) (delete_user id db).1.users
      ≡ find_row (λ u. u.id =? other) db.users
unfolding delete_user ◌=?◌
delete_user-others id other db apart =
    find_row-rows_except (λ u. u.id =? other) (λ u. u.id =? id) db.users (λ u h. ground arith)

-- DeletePost removes the post with its comments, when the tables meet the constraints of the
-- schema: afterwards no post has the id, no comment is on it, and GetPost finds no row.
delete_post-cascade :
    (id : PgUuid) (db : Database)
    → IsConsistent db.tables
    → (has_post (delete_post id db).1.posts id ≡ false)
      × (has_row (λ c. c.post_id =? id) (delete_post id db).1.comments ≡ false)
      × ((get_post id (delete_post id db).1).0 ≡ err no_rows)
unfolding delete_post get_post
delete_post-cascade id db c =
    let after = delete_post-IsConsistent id db c in
    let gone = has_row-rows_except_self (λ p. p.id =? id) db.posts in
    let t = (delete_post id db).1.tables in
    (
      gone,
      unreferenced (λ d. d.post_id) (λ p. p.id) id t.posts t.comments gone
          (All-map (CommentRefs t.users t.posts) _ t.comments (λ d h. h.1) after.comments),
      rw (find_row-eq-none_iff _ _ gone) refl,
    )
