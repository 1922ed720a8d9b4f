-- ===== src/Db/Store/Maps/Deletes.antt =====
-- The statements that delete, as operations on the maps.
use kube_extauth_demo.Prelude.{
  true, Option, none, some, ◌==◌, nat_eq, not, ◌||◌, ◌≡◌, refl, ◌∙◌, ap, arith,
}
use kube_extauth_demo.Prelude.Tables.{has_row, rows_where, rows_except}
use kube_extauth_demo.Prelude.Tables.Laws.{All-map, rows_where-same}
use kube_extauth_demo.Db.Models.{Uuid, Post, Comment, ◌=?◌}
use kube_extauth_demo.Db.Store.Base.{Database}
use kube_extauth_demo.Db.Store.Invariant.{IsConsistent, CommentRefs}
use kube_extauth_demo.Db.Store.Users.{delete_user, posts_of}
use kube_extauth_demo.Db.Store.Posts.{delete_post, comments_on}
use kube_extauth_demo.Db.Store.Comments.{delete_comment}
use kube_extauth_demo.Db.Store.Maps.{
  remove, keep, view, only, maps, drop_user, drop_post, written_by,
}
use kube_extauth_demo.Db.Store.Maps.Laws.{
  view-remove, view-keep, has_row-gone, view-has_row, valid-has_row, is_some,
}
use kube_extauth_demo.Db.Store.Maps.Stores.{Maps-eq}

is_some-only :
    (user : Uuid) (o : Option Post)
    → is_some (only (λ p. p.author_id.bytes == user) o) ≡ written_by user o
is_some-only user none = refl
is_some-only user (some p) = ground arith

module _ (id : Uuid) (db : Database) (c : IsConsistent db.tables) where
  comments_on_deleted :
      rows_except
        (comments_on (rows_where (λ p. p.id =? record { bytes = id; valid = true }) db.posts))
        db.comments
      ≡ rows_where (λ x. not (x.post_id.bytes == id)) db.comments
  comments_on_deleted = rows_where-same _ _ db.comments (
      All-map _ _ db.comments
        (λ x refs. ap not (has_row-gone (λ p. p.id) id x.post_id db.posts refs.1)) c.comments)

  pub delete_post-maps :
      maps (delete_post (record { bytes = id; valid = true }) db).1.tables
      ≡ drop_post id (maps db.tables)
  unfolding delete_post maps drop_post
  delete_post-maps =
      Maps-eq _ _ (λ k. refl) (λ k. view-remove (λ p. p.id) _ db.posts k refl)
        (λ k.
          ap (λ xs. view (λ x. x.id) xs k) comments_on_deleted
          ∙ view-keep (λ x. x.id) _ db.comments k c.comment_ids)

  posts_of_deleted :
      rows_where
        (posts_of (rows_where (λ u. u.id =? record { bytes = id; valid = true }) db.users))
        db.posts
      ≡ rows_where (λ p. p.author_id.bytes == id) db.posts
  posts_of_deleted = rows_where-same _ _ db.posts (
      All-map _ _ db.posts (λ p refs. has_row-gone (λ u. u.id) id p.author_id db.users refs.1)
        c.posts)

  on_posts_of_deleted :
      (x : Comment)
      → CommentRefs db.users db.posts x
      → has_row
          (λ p. p.id =? x.post_id)
          (rows_where
            (posts_of (rows_where (λ u. u.id =? record { bytes = id; valid = true }) db.users))
            db.posts)
        ≡ written_by id (view (λ p. p.id) db.posts x.post_id.bytes)
  unfolding keep
  on_posts_of_deleted x refs =
      ap (has_row (λ p. p.id =? x.post_id)) posts_of_deleted
      ∙ view-has_row (λ p. p.id) x.post_id (rows_where (λ p. p.author_id.bytes == id) db.posts)
          (valid-has_row (λ p. p.id) x.post_id db.posts refs.1)
      ∙ ap is_some (view-keep (λ p. p.id) _ db.posts x.post_id.bytes c.post_ids)
      ∙ is_some-only id _

  pub delete_user-maps :
      maps (delete_user (record { bytes = id; valid = true }) db).1.tables
      ≡ drop_user id (maps db.tables)
  unfolding delete_user maps drop_user
  delete_user-maps =
      let gone = rows_where (λ u. u.id =? record { bytes = id; valid = true }) db.users in
      Maps-eq _ _ (λ k. view-remove (λ u. u.id) _ db.users k refl)
        (λ k.
          ap (λ xs. view (λ p. p.id) xs k)
            (rows_where-same _ (λ p. not (p.author_id.bytes == id)) db.posts
              (All-map _ _ db.posts
                (λ p refs. ap not (has_row-gone (λ u. u.id) id p.author_id db.users refs.1))
                c.posts))
          ∙ view-keep (λ p. p.id) _ db.posts k c.post_ids)
        (λ k.
          ap (λ xs. view (λ x. x.id) xs k)
            (rows_where-same _
              (λ x. not (
                x.author_id.bytes == id
                || written_by id (view (λ p. p.id) db.posts x.post_id.bytes)))
              db.comments
              (All-map _ _ db.comments
                (λ x refs.
                  rw (has_row-gone (λ u. u.id) id x.author_id db.users refs.2)
                    (rw (on_posts_of_deleted x refs) refl))
                c.comments))
          ∙ view-keep (λ x. x.id) _ db.comments k c.comment_ids)

  pub delete_comment-maps :
      maps (delete_comment (record { bytes = id; valid = true }) db).1.tables
      ≡ record (maps db.tables) { comments = remove id (maps db.tables).comments }
  unfolding delete_comment maps
  delete_comment-maps =
      Maps-eq _ _ (λ k. refl) (λ k. refl) (λ k. view-remove (λ x. x.id) _ db.comments k refl)
