-- ===== src/Db/Store/Invariant/Comments.antt =====
-- The statements on comments keep the constraints.
use kube_extauth_demo.Prelude.{◌≡◌, none, List, ◌∷◌, arith, Option-cases, inl, inr}
use kube_extauth_demo.Prelude.Tables.{find_row, rows_except, All, Distinct}
use kube_extauth_demo.Prelude.Tables.Laws.{Distinct-rows_where, All-rows_where}
use kube_extauth_demo.Db.Models.{PgUuid, Comment, ◌=?◌}
use kube_extauth_demo.Db.Params.{CreateCommentParams, UpdateCommentParams}
use kube_extauth_demo.Db.Store.Base.{Tables, Database, pg_now}
use kube_extauth_demo.Db.Store.Comments.{
  comment_violation, new_comment, create_comment, delete_comment, update_comment,
}
use kube_extauth_demo.Db.Store.Invariant.{IsConsistent, same_comment, store_row-tables, CommentRefs}

module _ (t : Tables) (rest : List Comment) (row : Comment) where
  store_comment-IsConsistent :
      IsConsistent t
      → Distinct same_comment rest
      → All (CommentRefs t.users t.posts) rest
      → comment_violation t rest row ≡ none
      → IsConsistent (record t { comments = row ∷ rest })
  unfolding comment_violation
  store_comment-IsConsistent c ids refs fine = record {
    user_ids = c.user_ids;
    emails = c.emails;
    post_ids = c.post_ids;
    slugs = c.slugs;
    comment_ids = (ground arith, ids);
    users = c.users;
    posts = c.posts;
    comments = (ground arith, refs);
  }

-- CreateComment keeps the constraints of the schema.
pub create_comment-IsConsistent :
    (arg : CreateCommentParams) (db : Database)
    → IsConsistent db.tables
    → IsConsistent (create_comment arg db).1.tables
unfolding create_comment
create_comment-IsConsistent arg db c =
    let row = new_comment arg db in
    store_row-tables IsConsistent db (comment_violation db.tables db.comments row) row _ c
      (store_comment-IsConsistent db.tables db.comments row c c.comment_ids c.comments)

-- UpdateComment keeps the constraints of the schema.
pub update_comment-IsConsistent :
    (arg : UpdateCommentParams) (db : Database)
    → IsConsistent db.tables
    → IsConsistent (update_comment arg db).1.tables
unfolding update_comment
update_comment-IsConsistent arg db c =
    elim (Option-cases (find_row (λ d. d.id =? arg.id) db.comments)) [
      | inl missing ↦ rw missing c
      | inr (old, found) ↦
          let rest = rows_except (λ d. d.id =? arg.id) db.comments in
          let row : Comment = record old { content = arg.content; updated_at = pg_now db } in
          rw found (
            store_row-tables IsConsistent db (comment_violation db.tables rest row) row _ c (
              store_comment-IsConsistent db.tables rest row c
                (Distinct-rows_where same_comment _ db.comments c.comment_ids)
                (All-rows_where (CommentRefs db.users db.posts) _ db.comments c.comments)))
    ]

-- DeleteComment keeps the constraints of the schema.
pub delete_comment-IsConsistent :
    (id : PgUuid) (db : Database)
    → IsConsistent db.tables
    → IsConsistent (delete_comment id db).1.tables
unfolding delete_comment
delete_comment-IsConsistent id db c = record {
  user_ids = c.user_ids;
  emails = c.emails;
  post_ids = c.post_ids;
  slugs = c.slugs;
  comment_ids = Distinct-rows_where same_comment _ db.comments c.comment_ids;
  users = c.users;
  posts = c.posts;
  comments = All-rows_where (CommentRefs db.users db.posts) _ db.comments c.comments;
}
