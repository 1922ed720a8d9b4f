-- ===== src/Db/Store/Comments.antt =====
-- The statements on comments.
use kube_extauth_demo.Prelude.{ℕ, Option, none, some, List, ◌∷◌, not, ◌&&◌, if◌then◌else◌}
use kube_extauth_demo.Prelude.Lists.{length}
use kube_extauth_demo.Prelude.Tables.{find_row, rows_where, rows_except, has_row, order_by}
use kube_extauth_demo.Effect.{Err, no_rows, Result, ok, err, Exec}
use kube_extauth_demo.Db.Models.{PgUuid, Comment, ◌=?◌}
use kube_extauth_demo.Db.Params.{CreateCommentParams, ListCommentsParams, UpdateCommentParams}
use kube_extauth_demo.Db.Store.Base.{
  Tables, Database, not_null_violation, foreign_key_violation, unique_violation, pg_now, pg_new_id,
  written, store_row, scan_one, window,
}

-- The constraints of the table on a row beside the rows `rest`, in the order of their checks.
unfoldable pub comment_violation : Tables → List Comment → Comment → Option Err
comment_violation t rest c =
    if not (c.id.valid && (c.post_id.valid && c.author_id.valid))
    then some not_null_violation
    else if has_row (λ o. o.id =? c.id) rest
    then some unique_violation
    else if has_row (λ p. p.id =? c.post_id) t.posts && has_row (λ u. u.id =? c.author_id) t.users
    then none
    else some foreign_key_violation

unfoldable pub count_comments : PgUuid → Exec Database ℕ
count_comments post_id db = (ok (length (rows_where (λ c. c.post_id =? post_id) db.comments)), db)

-- The row that CreateComment stores, with the defaults of the columns that it does not name.
abbrev pub new_comment : CreateCommentParams → Database → Comment
new_comment arg db = record {
  id = pg_new_id db;
  post_id = arg.post_id;
  author_id = arg.author_id;
  content = arg.content;
  created_at = pg_now db;
  updated_at = pg_now db;
}

unfoldable pub create_comment : CreateCommentParams → Exec Database Comment
unfolding comment_violation
create_comment arg db =
    let row = new_comment arg db in
    store_row db (comment_violation db.tables db.comments row) row
      (record (db.tables) { comments = row ∷ db.comments })

unfoldable pub delete_comment : PgUuid → Exec Database (Unit {0})
delete_comment id db = (
  ok tt,
  written db (record (db.tables) { comments = rows_except (λ c. c.id =? id) db.comments }),
)

unfoldable pub get_comment : PgUuid → Exec Database Comment
get_comment id db = (scan_one (find_row (λ c. c.id =? id) db.comments), db)

unfoldable pub list_comments : ListCommentsParams → Exec Database (List Comment)
list_comments arg db =
    let rows =
      order_by (λ c. c.created_at.time) (rows_where (λ c. c.post_id =? arg.post_id) db.comments) in
    (window arg.limit arg.offset rows, db)

-- UPDATE … WHERE id = $1 RETURNING …: `old` is the row with the id and `row` what becomes of it.
abbrev pub update_row :
    Database → PgUuid → Option Comment → (Comment → Comment) → Result Comment × Database
update_row db id none change = (err no_rows, written db db.tables)
update_row db id (some old) change =
    let row = change old in
    let rest = rows_except (λ c. c.id =? id) db.comments in
    store_row db (comment_violation db.tables rest row) row
      (record (db.tables) { comments = row ∷ rest })

unfoldable pub update_comment : UpdateCommentParams → Exec Database Comment
unfolding comment_violation
update_comment arg db =
    update_row db arg.id (find_row (λ c. c.id =? arg.id) db.comments)
      λ old. record old { content = arg.content; updated_at = pg_now db }
