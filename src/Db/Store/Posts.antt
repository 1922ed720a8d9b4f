-- ===== src/Db/Store/Posts.antt =====
-- The statements on posts.
use kube_extauth_demo.Prelude.{
  ℕ, String, Bool, Option, none, some, List, ◌∷◌, map, ◌==◌, string_eq, not, ◌&&◌, ◌||◌,
  if◌then◌else◌,
}
use mathlib.Core.List.{reverse}
use kube_extauth_demo.Prelude.Lists.{length}
use kube_extauth_demo.Prelude.Tables.{find_row, rows_where, rows_except, has_row, order_by}
use kube_extauth_demo.Effect.{Err, no_rows, Result, ok, err, Exec}
use kube_extauth_demo.Db.Models.{
  PgUuid, PgText, NullPostStatus, Post, Comment, ◌=?◌, is_post_status,
}
use kube_extauth_demo.Db.Params.{
  CountPostsParams, CreatePostParams, GetPostRow, ListPostsParams, ListPostsRow, ReplacePostParams,
}
use kube_extauth_demo.Db.Store.Base.{
  Tables, Database, not_null_violation, foreign_key_violation, unique_violation,
  invalid_text_representation, pg_now, pg_new_id, written, store_row, scan_one, window,
}

-- The constraints of the table on a row beside the rows `rest`, in the order of their checks. The
-- status is read as a `post_status` before anything else is done.
unfoldable pub post_violation : Tables → List Post → Post → Option Err
post_violation t rest p =
    if not (is_post_status p.status)
    then some invalid_text_representation
    else if not (p.id.valid && p.author_id.valid)
    then some not_null_violation
    else if has_row (λ o. o.id =? p.id) rest || has_row (λ o. o.slug == p.slug) rest
    then some unique_violation
    else if has_row (λ u. u.id =? p.author_id) t.users
    then none
    else some foreign_key_violation

-- $n = ANY(column)
unfoldable pub any_of : String → List String → Bool
unfolding has_row
any_of s xs = has_row (λ x. s == x) xs

-- The WHERE clause of CountPosts and ListPosts.
unfoldable pub matches : NullPostStatus → PgText → PgText → Post → Bool
unfolding any_of
matches status tag category p =
    (not status.valid || p.status == status.post_status)
    && ((not tag.valid || any_of tag.string p.tags)
        && (not category.valid || any_of category.string p.categories))

-- The cast $1::post_status.
abbrev pub is_bad_status : NullPostStatus → Bool
is_bad_status s = s.valid && not (is_post_status s.post_status)

unfoldable pub count_posts : CountPostsParams → Exec Database ℕ
unfolding matches
count_posts arg db = (
  if is_bad_status arg.status
      then err invalid_text_representation
      else ok (length (rows_where (matches arg.status arg.tag arg.category) db.posts)),
  db,
)

-- The row that CreatePost stores, with the defaults of the columns that it does not name.
abbrev pub new_post : CreatePostParams → Database → Post
new_post arg db = record {
  id = pg_new_id db;
  author_id = arg.author_id;
  title = arg.title;
  slug = arg.slug;
  content = arg.content;
  excerpt = arg.excerpt;
  status = arg.status;
  categories = arg.categories;
  tags = arg.tags;
  created_at = pg_now db;
  updated_at = pg_now db;
}

unfoldable pub create_post : CreatePostParams → Exec Database Post
unfolding post_violation
create_post arg db =
    let row = new_post arg db in
    store_row db (post_violation db.tables db.posts row) row
      (record (db.tables) { posts = row ∷ db.posts })

-- By ON DELETE CASCADE the comments on a deleted post go with it.
abbrev pub comments_on : List Post → Comment → Bool
comments_on gone c = has_row (λ p. p.id =? c.post_id) gone

unfoldable pub delete_post : PgUuid → Exec Database (Unit {0})
delete_post id db =
    let gone = rows_where (λ p. p.id =? id) db.posts in
    (
      ok tt,
      written db (record (db.tables) {
        posts = rows_except (λ p. p.id =? id) db.posts;
        comments = rows_except (comments_on gone) db.comments;
      }),
    )

-- (SELECT count(*) FROM comments c WHERE c.post_id = posts.id)
abbrev pub comment_count : Tables → Post → ℕ
comment_count t p = length (rows_where (λ c. c.post_id =? p.id) t.comments)

abbrev pub get_post_row : Tables → Option Post → Option GetPostRow
get_post_row t none = none
get_post_row t (some p) = some (record { post = p; comment_count = comment_count t p })

unfoldable pub get_post : PgUuid → Exec Database GetPostRow
get_post id db = (scan_one (get_post_row db.tables (find_row (λ p. p.id =? id) db.posts)), db)

abbrev pub list_posts_row : Tables → Post → ListPostsRow
list_posts_row t p = record { post = p; comment_count = comment_count t p }

unfoldable pub list_posts : ListPostsParams → Exec Database (List ListPostsRow)
unfolding matches
list_posts arg db =
    let selected = rows_where (matches arg.status arg.tag arg.category) db.posts in
    let rows = reverse (order_by (λ p. p.created_at.time) selected) in
    (
      if is_bad_status arg.status
          then err invalid_text_representation
          else window arg.limit arg.offset (map (list_posts_row db.tables) rows),
      db,
    )

-- UPDATE … WHERE id = $1 RETURNING …: `old` is the row with the id and `row` what becomes of it.
abbrev pub update_row : Database → PgUuid → Option Post → (Post → Post) → Result Post × Database
update_row db id none change = (err no_rows, written db db.tables)
update_row db id (some old) change =
    let row = change old in
    let rest = rows_except (λ p. p.id =? id) db.posts in
    store_row db (post_violation db.tables rest row) row (record (db.tables) { posts = row ∷ rest })

unfoldable pub replace_post : ReplacePostParams → Exec Database Post
unfolding post_violation
replace_post arg db =
    if not (is_post_status arg.status)
    then (err invalid_text_representation, written db db.tables)
    else update_row db arg.id (find_row (λ p. p.id =? arg.id) db.posts) λ old. record old {
      title = arg.title;
      slug = arg.slug;
      content = arg.content;
      excerpt = arg.excerpt;
      status = arg.status;
      categories = arg.categories;
      tags = arg.tags;
      updated_at = pg_now db;
    }
