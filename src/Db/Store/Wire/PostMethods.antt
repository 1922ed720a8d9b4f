-- ===== src/Db/Store/Wire/PostMethods.antt =====
-- The methods on posts and comments of sample-api/pkg/db/query.sql.go over the connection against the
-- statements over the tables.
use kube_extauth_demo.Prelude.{◌≡◌, refl, List}
use kube_extauth_demo.Db.Models.{PgUuid, UserRole}
use kube_extauth_demo.Db.Params.{
  CountPostsParams, CreateCommentParams, CreatePostParams, ListCommentsParams, ListPostsParams,
  ReplacePostParams, UpdateCommentParams,
}
use kube_extauth_demo.Db.Client.{one, many}
use kube_extauth_demo.Db.Client.Scan.{
  take_count, all, scan_post, scan_comment, scan_count, scan_post_with_count, get_post_row,
  list_posts_row,
}
use kube_extauth_demo.Db.Client.Methods
use kube_extauth_demo.Db.Client.Methods.{new}
use kube_extauth_demo.Db.Store.Base.{Database}
use kube_extauth_demo.Db.Store.Posts
use kube_extauth_demo.Db.Store.Comments
use kube_extauth_demo.Db.Store.Wire.{tables_dbtx, query, query_row, exec}
use kube_extauth_demo.Db.Store.Wire.Arguments
use kube_extauth_demo.Db.Store.Wire.Columns.{
  post_columns, comment_columns, count_columns, post_with_count_columns,
}
use kube_extauth_demo.Db.Store.Wire.Reads.{
  check-columns, check-all_rows, map_ok_id, scan-post_columns, scan-comment_columns,
  scan-post_with_count_columns,
}

module _ (collate : List UserRole → List UserRole) where
  pub count_posts-tables :
      (arg : CountPostsParams) (db : Database)
      → Methods.count_posts (tables_dbtx collate) arg db ≡ Posts.count_posts arg db
  unfolding one query_row Arguments.count_posts_args all take_count
  count_posts-tables arg db =
      check-columns scan_count count_columns (λ _. refl) (Posts.count_posts arg) db

  pub create_post-tables :
      (arg : CreatePostParams) (db : Database)
      → Methods.create_post (tables_dbtx collate) arg db ≡ Posts.create_post arg db
  unfolding one query_row Arguments.create_post_args
  create_post-tables arg db =
      check-columns scan_post post_columns scan-post_columns (Posts.create_post arg) db

  pub delete_post-tables :
      (id : PgUuid) (db : Database)
      → Methods.delete_post (tables_dbtx collate) id db ≡ Posts.delete_post id db
  unfolding exec Arguments.id_arg
  delete_post-tables id db = map_ok_id (Posts.delete_post id db)

  pub get_post-tables :
      (id : PgUuid) (db : Database)
      → Methods.get_post (tables_dbtx collate) id db ≡ Posts.get_post id db
  unfolding one query_row Arguments.id_arg
  get_post-tables id db =
      check-columns (scan_post_with_count get_post_row)
        (λ row. post_with_count_columns row.post row.comment_count)
        (λ row. scan-post_with_count_columns get_post_row row.post row.comment_count)
        (Posts.get_post id) db

  pub list_posts-tables :
      (arg : ListPostsParams) (db : Database)
      → Methods.list_posts (tables_dbtx collate) arg db ≡ Posts.list_posts arg db
  unfolding many query Arguments.list_posts_args
  list_posts-tables arg db =
      check-all_rows (scan_post_with_count list_posts_row)
        (λ row. post_with_count_columns row.post row.comment_count)
        (λ row. scan-post_with_count_columns list_posts_row row.post row.comment_count)
        (Posts.list_posts arg) db

  pub replace_post-tables :
      (arg : ReplacePostParams) (db : Database)
      → Methods.replace_post (tables_dbtx collate) arg db ≡ Posts.replace_post arg db
  unfolding one query_row Arguments.replace_post_args
  replace_post-tables arg db =
      check-columns scan_post post_columns scan-post_columns (Posts.replace_post arg) db

  pub count_comments-tables :
      (id : PgUuid) (db : Database)
      → Methods.count_comments (tables_dbtx collate) id db ≡ Comments.count_comments id db
  unfolding one query_row Arguments.id_arg all take_count
  count_comments-tables id db =
      check-columns scan_count count_columns (λ _. refl) (Comments.count_comments id) db

  pub create_comment-tables :
      (arg : CreateCommentParams) (db : Database)
      → Methods.create_comment (tables_dbtx collate) arg db ≡ Comments.create_comment arg db
  unfolding one query_row Arguments.create_comment_args
  create_comment-tables arg db =
      check-columns scan_comment comment_columns scan-comment_columns (Comments.create_comment arg)
        db

  pub delete_comment-tables :
      (id : PgUuid) (db : Database)
      → Methods.delete_comment (tables_dbtx collate) id db ≡ Comments.delete_comment id db
  unfolding exec Arguments.id_arg
  delete_comment-tables id db = map_ok_id (Comments.delete_comment id db)

  pub get_comment-tables :
      (id : PgUuid) (db : Database)
      → Methods.get_comment (tables_dbtx collate) id db ≡ Comments.get_comment id db
  unfolding one query_row Arguments.id_arg
  get_comment-tables id db =
      check-columns scan_comment comment_columns scan-comment_columns (Comments.get_comment id) db

  pub list_comments-tables :
      (arg : ListCommentsParams) (db : Database)
      → Methods.list_comments (tables_dbtx collate) arg db ≡ Comments.list_comments arg db
  unfolding many query Arguments.list_comments_args
  list_comments-tables arg db =
      check-all_rows scan_comment comment_columns scan-comment_columns (Comments.list_comments arg)
        db

  pub update_comment-tables :
      (arg : UpdateCommentParams) (db : Database)
      → Methods.update_comment (tables_dbtx collate) arg db ≡ Comments.update_comment arg db
  unfolding one query_row Arguments.update_comment_args
  update_comment-tables arg db =
      check-columns scan_comment comment_columns scan-comment_columns (Comments.update_comment arg)
        db
