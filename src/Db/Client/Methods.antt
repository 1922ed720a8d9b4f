-- ===== src/Db/Client/Methods.antt =====
-- The methods of `*Queries` in sample-api/pkg/db/query.sql.go over a DBTX: the statement, its
-- arguments in their order and the destinations of a row. With db.New and WithTx of db.go.
use kube_extauth_demo.Prelude.{ℕ, String, List, [], ◌∷◌}
use kube_extauth_demo.Effect.{Exec}
use kube_extauth_demo.Db.Models.{PgUuid, Comment, Post, User, UserRole}
use kube_extauth_demo.Db.Params.{
  CountPostsParams, CreateCommentParams, CreatePostParams, CreateUserParams, GetPostRow, GetUserRow,
  GetUserByEmailRow, ListCommentsParams, ListPostsParams, ListPostsRow, ListUsersParams,
  ListUsersRow, ReplacePostParams, ReplaceUserParams, UpdateCommentParams, UpdateUserParams,
}
use kube_extauth_demo.Db.Queries.{Queries}
use kube_extauth_demo.Db.Client
use kube_extauth_demo.Db.Client.{
  Dbtx, one, many, uuid, text, string, strings, post_status, null_post_status, int32,
}
use kube_extauth_demo.Db.Client.Scan.{
  scan_user, scan_role, scan_post, scan_comment, scan_count, scan_user_with_role,
  scan_post_with_count, get_user_row, get_user_by_email_row, list_users_row, get_post_row,
  list_posts_row,
}

module _ (db : Dbtx) where
  abbrev pub count_users : Exec db.State ℕ
  count_users = one db scan_count Client.count_users []

  abbrev pub create_user : CreateUserParams → Exec db.State User
  create_user arg = one db scan_user Client.create_user (
      string arg.email
      ∷ string arg.password_hash
      ∷ string arg.password_salt
      ∷ string arg.first_name
      ∷ string arg.last_name
      ∷ text arg.avatar_url
      ∷ text arg.bio
      ∷ uuid arg.role_id
      ∷ [])

  abbrev pub delete_user : PgUuid → Exec db.State (Unit {0})
  delete_user id = db.exec Client.delete_user (uuid id ∷ [])

  abbrev pub get_user : PgUuid → Exec db.State GetUserRow
  get_user id = one db (scan_user_with_role get_user_row) Client.get_user (uuid id ∷ [])

  abbrev pub get_user_by_email : String → Exec db.State GetUserByEmailRow
  get_user_by_email email =
      one db (scan_user_with_role get_user_by_email_row) Client.get_user_by_email
        (string email ∷ [])

  abbrev pub list_users : ListUsersParams → Exec db.State (List ListUsersRow)
  list_users arg =
      many db (scan_user_with_role list_users_row) Client.list_users
        (int32 arg.limit ∷ int32 arg.offset ∷ [])

  abbrev pub replace_user : ReplaceUserParams → Exec db.State User
  replace_user arg = one db scan_user Client.replace_user (
      uuid arg.id
      ∷ string arg.email
      ∷ string arg.password_hash
      ∷ string arg.password_salt
      ∷ string arg.first_name
      ∷ string arg.last_name
      ∷ text arg.avatar_url
      ∷ text arg.bio
      ∷ uuid arg.role_id
      ∷ [])

  abbrev pub update_user : UpdateUserParams → Exec db.State User
  update_user arg = one db scan_user Client.update_user (
      text arg.email
      ∷ text arg.password_hash
      ∷ text arg.password_salt
      ∷ text arg.first_name
      ∷ text arg.last_name
      ∷ text arg.avatar_url
      ∷ text arg.bio
      ∷ uuid arg.role_id
      ∷ uuid arg.id
      ∷ [])

  abbrev pub get_role : PgUuid → Exec db.State UserRole
  get_role id = one db scan_role Client.get_role (uuid id ∷ [])

  abbrev pub get_role_by_slug : String → Exec db.State UserRole
  get_role_by_slug slug = one db scan_role Client.get_role_by_slug (string slug ∷ [])

  abbrev pub list_roles : Exec db.State (List UserRole)
  list_roles = many db scan_role Client.list_roles []

  abbrev pub count_posts : CountPostsParams → Exec db.State ℕ
  count_posts arg =
      one db scan_count Client.count_posts
        (null_post_status arg.status ∷ text arg.tag ∷ text arg.category ∷ [])

  abbrev pub create_post : CreatePostParams → Exec db.State Post
  create_post arg = one db scan_post Client.create_post (
      uuid arg.author_id
      ∷ string arg.title
      ∷ string arg.slug
      ∷ string arg.content
      ∷ text arg.excerpt
      ∷ post_status arg.status
      ∷ strings arg.categories
      ∷ strings arg.tags
      ∷ [])

  abbrev pub delete_post : PgUuid → Exec db.State (Unit {0})
  delete_post id = db.exec Client.delete_post (uuid id ∷ [])

  abbrev pub get_post : PgUuid → Exec db.State GetPostRow
  get_post id = one db (scan_post_with_count get_post_row) Client.get_post (uuid id ∷ [])

  abbrev pub list_posts : ListPostsParams → Exec db.State (List ListPostsRow)
  list_posts arg = many db (scan_post_with_count list_posts_row) Client.list_posts (
      null_post_status arg.status
      ∷ text arg.tag
      ∷ text arg.category
      ∷ int32 arg.offset
      ∷ int32 arg.limit
      ∷ [])

  abbrev pub replace_post : ReplacePostParams → Exec db.State Post
  replace_post arg = one db scan_post Client.replace_post (
      uuid arg.id
      ∷ string arg.title
      ∷ string arg.slug
      ∷ string arg.content
      ∷ text arg.excerpt
      ∷ post_status arg.status
      ∷ strings arg.categories
      ∷ strings arg.tags
      ∷ [])

  abbrev pub count_comments : PgUuid → Exec db.State ℕ
  count_comments post_id = one db scan_count Client.count_comments (uuid post_id ∷ [])

  abbrev pub create_comment : CreateCommentParams → Exec db.State Comment
  create_comment arg =
      one db scan_comment Client.create_comment
        (uuid arg.post_id ∷ uuid arg.author_id ∷ string arg.content ∷ [])

  abbrev pub delete_comment : PgUuid → Exec db.State (Unit {0})
  delete_comment id = db.exec Client.delete_comment (uuid id ∷ [])

  abbrev pub get_comment : PgUuid → Exec db.State Comment
  get_comment id = one db scan_comment Client.get_comment (uuid id ∷ [])

  abbrev pub list_comments : ListCommentsParams → Exec db.State (List Comment)
  list_comments arg =
      many db scan_comment Client.list_comments
        (uuid arg.post_id ∷ int32 arg.limit ∷ int32 arg.offset ∷ [])

  abbrev pub update_comment : UpdateCommentParams → Exec db.State Comment
  update_comment arg =
      one db scan_comment Client.update_comment (uuid arg.id ∷ string arg.content ∷ [])

-- New: the methods of a Queries that holds this DBTX.
abbrev pub new : Dbtx → Queries
new db = record {
  State = db.State;
  count_comments = count_comments db;
  count_posts = count_posts db;
  count_users = count_users db;
  create_comment = create_comment db;
  create_post = create_post db;
  create_user = create_user db;
  delete_comment = delete_comment db;
  delete_post = delete_post db;
  delete_user = delete_user db;
  get_comment = get_comment db;
  get_post = get_post db;
  get_role = get_role db;
  get_role_by_slug = get_role_by_slug db;
  get_user = get_user db;
  get_user_by_email = get_user_by_email db;
  list_comments = list_comments db;
  list_posts = list_posts db;
  list_roles = list_roles db;
  list_users = list_users db;
  replace_post = replace_post db;
  replace_user = replace_user db;
  update_comment = update_comment db;
  update_user = update_user db;
}

-- (q *Queries) WithTx: a transaction is a DBTX, and takes the place of the connection.
abbrev pub with_tx : Queries → Dbtx → Queries
with_tx q tx = new tx
