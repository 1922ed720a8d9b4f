-- ===== src/Db/Queries.antt =====
-- The methods of `*Queries` (sample-api/pkg/db/query.sql.go) as an interface over an unknown
-- state, so that the handlers are stated for every database, failing ones included. `Db.Store`
-- implements it.
pub mod Keeps
pub mod Answers
pub mod Interleaved
use kube_extauth_demo.Prelude.{ℕ, String, List}
use kube_extauth_demo.Effect.{Exec}
use kube_extauth_demo.Db.Models.{PgUuid, Comment, Post, User, UserRole}
use kube_extauth_demo.Db.Params.{
  CountPostsParams, CreateCommentParams, CreatePostParams, CreateUserParams, GetPostRow, GetUserRow,
  GetUserByEmailRow, ListCommentsParams, ListPostsParams, ListPostsRow, ListUsersParams,
  ListUsersRow, ReplacePostParams, ReplaceUserParams, UpdateCommentParams, UpdateUserParams,
}

pub record Queries : Type 1 where
  pub State : Type 0
  pub count_comments : PgUuid → Exec State ℕ
  pub count_posts : CountPostsParams → Exec State ℕ
  pub count_users : Exec State ℕ
  pub create_comment : CreateCommentParams → Exec State Comment
  pub create_post : CreatePostParams → Exec State Post
  pub create_user : CreateUserParams → Exec State User
  pub delete_comment : PgUuid → Exec State (Unit {0})
  pub delete_post : PgUuid → Exec State (Unit {0})
  pub delete_user : PgUuid → Exec State (Unit {0})
  pub get_comment : PgUuid → Exec State Comment
  pub get_post : PgUuid → Exec State GetPostRow
  pub get_role : PgUuid → Exec State UserRole
  pub get_role_by_slug : String → Exec State UserRole
  pub get_user : PgUuid → Exec State GetUserRow
  pub get_user_by_email : String → Exec State GetUserByEmailRow
  pub list_comments : ListCommentsParams → Exec State (List Comment)
  pub list_posts : ListPostsParams → Exec State (List ListPostsRow)
  pub list_roles : Exec State (List UserRole)
  pub list_users : ListUsersParams → Exec State (List ListUsersRow)
  pub replace_post : ReplacePostParams → Exec State Post
  pub replace_user : ReplaceUserParams → Exec State User
  pub update_comment : UpdateCommentParams → Exec State Comment
  pub update_user : UpdateUserParams → Exec State User
