-- ===== src/Db/Queries/Keeps.antt =====
-- Invariants of a database: what the queries that read keep, and what all queries keep.
use kube_extauth_demo.Prelude.{String}
use kube_extauth_demo.Effect.Keeps.{Keeps}
use kube_extauth_demo.Db.Models.{PgUuid}
use kube_extauth_demo.Db.Params.{
  CountPostsParams, CreateCommentParams, CreatePostParams, CreateUserParams, ListCommentsParams,
  ListPostsParams, ListUsersParams, ReplacePostParams, ReplaceUserParams, UpdateCommentParams,
  UpdateUserParams,
}
use kube_extauth_demo.Db.Queries.{Queries}

pub record ReadsKeep {κ} (q : Queries) (P : Queries.State q → Type κ) : Type κ where
  pub count_comments : (id : PgUuid) → Keeps P (q.count_comments id)
  pub count_posts : (arg : CountPostsParams) → Keeps P (q.count_posts arg)
  pub count_users : Keeps P q.count_users
  pub get_comment : (id : PgUuid) → Keeps P (q.get_comment id)
  pub get_post : (id : PgUuid) → Keeps P (q.get_post id)
  pub get_role : (id : PgUuid) → Keeps P (q.get_role id)
  pub get_role_by_slug : (slug : String) → Keeps P (q.get_role_by_slug slug)
  pub get_user : (id : PgUuid) → Keeps P (q.get_user id)
  pub get_user_by_email : (email : String) → Keeps P (q.get_user_by_email email)
  pub list_comments : (arg : ListCommentsParams) → Keeps P (q.list_comments arg)
  pub list_posts : (arg : ListPostsParams) → Keeps P (q.list_posts arg)
  pub list_roles : Keeps P q.list_roles
  pub list_users : (arg : ListUsersParams) → Keeps P (q.list_users arg)

pub record QueriesKeep {κ} (q : Queries) (P : Queries.State q → Type κ) : Type κ where
  pub reads : ReadsKeep q P
  pub open reads use *
  pub create_comment : (arg : CreateCommentParams) → Keeps P (q.create_comment arg)
  pub create_post : (arg : CreatePostParams) → Keeps P (q.create_post arg)
  pub create_user : (arg : CreateUserParams) → Keeps P (q.create_user arg)
  pub delete_comment : (id : PgUuid) → Keeps P (q.delete_comment id)
  pub delete_post : (id : PgUuid) → Keeps P (q.delete_post id)
  pub delete_user : (id : PgUuid) → Keeps P (q.delete_user id)
  pub replace_post : (arg : ReplacePostParams) → Keeps P (q.replace_post arg)
  pub replace_user : (arg : ReplaceUserParams) → Keeps P (q.replace_user arg)
  pub update_comment : (arg : UpdateCommentParams) → Keeps P (q.update_comment arg)
  pub update_user : (arg : UpdateUserParams) → Keeps P (q.update_user arg)
