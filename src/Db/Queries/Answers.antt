-- ===== src/Db/Queries/Answers.antt =====
-- What the calls of a database return. A database that never answers is one whose calls all fail.
use kube_extauth_demo.Prelude.{String}
use kube_extauth_demo.Effect.Answers.{Answers}
use kube_extauth_demo.Db.Models.{PgUuid}
use kube_extauth_demo.Db.Params.{
  CountPostsParams, CreateCommentParams, CreatePostParams, CreateUserParams, ListCommentsParams,
  ListPostsParams, ListUsersParams, ReplacePostParams, ReplaceUserParams, UpdateCommentParams,
  UpdateUserParams,
}
use kube_extauth_demo.Db.Queries.{Queries}

-- `C` holds whenever some call returns a value.
pub record QueriesAnswer {κ} (q : Queries) (C : Type κ) : Type κ where
  pub count_comments : (id : PgUuid) → Answers (λ _. C) (q.count_comments id)
  pub count_posts : (arg : CountPostsParams) → Answers (λ _. C) (q.count_posts arg)
  pub count_users : Answers (λ _. C) q.count_users
  pub get_comment : (id : PgUuid) → Answers (λ _. C) (q.get_comment id)
  pub get_post : (id : PgUuid) → Answers (λ _. C) (q.get_post id)
  pub get_role : (id : PgUuid) → Answers (λ _. C) (q.get_role id)
  pub get_role_by_slug : (slug : String) → Answers (λ _. C) (q.get_role_by_slug slug)
  pub get_user : (id : PgUuid) → Answers (λ _. C) (q.get_user id)
  pub get_user_by_email : (email : String) → Answers (λ _. C) (q.get_user_by_email email)
  pub list_comments : (arg : ListCommentsParams) → Answers (λ _. C) (q.list_comments arg)
  pub list_posts : (arg : ListPostsParams) → Answers (λ _. C) (q.list_posts arg)
  pub list_roles : Answers (λ _. C) q.list_roles
  pub list_users : (arg : ListUsersParams) → Answers (λ _. C) (q.list_users arg)
  pub create_comment : (arg : CreateCommentParams) → Answers (λ _. C) (q.create_comment arg)
  pub create_post : (arg : CreatePostParams) → Answers (λ _. C) (q.create_post arg)
  pub create_user : (arg : CreateUserParams) → Answers (λ _. C) (q.create_user arg)
  pub delete_comment : (id : PgUuid) → Answers (λ _. C) (q.delete_comment id)
  pub delete_post : (id : PgUuid) → Answers (λ _. C) (q.delete_post id)
  pub delete_user : (id : PgUuid) → Answers (λ _. C) (q.delete_user id)
  pub replace_post : (arg : ReplacePostParams) → Answers (λ _. C) (q.replace_post arg)
  pub replace_user : (arg : ReplaceUserParams) → Answers (λ _. C) (q.replace_user arg)
  pub update_comment : (arg : UpdateCommentParams) → Answers (λ _. C) (q.update_comment arg)
  pub update_user : (arg : UpdateUserParams) → Answers (λ _. C) (q.update_user arg)

-- Of no database is more known than that.
pub any-QueriesAnswer : (q : Queries) → QueriesAnswer q (Unit {0})
any-QueriesAnswer q = record {
  count_comments = λ _. record { at = λ s a e. tt };
  count_posts = λ _. record { at = λ s a e. tt };
  count_users = record { at = λ s a e. tt };
  get_comment = λ _. record { at = λ s a e. tt };
  get_post = λ _. record { at = λ s a e. tt };
  get_role = λ _. record { at = λ s a e. tt };
  get_role_by_slug = λ _. record { at = λ s a e. tt };
  get_user = λ _. record { at = λ s a e. tt };
  get_user_by_email = λ _. record { at = λ s a e. tt };
  list_comments = λ _. record { at = λ s a e. tt };
  list_posts = λ _. record { at = λ s a e. tt };
  list_roles = record { at = λ s a e. tt };
  list_users = λ _. record { at = λ s a e. tt };
  create_comment = λ _. record { at = λ s a e. tt };
  create_post = λ _. record { at = λ s a e. tt };
  create_user = λ _. record { at = λ s a e. tt };
  delete_comment = λ _. record { at = λ s a e. tt };
  delete_post = λ _. record { at = λ s a e. tt };
  delete_user = λ _. record { at = λ s a e. tt };
  replace_post = λ _. record { at = λ s a e. tt };
  replace_user = λ _. record { at = λ s a e. tt };
  update_comment = λ _. record { at = λ s a e. tt };
  update_user = λ _. record { at = λ s a e. tt };
}
