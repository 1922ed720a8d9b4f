-- ===== src/Api/Invariants/Handlers.antt =====
-- Every handler keeps an invariant of the database that the queries keep; a handler that only reads
-- needs it of the queries that read.
use kube_extauth_demo.Prelude.{String, Option-cases, inl, inr}
use kube_extauth_demo.Effect.{Err}
use kube_extauth_demo.Effect.Keeps.{Keeps, keeps_rules, Keeps-check, Keeps-pure, Keeps-raise}
use kube_extauth_demo.Db.Models
use kube_extauth_demo.Db.Params.{GetUserByEmailRow, UpdateUserParams}
use kube_extauth_demo.Db.Queries.Keeps.{QueriesKeep, ReadsKeep}
use kube_extauth_demo.External.{Env}
use kube_extauth_demo.Api.Mapping.{Context, identity_from_ctx}
use kube_extauth_demo.Api.Server.{Server, State, on_not_found}
use kube_extauth_demo.Api.Users.{
  list_users, create_user, get_user, user_with_role, store_update, update_user, replace_user,
  delete_user, body_with_password,
}
use kube_extauth_demo.Api.Posts.{list_posts, create_post, get_post, replace_post, delete_post}
use kube_extauth_demo.Api.Comments.{list_comments, create_comment, update_comment, delete_comment}
use kube_extauth_demo.Api.Login.{verify, login, credentials}
use kube_extauth_demo.Api.Requests.{
  LoginRequestObject, ListPostsRequestObject, CreatePostRequestObject, DeletePostRequestObject,
  GetPostRequestObject, ReplacePostRequestObject, ListCommentsRequestObject,
  CreateCommentRequestObject, DeleteCommentRequestObject, UpdateCommentRequestObject,
  ListUsersRequestObject, CreateUserRequestObject, DeleteUserRequestObject, GetUserRequestObject,
  UpdateUserRequestObject, ReplaceUserRequestObject,
}

Keeps-on_not_found {ℓ κ} :
    {S R : Type ℓ} {P : S → Type κ} (r : R) (e : Err) → Keeps P (on_not_found {S = S} r e)
unfolding on_not_found
Keeps-on_not_found r e = search keeps_rules

ruleset handler_rules = (keeps_rules, Keeps-on_not_found)

module _ {κ} (s : Server) (env : Env) {P : State s → Type κ} (k : ReadsKeep s.q P) where
  pub list_users-Keeps : (request : ListUsersRequestObject) → Keeps P (list_users s env request)
  unfolding list_users
  list_users-Keeps request =
      Keeps-check _ _ _ (k.list_users _) (λ e. Keeps-raise e)
        λ rows. Keeps-check _ _ _ k.count_users (λ e. Keeps-raise e) λ total. Keeps-pure _

  pub get_user-Keeps : (request : GetUserRequestObject) → Keeps P (get_user s env request)
  unfolding get_user
  get_user-Keeps request = search (handler_rules, k.get_user) depth 8

  pub list_posts-Keeps : (request : ListPostsRequestObject) → Keeps P (list_posts s env request)
  unfolding list_posts
  list_posts-Keeps request = search (handler_rules, k.list_posts, k.count_posts) depth 8

  pub get_post-Keeps : (request : GetPostRequestObject) → Keeps P (get_post s env request)
  unfolding get_post
  get_post-Keeps request = search (handler_rules, k.get_post) depth 8

  verify-Keeps : (row : GetUserByEmailRow) (password : String) → Keeps P (verify s env row password)
  unfolding verify
  verify-Keeps row password = search handler_rules depth 8

  pub login-Keeps : (request : LoginRequestObject) → Keeps P (login s env request)
  unfolding login
  login-Keeps request = elim (Option-cases (credentials request.body)) [
    | inl e ↦ rw (e, login) (search handler_rules)
    | inr ((body, password), e) ↦
        rw (e, login) (search (handler_rules, k.get_user_by_email, verify-Keeps) depth 8)
  ]

  user_with_role-Keeps : (u : Models.User) → Keeps P (user_with_role s env u)
  unfolding user_with_role
  user_with_role-Keeps u = search (handler_rules, k.get_role) depth 8

module _ {κ} (s : Server) (env : Env) {P : State s → Type κ} (k : QueriesKeep s.q P) where
  pub create_user-Keeps : (request : CreateUserRequestObject) → Keeps P (create_user s env request)
  unfolding create_user
  create_user-Keeps request = elim (Option-cases (body_with_password request.body)) [
    | inl e ↦ rw (e, create_user) (search handler_rules)
    | inr ((body, password), e) ↦
        rw (e, create_user) (search (handler_rules, k.get_role_by_slug, k.create_user) depth 8)
  ]

  store_update-Keeps : (params : UpdateUserParams) → Keeps P (store_update s env params)
  unfolding store_update
  store_update-Keeps params =
      search (handler_rules, k.update_user, user_with_role-Keeps s env k.reads) depth 8

  pub update_user-Keeps : (request : UpdateUserRequestObject) → Keeps P (update_user s env request)
  unfolding update_user
  update_user-Keeps request = elim (Option-cases request.body) [
    | inl e ↦ rw (e, update_user) (search handler_rules)
    | inr (body, e) ↦ elim (Option-cases body.role) [
      | inl f ↦ rw (e, f, update_user) (search (handler_rules, store_update-Keeps) depth 8)
      | inr (slug, f) ↦
          rw (e, f, update_user)
            (search (handler_rules, k.get_role_by_slug, store_update-Keeps) depth 8)
    ]
  ]

  pub replace_user-Keeps :
      (request : ReplaceUserRequestObject) → Keeps P (replace_user s env request)
  unfolding replace_user
  replace_user-Keeps request = elim (Option-cases (body_with_password request.body)) [
    | inl e ↦ rw (e, replace_user) (search handler_rules)
    | inr ((body, password), e) ↦
        rw (e, replace_user) (search (handler_rules, k.get_role_by_slug, k.replace_user) depth 8)
  ]

  pub delete_user-Keeps : (request : DeleteUserRequestObject) → Keeps P (delete_user s env request)
  unfolding delete_user
  delete_user-Keeps request = search (handler_rules, k.delete_user) depth 8

  pub create_post-Keeps :
      (ctx : Context) (request : CreatePostRequestObject) → Keeps P (create_post s env ctx request)
  unfolding create_post
  create_post-Keeps ctx request = elim (Option-cases (identity_from_ctx ctx)) [
    | inl e ↦ rw (e, create_post) (search handler_rules)
    | inr (author, e) ↦ elim (Option-cases request.body) [
      | inl f ↦ rw (e, f, create_post) (search handler_rules)
      | inr (body, f) ↦ rw (e, f, create_post) (search (handler_rules, k.create_post) depth 8)
    ]
  ]

  pub replace_post-Keeps :
      (request : ReplacePostRequestObject) → Keeps P (replace_post s env request)
  unfolding replace_post
  replace_post-Keeps request = elim (Option-cases request.body) [
    | inl e ↦ rw (e, replace_post) (search handler_rules)
    | inr (body, e) ↦ rw (e, replace_post) (search (handler_rules, k.replace_post) depth 8)
  ]

  pub delete_post-Keeps : (request : DeletePostRequestObject) → Keeps P (delete_post s env request)
  unfolding delete_post
  delete_post-Keeps request = search (handler_rules, k.delete_post) depth 8

module _ {κ} (s : Server) {P : State s → Type κ} where
  pub list_comments-Keeps :
      ReadsKeep s.q P → (request : ListCommentsRequestObject) → Keeps P (list_comments s request)
  unfolding list_comments
  list_comments-Keeps k request =
      search (handler_rules, k.get_post, k.list_comments, k.count_comments) depth 8

  pub create_comment-Keeps :
      QueriesKeep s.q P
      → (ctx : Context) (request : CreateCommentRequestObject)
      → Keeps P (create_comment s ctx request)
  unfolding create_comment
  create_comment-Keeps k ctx request = elim (Option-cases (identity_from_ctx ctx)) [
    | inl e ↦ rw (e, create_comment) (search handler_rules)
    | inr (author, e) ↦ elim (Option-cases request.body) [
      | inl f ↦ rw (e, f, create_comment) (search handler_rules)
      | inr (body, f) ↦ rw (e, f, create_comment) (search (handler_rules, k.create_comment) depth 8)
    ]
  ]

  pub update_comment-Keeps :
      QueriesKeep s.q P
      → (request : UpdateCommentRequestObject) → Keeps P (update_comment s request)
  unfolding update_comment
  update_comment-Keeps k request = elim (Option-cases request.body) [
    | inl e ↦ rw (e, update_comment) (search handler_rules)
    | inr (body, e) ↦ rw (e, update_comment) (search (handler_rules, k.update_comment) depth 8)
  ]

  pub delete_comment-Keeps :
      QueriesKeep s.q P
      → (request : DeleteCommentRequestObject) → Keeps P (delete_comment s request)
  unfolding delete_comment
  delete_comment-Keeps k request = search (handler_rules, k.delete_comment) depth 8
