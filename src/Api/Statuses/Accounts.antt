-- ===== src/Api/Statuses/Accounts.antt =====
-- The status codes of what the handlers of sample-api/pkg/openapi/auth.go and user.go answer.
use kube_extauth_demo.Prelude.{ℕ, String, Option-cases, inl, inr}
use kube_extauth_demo.Effect.{Result}
use kube_extauth_demo.Effect.Answers.{Answers, Answers-check, Answers-check_any, Answers-raise}
use kube_extauth_demo.Db.Queries.Answers.{QueriesAnswer}
use kube_extauth_demo.External.{Env}
use kube_extauth_demo.Api.Http.{Payload}
use kube_extauth_demo.Api.Server.{Server}
use kube_extauth_demo.Api.Statuses.Written.{Written, handler_rules}
use kube_extauth_demo.Db.Params.{GetUserByEmailRow, UpdateUserParams}
use kube_extauth_demo.Api.Login.{verify, login, credentials}
use kube_extauth_demo.Api.Users.{
  list_users, create_user, get_user, store_update, update_user, replace_user, delete_user,
  body_with_password,
}
use kube_extauth_demo.Api.Responses.Login.{visit_login_response}
use kube_extauth_demo.Api.Responses.Users.{
  visit_list_users_response, visit_create_user_response, visit_delete_user_response,
  visit_get_user_response, visit_update_user_response, visit_replace_user_response,
}
use kube_extauth_demo.Api.Requests.{
  LoginRequestObject, ListUsersRequestObject, CreateUserRequestObject, DeleteUserRequestObject,
  GetUserRequestObject, UpdateUserRequestObject, ReplaceUserRequestObject,
}

module _ (s : Server) (env : Env) (encode : Payload → Result String) {C : Type 0} {P : ℕ → Type 0}
    (d : QueriesAnswer s.q C) where
  verify-Answers :
      (row : GetUserByEmailRow) (password : String)
      → P 401
      → P 200
      → Answers (λ r. Written P (visit_login_response encode r)) (verify s env row password)
  unfolding verify visit_login_response
  verify-Answers row password p401 p200 = search (handler_rules, Answers-check_any) depth 12

  pub login-Answers :
      (request : LoginRequestObject)
      → P 401
      → P 422
      → (C → P 200)
      → Answers (λ r. Written P (visit_login_response encode r)) (login s env request)
  unfolding login visit_login_response
  login-Answers request p401 p422 p200 = elim (Option-cases (credentials request.body)) [
    | inl e ↦ rw (e, login) (search handler_rules)
    | inr ((body, password), e) ↦
        rw (e, login)
          (search (handler_rules, Answers-check {0, 0, 0} C, d.get_user_by_email, verify-Answers)
            depth 12)
  ]

  pub list_users-Answers :
      (request : ListUsersRequestObject)
      → (C → P 200)
      → Answers (λ r. Written P (visit_list_users_response encode r)) (list_users s env request)
  unfolding list_users visit_list_users_response
  list_users-Answers request p200 =
      Answers-check C _ _ _ (d.list_users _) (λ e. Answers-raise e)
        λ rows c.
          Answers-check C _ _ _ d.count_users (λ e. Answers-raise e) λ total _. search handler_rules

  pub create_user-Answers :
      (request : CreateUserRequestObject)
      → P 409
      → P 422
      → (C → P 201)
      → Answers (λ r. Written P (visit_create_user_response encode r)) (create_user s env request)
  unfolding create_user visit_create_user_response
  create_user-Answers request p409 p422 p201 =
      elim (Option-cases (body_with_password request.body)) [
        | inl e ↦ rw (e, create_user) (search handler_rules)
        | inr ((body, password), e) ↦
            rw (e, create_user)
              (search
                (
                  handler_rules,
                  Answers-check {0, 0, 0} C,
                  Answers-check_any,
                  d.get_role_by_slug,
                  d.create_user,
                )
                depth 12)
      ]

  pub delete_user-Answers :
      (request : DeleteUserRequestObject)
      → (C → P 204)
      → Answers (λ r. Written P (visit_delete_user_response encode r)) (delete_user s env request)
  unfolding delete_user visit_delete_user_response
  delete_user-Answers request p204 =
      search (handler_rules, Answers-check {0, 0, 0} C, d.delete_user) depth 12

  pub get_user-Answers :
      (request : GetUserRequestObject)
      → P 404
      → (C → P 200)
      → Answers (λ r. Written P (visit_get_user_response encode r)) (get_user s env request)
  unfolding get_user visit_get_user_response
  get_user-Answers request p404 p200 =
      search (handler_rules, Answers-check {0, 0, 0} C, d.get_user) depth 12

  store_update-Answers :
      (params : UpdateUserParams)
      → P 404
      → P 409
      → (C → P 200)
      → Answers (λ r. Written P (visit_update_user_response encode r)) (store_update s env params)
  unfolding store_update visit_update_user_response
  store_update-Answers params p404 p409 p200 =
      search (handler_rules, Answers-check {0, 0, 0} C, Answers-check_any, d.update_user) depth 12

  pub update_user-Answers :
      (request : UpdateUserRequestObject)
      → P 400
      → P 404
      → P 409
      → P 422
      → (C → P 200)
      → Answers (λ r. Written P (visit_update_user_response encode r)) (update_user s env request)
  unfolding update_user visit_update_user_response
  update_user-Answers request p400 p404 p409 p422 p200 = elim (Option-cases request.body) [
    | inl e ↦ rw (e, update_user) (search handler_rules)
    | inr (body, e) ↦ elim (Option-cases body.role) [
      | inl f ↦
          rw (e, f, update_user)
            (search (handler_rules, Answers-check_any, store_update-Answers) depth 12)
      | inr (slug, f) ↦
          rw (e, f, update_user)
            (search (handler_rules, Answers-check_any, store_update-Answers) depth 12)
    ]
  ]

  pub replace_user-Answers :
      (request : ReplaceUserRequestObject)
      → P 404
      → P 409
      → P 422
      → (C → P 200)
      → Answers (λ r. Written P (visit_replace_user_response encode r)) (replace_user s env request)
  unfolding replace_user visit_replace_user_response
  replace_user-Answers request p404 p409 p422 p200 =
      elim (Option-cases (body_with_password request.body)) [
        | inl e ↦ rw (e, replace_user) (search handler_rules)
        | inr ((body, password), e) ↦
            rw (e, replace_user)
              (search
                (
                  handler_rules,
                  Answers-check {0, 0, 0} C,
                  Answers-check_any,
                  d.get_role_by_slug,
                  d.replace_user,
                )
                depth 12)
      ]
