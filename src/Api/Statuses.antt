-- ===== src/Api/Statuses.antt =====
-- The status codes of the answers of sample-api/pkg/openapi, by operation: an independent table, of
-- what the handlers and the generated code around them can answer.
pub mod Written
pub mod Accounts
pub mod Contents
pub mod Requests
pub mod Served
use kube_extauth_demo.Prelude.{ℕ, Bool, true, List, [], ◌∷◌, ◌≡◌, ◌⊎◌, ◌==◌, nat_eq}
use kube_extauth_demo.Prelude.Tables.{has_row}
use kube_extauth_demo.Api.Router.{Operation}

abbrev pub success : Operation → ℕ
success Operation.login = 200
success Operation.list_posts = 200
success Operation.create_post = 201
success Operation.delete_post = 204
success Operation.get_post = 200
success Operation.replace_post = 200
success Operation.list_comments = 200
success Operation.create_comment = 201
success Operation.delete_comment = 204
success Operation.update_comment = 200
success Operation.list_users = 200
success Operation.create_user = 201
success Operation.delete_user = 204
success Operation.get_user = 200
success Operation.update_user = 200
success Operation.replace_user = 200

-- 400 and 500 are also what the generated code answers to a request that it cannot read and to an
-- error of the handler.
abbrev pub failures : Operation → List ℕ
failures Operation.login = 400 ∷ 401 ∷ 422 ∷ 500 ∷ []
failures Operation.list_posts = 400 ∷ 500 ∷ []
failures Operation.create_post = 400 ∷ 401 ∷ 500 ∷ []
failures Operation.delete_post = 400 ∷ 500 ∷ []
failures Operation.get_post = 400 ∷ 404 ∷ 500 ∷ []
failures Operation.replace_post = 400 ∷ 404 ∷ 500 ∷ []
failures Operation.list_comments = 400 ∷ 404 ∷ 500 ∷ []
failures Operation.create_comment = 400 ∷ 401 ∷ 404 ∷ 500 ∷ []
failures Operation.delete_comment = 400 ∷ 500 ∷ []
failures Operation.update_comment = 400 ∷ 404 ∷ 500 ∷ []
failures Operation.list_users = 400 ∷ 500 ∷ []
failures Operation.create_user = 400 ∷ 409 ∷ 422 ∷ 500 ∷ []
failures Operation.delete_user = 400 ∷ 500 ∷ []
failures Operation.get_user = 400 ∷ 404 ∷ 500 ∷ []
failures Operation.update_user = 400 ∷ 404 ∷ 409 ∷ 422 ∷ 500 ∷ []
failures Operation.replace_user = 400 ∷ 404 ∷ 409 ∷ 422 ∷ 500 ∷ []

abbrev pub is_failure : Operation → ℕ → Bool
is_failure o status = has_row (λ code. code == status) (failures o)

-- A success, of which `C` is a consequence, or a failure.
pub record IsAnswer (C : Type 0) (o : Operation) (status : ℕ) : Type 0 where
  pub expected : ((status ≡ success o) × C) ⊎ (is_failure o status ≡ true)
