-- ===== src/Api/Login.antt =====
-- sample-api/pkg/openapi/auth.go
use kube_extauth_demo.Prelude.{ℕ, String, ◌<>◌, Option, none, some}
use kube_extauth_demo.Effect.{Exec, pure, check, lift, ◌>>=◌}
use kube_extauth_demo.Db.Params.{GetUserByEmailRow}
use kube_extauth_demo.External.{Env}
use kube_extauth_demo.Auth
use kube_extauth_demo.Auth.{hour}
use kube_extauth_demo.Api.Types.{LoginRequest, bearer}
use kube_extauth_demo.Api.Mapping.{to_uuid, to_api_user, is_not_found, unauthorized, unprocessable}
use kube_extauth_demo.Api.Requests.{LoginRequestObject}
use kube_extauth_demo.Api.Responses.Login.{
  LoginResponseObject, login_200_json, login_401_json, login_422_json,
}
use kube_extauth_demo.Api.Server.{Server, State, on_not_found}

abbrev pub token_ttl : ℕ
token_ttl = hour

-- The body and its password, unless `request.Body == nil || request.Body.Password == nil`.
unfoldable pub credentials : Option LoginRequest → Option (LoginRequest × String)
credentials none = none
credentials (some body) = elim body.password [ none ↦ none | some password ↦ some (body, password) ]

module _ (s : Server) (env : Env) where
  open s use {q, crypto, signer}

  -- Login from the comparison of the password on.
  unfoldable pub verify : GetUserByEmailRow → String → Exec (State s) LoginResponseObject
  unfolding to_api_user
  verify row password =
      check
        (lift (
          crypto.compare_hash_and_password row.user.password_hash
            (password <> row.user.password_salt)))
        (λ _. pure (login_401_json (unauthorized "invalid credentials")))
        λ _. do
          signed ← lift (
              Auth.sign crypto signer env (to_uuid row.user.id) row.user_role.slug
                row.user_role.scopes token_ttl)
          pure (
              login_200_json (record {
                token = signed.0;
                token_type = bearer;
                expires_at = signed.1;
                user = to_api_user row.user row.user_role;
              }))

  unfoldable pub login : LoginRequestObject → Exec (State s) LoginResponseObject
  unfolding credentials verify is_not_found
  login request = elim (credentials request.body) [
    | none ↦ pure (login_422_json (unprocessable "email and password are required"))
    | some (body, password) ↦
        check (q.get_user_by_email body.email)
          (on_not_found (login_401_json (unauthorized "invalid credentials")))
          (λ row. verify row password)
  ]
