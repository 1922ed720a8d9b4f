-- ===== src/Api/Users.antt =====
-- sample-api/pkg/openapi/user.go
use kube_extauth_demo.Prelude.{
  String, Option, none, some, map, ◌==◌, string_eq, false, if◌then◌else◌, [],
}
use kube_extauth_demo.Effect.{Result, ok, err, Exec, pure, raise, lift, check, ◌>>=◌}
use kube_extauth_demo.Db.Models
use kube_extauth_demo.Db.Models.{PgUuid, UserRole}
use kube_extauth_demo.Db.Params.{UpdateUserParams}
use kube_extauth_demo.External.{Crypto, Env}
use kube_extauth_demo.Api.Types.{User, UserCreate, UserUpdate}
use kube_extauth_demo.Api.Mapping.{
  paginate, meta, pg_uuid, pg_text, to_api_user, is_not_found, is_unique_violation, not_found,
  bad_request, conflict, unprocessable,
}
use kube_extauth_demo.Api.Requests.{
  ListUsersRequestObject, CreateUserRequestObject, DeleteUserRequestObject, GetUserRequestObject,
  UpdateUserRequestObject, ReplaceUserRequestObject,
}
use kube_extauth_demo.Api.Responses.Users.{
  ListUsersResponseObject, list_users_200_json, CreateUserResponseObject, create_user_201_json,
  create_user_409_json, create_user_422_json, DeleteUserResponseObject, delete_user_204,
  GetUserResponseObject, get_user_200_json, get_user_404_json, UpdateUserResponseObject,
  update_user_200_json, update_user_400_json, update_user_404_json, update_user_409_json,
  update_user_422_json, ReplaceUserResponseObject, replace_user_200_json, replace_user_404_json,
  replace_user_409_json, replace_user_422_json,
}
use kube_extauth_demo.Api.Server.{Server, State, on_not_found, generate_salt, hash_password}

-- The body and its password, unless `body == nil || body.Password == nil || *body.Password == ""`.
unfoldable pub body_with_password : Option UserCreate → Option (UserCreate × String)
body_with_password none = none
body_with_password (some body) = elim body.password [
  | none ↦ none
  | some password ↦ if password == "" then none else some (body, password)
]

-- The statement `if body.Password != nil && *body.Password != ""` of UpdateUser.
unfoldable pub set_password :
    Crypto → Env → Option String → UpdateUserParams → Result UpdateUserParams
unfolding generate_salt hash_password
set_password c env none params = ok params
set_password c env (some password) params =
    if password == "" then ok params else elim (generate_salt c env) [
      | err e ↦ err e
      | ok salt ↦ elim (hash_password c env password salt) [
        | err e ↦ err e
        | ok hash ↦ ok (record params {
          password_hash = pg_text (some hash);
          password_salt = pg_text (some salt);
        })
      ]
    ]

-- The composite literal of UpdateUser, with the email that the statement after it sets.
abbrev pub update_params : UpdateUserRequestObject → UserUpdate → UpdateUserParams
update_params request body = record {
  id = pg_uuid request.user_id;
  first_name = pg_text body.first_name;
  last_name = pg_text body.last_name;
  avatar_url = pg_text body.avatar_url;
  bio = pg_text body.bio;
  email = pg_text body.email;
  password_hash = pg_text none;
  password_salt = pg_text none;
  role_id = record { bytes = 0; valid = false };
}

module _ (s : Server) (env : Env) where
  open s use {q}

  unfoldable pub list_users : ListUsersRequestObject → Exec (State s) ListUsersResponseObject
  unfolding paginate to_api_user
  list_users request = do
    let p = paginate request.params.page request.params.per_page
    rows ← q.list_users (record { limit = p.limit; offset = p.offset })
    total ← q.count_users
    pure (
        list_users_200_json (record {
          items = map (λ row. to_api_user row.user row.user_role) rows;
          meta = meta total p.page p.per_page;
        }))

  unfoldable pub create_user : CreateUserRequestObject → Exec (State s) CreateUserResponseObject
  unfolding body_with_password generate_salt hash_password to_api_user is_unique_violation
      is_not_found
  create_user request = elim (body_with_password request.body) [
    | none ↦ pure (create_user_422_json (unprocessable "password is required"))
    | some (body, password) ↦
        check (q.get_role_by_slug body.role)
          (on_not_found (create_user_422_json (unprocessable "unknown role")))
          λ role. do
            salt ← lift (generate_salt s.crypto env)
            hash ← lift (hash_password s.crypto env password salt)
            check
                (q.create_user (record {
                  email = body.email;
                  password_hash = hash;
                  password_salt = salt;
                  first_name = body.first_name;
                  last_name = body.last_name;
                  avatar_url = pg_text body.avatar_url;
                  bio = pg_text body.bio;
                  role_id = role.id;
                }))
                (λ e.
                  if is_unique_violation e
                  then pure (create_user_409_json (conflict "email already exists"))
                  else raise e)
                (λ created. pure (create_user_201_json (to_api_user created role)))
  ]

  unfoldable pub get_user : GetUserRequestObject → Exec (State s) GetUserResponseObject
  unfolding to_api_user is_not_found
  get_user request =
      check (q.get_user (pg_uuid request.user_id))
        (on_not_found (get_user_404_json (not_found "user not found")))
        (λ row. pure (get_user_200_json (to_api_user row.user row.user_role)))

  -- The role of a bare row; if it cannot be read, a role with the id alone.
  unfoldable pub user_with_role : Models.User → Exec (State s) User
  unfolding to_api_user
  user_with_role u =
      check (q.get_role u.role_id)
        (λ _. pure (to_api_user u (record { id = u.role_id; slug = ""; scopes = [] })))
        (λ role. pure (to_api_user u role))

  -- UpdateUser from the call of `s.q.UpdateUser` on.
  unfoldable pub store_update : UpdateUserParams → Exec (State s) UpdateUserResponseObject
  unfolding user_with_role is_unique_violation is_not_found
  store_update params =
      check (q.update_user params)
        (λ e.
          if is_not_found e
          then pure (update_user_404_json (not_found "user not found"))
          else if is_unique_violation e
          then pure (update_user_409_json (conflict "email already exists"))
          else raise e)
        λ updated. do user ← user_with_role updated; pure (update_user_200_json user)

  unfoldable pub update_user : UpdateUserRequestObject → Exec (State s) UpdateUserResponseObject
  unfolding set_password store_update
  update_user request = elim request.body [
    | none ↦ pure (update_user_400_json (bad_request "empty body"))
    | some body ↦ do
      params ← lift (set_password s.crypto env body.password (update_params request body))
      elim body.role [
        | none ↦ store_update params
        | some slug ↦
            check (q.get_role_by_slug slug)
              (on_not_found (update_user_422_json (unprocessable "unknown role")))
              (λ role. store_update (record params { role_id = role.id }))
      ]
  ]

  unfoldable pub replace_user : ReplaceUserRequestObject → Exec (State s) ReplaceUserResponseObject
  unfolding body_with_password generate_salt hash_password to_api_user is_unique_violation
      is_not_found
  replace_user request = elim (body_with_password request.body) [
    | none ↦ pure (replace_user_422_json (unprocessable "password is required"))
    | some (body, password) ↦
        check (q.get_role_by_slug body.role)
          (on_not_found (replace_user_422_json (unprocessable "unknown role")))
          λ role. do
            salt ← lift (generate_salt s.crypto env)
            hash ← lift (hash_password s.crypto env password salt)
            check
                (q.replace_user (record {
                  id = pg_uuid request.user_id;
                  email = body.email;
                  password_hash = hash;
                  password_salt = salt;
                  first_name = body.first_name;
                  last_name = body.last_name;
                  avatar_url = pg_text body.avatar_url;
                  bio = pg_text body.bio;
                  role_id = role.id;
                }))
                (λ e.
                  if is_not_found e
                  then pure (replace_user_404_json (not_found "user not found"))
                  else if is_unique_violation e
                  then pure (replace_user_409_json (conflict "email already exists"))
                  else raise e)
                (λ updated. pure (replace_user_200_json (to_api_user updated role)))
  ]

  unfoldable pub delete_user : DeleteUserRequestObject → Exec (State s) DeleteUserResponseObject
  delete_user request = do _ ← q.delete_user (pg_uuid request.user_id); pure delete_user_204
