-- ===== src/Api/Store/Accounts.antt =====
-- How a 201 of CreateUser comes about.
use kube_extauth_demo.Prelude.{arith, String, ◌≡◌, ap, some, Option-cases, inl, inr, if◌then◌else◌}
use kube_extauth_demo.Effect.{Err, ok, pure, raise, lift}
use kube_extauth_demo.Effect.Outcomes.{pair-eq, check-eq-ok, bind-eq-ok}
use kube_extauth_demo.Db.Models
use kube_extauth_demo.Db.Models.{Uuid, PgUuid, UserRole, ◌=?◌}
use kube_extauth_demo.Db.Params.{CreateUserParams}
use kube_extauth_demo.External.{Env}
use kube_extauth_demo.Api.Types.{User, Error, UserCreate}
use kube_extauth_demo.Api.Mapping.{to_api_user, pg_text, is_unique_violation}
use kube_extauth_demo.Api.Requests.{CreateUserRequestObject}
use kube_extauth_demo.Api.Responses.Users.{
  create_user_201_json, create_user_409_json, create_user_422_json,
}
use kube_extauth_demo.Api.Server.{Server, State, on_not_found, hash_password}
use kube_extauth_demo.Api.Users.{body_with_password, create_user}

module _ {S : Type 0} {user : User} {st' : S} where
  unknown_role-neq :
      (m : Error) (e : Err) (st : S)
      → on_not_found (create_user_422_json m) e st ≡ (ok (create_user_201_json user), st')
      → ⊥
  unfolding on_not_found pure raise
  unknown_role-neq m e st h = ground arith

  conflict-neq :
      (m : Error) (e : Err) (st : S)
      → (if is_unique_violation e then pure (create_user_409_json m) else raise e) st
        ≡ (ok (create_user_201_json user), st')
      → ⊥
  unfolding pure raise
  conflict-neq m e st h = ground arith

module _ (s : Server) (env : Env) where
  open s use {q}

  -- The parameters with which CreateUser of the server calls the query.
  abbrev pub row_params : UserCreate → String → String → UserRole → CreateUserParams
  row_params body salt hash role = record {
    email = body.email;
    password_hash = hash;
    password_salt = salt;
    first_name = body.first_name;
    last_name = body.last_name;
    avatar_url = pg_text body.avatar_url;
    bio = pg_text body.bio;
    role_id = role.id;
  }

  -- How a 201 of CreateUser came about: the body, the role of its slug, the hash of its password
  -- with a salt, and the row that the query returned.
  pub record Creation (request : CreateUserRequestObject) (user : User) (st st' : State s)
      : Type 0 where
    pub body : UserCreate
    pub password : String
    pub role : UserRole
    pub salt : String
    pub hash : String
    pub row : Models.User
    pub given : body_with_password request.body ≡ some (body, password)
    pub role_read : (q.get_role_by_slug body.role st).0 ≡ ok role
    pub hashed : hash_password s.crypto env password salt ≡ ok hash
    pub stored :
        q.create_user (row_params body salt hash role) (q.get_role_by_slug body.role st).1
        ≡ (ok row, st')
    pub returned : user ≡ to_api_user row role

  pub create_user-Creation :
      (request : CreateUserRequestObject) (user : User) (st st' : State s)
      → create_user s env request st ≡ (ok (create_user_201_json user), st')
      → Creation request user st st'
  unfolding create_user pure lift
  create_user-Creation request user st st' h =
      elim (Option-cases (body_with_password request.body)) [
        | inl missing ↦ cc (rw (missing, create_user) at h)
        | inr ((body, password), given) ↦
            elim (check-eq-ok _ _ _ st (rw (given, create_user) at h)) [
              | inl (role, role_read, h1) ↦
                  let (salt, salted, h2) = bind-eq-ok _ _ _ h1 in
                  let (hash, hashed, h3) = bind-eq-ok _ _ _ h2 in
                  elim (check-eq-ok _ _ _ _ h3) [
                    | inl (row, stored, h4) ↦ record {
                      body = body;
                      password = password;
                      role = role;
                      salt = salt;
                      hash = hash;
                      row = row;
                      given = given;
                      role_read = role_read;
                      hashed = hashed;
                      stored = pair-eq _ stored (ap (λ r. r.1) h4);
                      returned = cc (ap (λ r. r.0) h4);
                    }
                    | inr (e, failed, h4) ↦ elim (conflict-neq _ e _ h4) [ ]
                  ]
              | inr (e, failed, h1) ↦ elim (unknown_role-neq _ e _ h1) [ ]
            ]
      ]
