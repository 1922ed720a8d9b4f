-- ===== src/Api/Store/Logins.antt =====
-- Login, of a user that was created and of others (sample-api/pkg/openapi/user.go and auth.go, with
-- pkg/auth/jwt.go).
use kube_extauth_demo.Prelude.{
  ◌+◌, String, ◌<>◌, nat_eq, string_eq, ◌≡◌, refl, ap, true, Option, none, some, List, arith,
}
use kube_extauth_demo.Prelude.Tables.{find_row, Distinct}
use kube_extauth_demo.Prelude.Tables.Laws.{find_row-Distinct, find_row_sound}
use kube_extauth_demo.Effect.{no_rows, other, ok, err, pure, lift, check}
use kube_extauth_demo.Db.Models.{Uuid, Time, UserRole, User, ◌=?◌}
use kube_extauth_demo.Db.Params.{GetUserByEmailRow}
use kube_extauth_demo.Db.Store.Base.{Database, scan_one}
use kube_extauth_demo.Db.Store.Roles.{get_role_by_slug}
use kube_extauth_demo.Db.Store.Invariant.{same_role}
use kube_extauth_demo.Db.Store.Users as Rows
use kube_extauth_demo.Db.Store.Accounts.{create_user-get}
use kube_extauth_demo.External.{Claims, Crypto, Env, IsBcrypt}
use kube_extauth_demo.Auth.{Signer, claims, sign, hour}
use kube_extauth_demo.Auth.Laws.{Describes}
use kube_extauth_demo.Api.Types as Types
use kube_extauth_demo.Api.Types.{UserCreate, bearer}
use kube_extauth_demo.Api.Mapping.{to_api_user, to_api_role, to_uuid, is_not_found}
use kube_extauth_demo.Api.Requests.{CreateUserRequestObject, LoginRequestObject}
use kube_extauth_demo.Api.Responses.Users.{create_user_201_json}
use kube_extauth_demo.Api.Responses.Login.{login_200_json}
use kube_extauth_demo.Api.Server.{Server, State, on_not_found, hash_password}
use kube_extauth_demo.Api.Users.{body_with_password, create_user}
use kube_extauth_demo.Api.Login.{login, verify}
use kube_extauth_demo.Api.Store.Consistency.{store_server}
use kube_extauth_demo.Api.Store.Accounts.{create_user-Creation}

abbrev pub credentials_of : UserCreate → String → LoginRequestObject
credentials_of body password = record {
  body = some (record { email = body.email; password = some password });
}

scan_one-eq-ok {ℓ} : {A : Type ℓ} (o : Option A) {a : A} → scan_one o ≡ ok a → o ≡ some a
scan_one-eq-ok none h = cc
scan_one-eq-ok (some x) h = cc

-- The role that is read by its slug is the one that a user with its id is joined with.
role_of-read :
    (db : Database) (slug : String) (u : User) {role joined : UserRole}
    → Distinct same_role db.roles
    → (get_role_by_slug slug db).0 ≡ ok role
    → u.role_id ≡ role.id
    → Rows.role_of db.tables u ≡ some joined
    → joined ≡ role
unfolding get_role_by_slug ◌=?◌
role_of-read db slug u {role} {joined} d read same found =
    let met = find_row_sound _ db.roles found in
    let by_slug = scan_one-eq-ok _ read in
    let flip : (a b : UserRole) → same_role a b ≡ same_role b a = λ a b. ground arith in
    let self : same_role role role ≡ true = ground arith in
    let by_id = find_row-Distinct same_role _ db.roles flip d self by_slug in
    let here : find_row (same_role role) db.roles ≡ some joined = rw (← same) found in
    cc (by_id, here)

-- With the row of the email, a hash that fits the password and a token, a login answers 200.
pub login-row :
    (s : Server) (env : Env) (email password : String) (st : State s) (row : GetUserByEmailRow)
    {token : String} {expires_at : Time}
    → s.q.get_user_by_email email st ≡ (ok row, st)
    → s.crypto.compare_hash_and_password row.user.password_hash (password <> row.user.password_salt)
      ≡ ok tt
    → sign s.crypto s.signer env (to_uuid row.user.id) row.user_role.slug row.user_role.scopes hour
      ≡ ok (token, expires_at)
    → login s env (record { body = some (record { email = email; password = some password }) }) st
      ≡ (
        ok (
            login_200_json (record {
              token = token;
              token_type = bearer;
              expires_at = expires_at;
              user = to_api_user row.user row.user_role;
            })),
        st,
      )
unfolding login check lift pure verify
login-row s env email password st row read fits signed = rw read (rw fits (rw signed refl))

-- A user for whom CreateUser answers 201 can log in at once with the same email and password, given
-- that a hash accepts its password, that ids of roles are distinct, and that ids and signatures of
-- tokens can be made: Login answers 200 with the user that was created and a bearer token, the
-- signature of claims that name this user with its role and scopes and expire an hour after they
-- were issued; it changes nothing.
pub create_user-login :
    (collate : List UserRole → List UserRole) (c : Crypto) (signer : Signer c) (env later : Env)
    (request : CreateUserRequestObject) (body : UserCreate) (password : String) (db : Database)
    {user : Types.User} {db' : Database} {jti : Uuid}
    → IsBcrypt c
    → Distinct same_role db.roles
    → body_with_password request.body ≡ some (body, password)
    → create_user (store_server collate c signer) env request db
      ≡ (ok (create_user_201_json user), db')
    → later.new_v7 ≡ ok jti
    → ((t : Claims) → (token : String) × (c.signed_string t signer.key ≡ ok token))
    → (id : Uuid) × (role : UserRole) × (token : String) × (t : Claims) × (user.id ≡ some id)
      × (user.role ≡ to_api_role role)
      × (c.signed_string t signer.key ≡ ok token)
      × Describes c later id role.slug role.scopes 3600 t
      × (login (store_server collate c signer) later (credentials_of body password) db' ≡ (
        ok (
            login_200_json (record {
              token = token;
              token_type = bearer;
              expires_at = later.now + hour;
              user = user;
            })),
        db',
      ))
unfolding get_role_by_slug hash_password to_api_user sign
create_user-login collate c signer env later request body password db {user} {db'} {jti} bcrypt
      distinct given created fresh signs =
    let s = store_server collate c signer in
    let m = create_user-Creation s env request user db db' created in
    let (is_row, _, (joined, found, _, by_email)) = create_user-get _ db m.stored in
    let same =
      role_of-read db m.body.role m.row distinct m.role_read (ap (λ u. u.role_id) is_row) found in
    let is_body : m.body ≡ body = cc (m.given, given) in
    let is_password : m.password ≡ password = cc (m.given, given) in
    let id = to_uuid m.row.id in
    let t = claims c later jti id joined.slug joined.scopes (later.now + hour) in
    let (token, made) = signs t in
    let signed : sign c signer later id joined.slug joined.scopes hour
        ≡ ok (token, later.now + hour) =
      rw fresh (rw made refl) in
    let fits : c.compare_hash_and_password m.row.password_hash (password <> m.row.password_salt)
        ≡ ok tt =
      rw (is_row, ← is_password) (bcrypt.compare_generated _ _ _ _ m.hashed) in
    let is_user : to_api_user m.row joined ≡ user = rw (same, m.returned) refl in
    (
      id,
      joined,
      token,
      t,
      rw m.returned refl,
      rw (m.returned, same) refl,
      made,
      record { iss = refl; sub = refl; role = refl; scopes = refl; lifetime = omega arith },
      rw (← is_user) (
          login-row s later body.email password db' (record { user = m.row; user_role = joined })
            (rw (← is_body) by_email) fits signed),
    )

-- Login does not tell an unknown email from a wrong password: whatever the queries are, the two
-- requests get the same answer and leave the same state. The queries are taken to leave the state
-- as it was.
pub login-same_refusal :
    (s : Server) (env : Env) (unknown known password : String) (st : State s)
    {row : GetUserByEmailRow} {message : String}
    → s.q.get_user_by_email unknown st ≡ (err no_rows, st)
    → s.q.get_user_by_email known st ≡ (ok row, st)
    → s.crypto.compare_hash_and_password row.user.password_hash (password <> row.user.password_salt)
      ≡ err (other message)
    → login s env (record { body = some (record { email = unknown; password = some password }) }) st
      ≡ login s env (record { body = some (record { email = known; password = some password }) }) st
unfolding login check lift pure verify on_not_found is_not_found
login-same_refusal s env unknown known password st missing read wrong =
    rw missing (rw read (rw wrong refl))
