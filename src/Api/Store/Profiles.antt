-- ===== src/Api/Store/Profiles.antt =====
-- A login after a change of the profile (sample-api/pkg/openapi/user.go and auth.go over the queries
-- of pkg/db).
use kube_extauth_demo.Prelude.{
  ◌≡◌, refl, ap, subst, ◌∙◌, true, none, some, List, ◌∷◌, ◌+◌, ◌==◌, String, ◌<>◌, string_eq,
  eq_iff,
}
use kube_extauth_demo.Prelude.Tables.{find_row, rows_except}
use kube_extauth_demo.Effect.{ok}
use kube_extauth_demo.Db.Models
use kube_extauth_demo.Db.Models.{Uuid, UserRole, ◌=?◌}
use kube_extauth_demo.Db.Store.Base.{Database, scan_one}
use kube_extauth_demo.Db.Store.Accounts.{find_row_complete, joined-some}
use kube_extauth_demo.Db.Store.Invariant.{IsConsistent}
use kube_extauth_demo.Db.Store.Keeps.{store-QueriesKeep}
use kube_extauth_demo.Db.Store.Users.{role_of, joined, get_user_by_email, get_user_by_email_row}
use kube_extauth_demo.External.{Claims, Crypto, Env}
use kube_extauth_demo.Auth.{Signer, claims, sign, hour}
use kube_extauth_demo.Api.Types.{User, UserUpdate, bearer}
use kube_extauth_demo.Api.Mapping.{pg_uuid, to_uuid, to_api_user}
use kube_extauth_demo.Api.Requests.{UpdateUserRequestObject}
use kube_extauth_demo.Api.Responses.Users.{update_user_200_json}
use kube_extauth_demo.Api.Responses.Login.{login_200_json}
use kube_extauth_demo.Api.Invariants.Handlers.{update_user-Keeps}
use kube_extauth_demo.Api.Users.{update_user}
use kube_extauth_demo.Api.Login.{login}
use kube_extauth_demo.Api.Store.Consistency.{store_server}
use kube_extauth_demo.Api.Store.Logins.{login-row}
use kube_extauth_demo.Api.Store.Merges.{merged, or_old}
use kube_extauth_demo.Api.Store.Updates.{update_user-profile}

-- The newest row of a table of users is the one that its email finds.
newest_by_email :
    (db : Database) (row : Models.User) (rest : List Models.User) {role : UserRole}
    → db.tables.users ≡ row ∷ rest
    → role_of db.tables row ≡ some role
    → get_user_by_email row.email db ≡ (ok (record { user = row; user_role = role }), db)
unfolding get_user_by_email find_row
newest_by_email db row rest {role} here joins =
    let itself : row.email == row.email ≡ true = (eq_iff row.email row.email).1 refl in
    let first : find_row (λ u. u.email == row.email) (row ∷ rest) ≡ some row = rw itself refl in
    ap (λ o. (scan_one (get_user_by_email_row o), db))
      (ap (λ us. joined (find_row (λ u. u.email == row.email) us) db.tables) here
        ∙ ap (λ o. joined o db.tables) first
        ∙ joined-some db.tables row joins)

module _ (collate : List UserRole → List UserRole) (c : Crypto) (signer : Signer c) where
  sign-some :
      (later : Env) (user : Uuid) (role : UserRole) {jti : Uuid}
      → later.new_v7 ≡ ok jti
      → ((t : Claims) → (token : String) × (c.signed_string t signer.key ≡ ok token))
      → (token : String) × (sign c signer later user role.slug role.scopes hour
          ≡ ok (token, later.now + hour))
  unfolding sign
  sign-some later user role {jti} fresh signs =
      let (token, made) =
        signs (claims c later jti user role.slug role.scopes (later.now + hour)) in
      (token, rw fresh (rw made refl))

  -- A user who can log in still can, with the same password, after an update of the profile without
  -- a password or a role that UpdateUser answers with 200, and with the new email if the update sets
  -- one: Login answers 200 with the updated user and a token, given that the tables met the
  -- constraints of the schema and that ids and signatures of tokens can be made.
  pub update_user-login :
      (env later : Env) (request : UpdateUserRequestObject) (body : UserUpdate) (password : String)
      (db : Database) {user : User} {db' : Database} {old : Models.User} {jti : Uuid}
      → IsConsistent db.tables
      → request.body ≡ some body
      → body.password ≡ none
      → body.role ≡ none
      → find_row (λ u. u.id =? pg_uuid request.user_id) db.users ≡ some old
      → c.compare_hash_and_password old.password_hash (password <> old.password_salt) ≡ ok tt
      → update_user (store_server collate c signer) env request db
        ≡ (ok (update_user_200_json user), db')
      → later.new_v7 ≡ ok jti
      → ((t : Claims) → (token : String) × (c.signed_string t signer.key ≡ ok token))
      → (role : UserRole) × (token : String) × (login
            (store_server collate c signer)
            later
            (record {
              body =
                  some (record { email = or_old body.email old.email; password = some password });
            })
            db'
          ≡ (
            ok (
                login_200_json (record {
                  token = token;
                  token_type = bearer;
                  expires_at = later.now + hour;
                  user = to_api_user (merged body db old) role;
                })),
            db',
          ))
  update_user-login env later request body password db {db' = db'} {old} consistent given
        no_password no_role found fits updated fresh signs =
      let s = store_server collate c signer in
      let (before, _, found_before, _, _, tables) =
        update_user-profile collate c signer env request body db given no_password no_role
          updated in
      let is_old : before ≡ old = cc (found_before, found) in
      let row = merged body db old in
      let rest = rows_except (λ u. u.id =? pg_uuid request.user_id) db.users in
      let stored : db'.tables ≡ record (db.tables) { users = row ∷ rest } =
        tables ∙ ap (λ o. record (db.tables) { users = merged body db o ∷ rest }) is_old in
      let kept : IsConsistent db'.tables =
        subst (λ r. IsConsistent r.1.tables) updated
          ((update_user-Keeps s env (store-QueriesKeep collate) request).at db consistent) in
      let refs = (subst IsConsistent stored kept).users.0 in
      let (role, joins) = find_row_complete (λ r. r.id =? row.role_id) db.roles refs.1 in
      let joins' : role_of db'.tables row ≡ some role = ap (λ t. role_of t row) stored ∙ joins in
      let (token, signed) = sign-some later (to_uuid row.id) role fresh signs in
      (
        role,
        token,
        login-row s later row.email password db' (record { user = row; user_role = role })
            (newest_by_email db' row rest (ap (λ t. t.users) stored) joins') fits signed,
      )
