-- ===== src/Api/Store/Updates.antt =====
-- What an update of a profile changes (UpdateUser of sample-api/pkg/openapi/user.go over the query of
-- pkg/db).
use kube_extauth_demo.Prelude.{
  ◌≡◌, refl, sym, ap, ◌∙◌, none, some, List, [], ◌∷◌, if◌then◌else◌, Option-cases, inl, inr, arith,
}
use kube_extauth_demo.Prelude.Tables.{find_row, rows_except}
use kube_extauth_demo.Prelude.Tables.Laws.{find_row_sound}
use kube_extauth_demo.Db.Store.Maps.Laws.{equal_ids}
use kube_extauth_demo.Effect.{Err, ok, pure, raise, lift, check}
use kube_extauth_demo.Effect.Outcomes.{pair-eq, check-eq-ok, bind-eq-ok}
use kube_extauth_demo.Db.Models
use kube_extauth_demo.Db.Models.{Uuid, PgUuid, PgText, UserRole, ◌=?◌}
use kube_extauth_demo.Db.Params.{UpdateUserParams}
use kube_extauth_demo.Db.Store.Base.{Database}
use kube_extauth_demo.Db.Store.Roles.{get_role}
use kube_extauth_demo.External.{Crypto, Env}
use kube_extauth_demo.Auth.{Signer}
use kube_extauth_demo.Api.Types.{User, UserUpdate, Error}
use kube_extauth_demo.Api.Mapping.{pg_uuid, to_api_user, is_not_found, is_unique_violation}
use kube_extauth_demo.Api.Requests.{UpdateUserRequestObject}
use kube_extauth_demo.Api.Responses.Users.{
  update_user_200_json, update_user_404_json, update_user_409_json,
}
use kube_extauth_demo.Api.Server.{Server, State}
use kube_extauth_demo.Api.Users.{
  update_user, update_params, store_update, user_with_role, set_password,
}
use kube_extauth_demo.Api.Store.Consistency.{store_server}
use kube_extauth_demo.Api.Store.Merges.{merged, stored_update}

module _ (s : Server) (env : Env) where
  update_user-profile_eq :
      (request : UpdateUserRequestObject) {body : UserUpdate}
      → request.body ≡ some body
      → body.password ≡ none
      → body.role ≡ none
      → (st : State s)
      → update_user s env request st ≡ store_update s env (update_params request body) st
  unfolding update_user lift check set_password
  update_user-profile_eq request given no_password no_role st =
      rw (given, update_user) (rw (no_password, set_password) (rw no_role refl))

  refused-neq :
      {user : User} {st' : State s} (m n : Error) (e : Err) (st : State s)
      → (if is_not_found e
            then pure (update_user_404_json m)
            else if is_unique_violation e
            then pure (update_user_409_json n)
            else raise e)
          st
        ≡ (ok (update_user_200_json user), st')
      → ⊥
  unfolding pure raise
  refused-neq m n e st h = ground arith

  store_update-eq-ok :
      (params : UpdateUserParams) (st : State s) {user : User} {st' : State s}
      → store_update s env params st ≡ (ok (update_user_200_json user), st')
      → (row : Models.User) × ((s.q.update_user params st).0 ≡ ok row)
        × (user_with_role s env row (s.q.update_user params st).1 ≡ (ok user, st'))
  unfolding store_update pure
  store_update-eq-ok params st {user} {st'} h = elim (check-eq-ok _ _ _ st h) [
    | inr (e, failed, refused) ↦ elim (refused-neq _ _ e _ refused) [ ]
    | inl (row, stored, rest) ↦
        let (found, read, returned) = bind-eq-ok (user_with_role s env row) _ _ rest in
        let same : found ≡ user = cc (ap (λ r. r.0) returned) in
        (row, stored, pair-eq _ (read ∙ ap (λ u. ok u) same) (ap (λ r. r.1) returned))
  ]

module _ (collate : List UserRole → List UserRole) (c : Crypto) (signer : Signer c)
    (env : Env) where
  user_with_role-eq-ok :
      (row : Models.User) (db : Database) {user : User} {db' : Database}
      → user_with_role (store_server collate c signer) env row db ≡ (ok user, db')
      → (role : UserRole) × (role.id ≡ row.role_id) × (user ≡ to_api_user row role) × (db' ≡ db)
  unfolding user_with_role check pure get_role
  user_with_role-eq-ok row db h =
      elim (Option-cases (find_row (λ r. r.id =? row.role_id) db.roles)) [
        | inl missing ↦
            let at = rw missing at h in
            (
              record { id = row.role_id; slug = ""; scopes = [] },
              refl,
              cc (ap (λ r. r.0) at),
              sym (ap (λ r. r.1) at),
            )
        | inr (role, found) ↦
            let at = rw found at h in
            (
              role,
              (equal_ids role.id row.role_id (find_row_sound _ db.roles found)).0,
              cc (ap (λ r. r.0) at),
              sym (ap (λ r. r.1) at),
            )
      ]

  -- An update of a profile, without a password or a role, that UpdateUser answers with 200 replaces
  -- the user with the id of the path by the same user with the fields that the request has, and with
  -- the time of the update: a field that the request does not have, the id, the role, the hash and the
  -- salt of the password and the time of creation stay as they were, and so does every other row of
  -- every table. The answer is the new row, with its role.
  pub update_user-profile :
      (request : UpdateUserRequestObject) (body : UserUpdate) (db : Database) {user : User}
      {db' : Database}
      → request.body ≡ some body
      → body.password ≡ none
      → body.role ≡ none
      → update_user (store_server collate c signer) env request db
        ≡ (ok (update_user_200_json user), db')
      → (old : Models.User) × (role : UserRole) × (find_row
            (λ u. u.id =? pg_uuid request.user_id)
            db.users
          ≡ some old)
        × (role.id ≡ old.role_id)
        × (user ≡ to_api_user (merged body db old) role)
        × (db'.tables ≡ record (db.tables) {
          users = merged body db old ∷ rows_except (λ u. u.id =? pg_uuid request.user_id) db.users;
        })
  update_user-profile request body db given no_password no_role h =
      let s = store_server collate c signer in
      let (row, stored, answered) =
        store_update-eq-ok s env (update_params request body) db
          (sym (update_user-profile_eq s env request given no_password no_role db) ∙ h) in
      let (old, found, is_row, is_db) = stored_update request body db stored in
      let (role, is_role, is_user, same) = user_with_role-eq-ok row _ answered in
      (
        old,
        role,
        found,
        is_role ∙ ap (λ r. r.role_id) is_row,
        is_user ∙ ap (λ r. to_api_user r role) is_row,
        ap (λ d. d.tables) (same ∙ is_db)
            ∙ ap
                (λ r. record (db.tables) {
                  users = r ∷ rows_except (λ u. u.id =? pg_uuid request.user_id) db.users;
                })
                is_row,
      )
