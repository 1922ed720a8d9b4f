-- ===== src/Tests/Updates.antt =====
-- Ada changes her profile.
use kube_extauth_demo.Prelude.{String, ◌+◌, none, some, ◌∷◌, ◌≡◌, refl}
use kube_extauth_demo.Prelude.Tables.{find_row, rows_except, has_row, rows_where}
use kube_extauth_demo.Effect.{ok, pure, lift, check}
use kube_extauth_demo.Db.Models
use kube_extauth_demo.Db.Models.{UserRole, ◌=?◌}
use kube_extauth_demo.Db.Store.Base.{Database}
use kube_extauth_demo.Db.Store.Users as Rows
use kube_extauth_demo.Db.Store.Users.{user_violation}
use kube_extauth_demo.Db.Store.Roles.{get_role}
use kube_extauth_demo.Api.Types.{UserUpdate, bearer}
use kube_extauth_demo.Api.Mapping.{pg_uuid, to_api_user}
use kube_extauth_demo.Api.Requests.{UpdateUserRequestObject}
use kube_extauth_demo.Api.Users.{update_user, set_password, store_update, user_with_role}
use kube_extauth_demo.Auth.{hour}
use kube_extauth_demo.Api.Responses.Login.{login_200_json}
use kube_extauth_demo.Api.Login.{login}
use kube_extauth_demo.Api.Store.Profiles.{update_user-login}
use kube_extauth_demo.Tests.Database.{tables-IsConsistent}
use kube_extauth_demo.Api.Store.Merges.{merged}
use kube_extauth_demo.Api.Store.Updates.{update_user-profile}
use kube_extauth_demo.Tests.Fixtures.{database, toy_crypto, env, ada, admin_role}
use kube_extauth_demo.Tests.Requests.{server}

abbrev new_name : UserUpdate
new_name = record {
  avatar_url = none;
  bio = some "mathematician";
  email = none;
  first_name = none;
  last_name = some "Lovelace";
  password = none;
  role = none;
}

abbrev change_ada : UpdateUserRequestObject
change_ada = record { user_id = 7; body = some new_name }

abbrev changed : Database
changed = (update_user server env change_ada database).1

update_user-profile_example :
    (old : Models.User) × (role : UserRole) × (find_row (λ u. u.id =? pg_uuid 7) database.users
      ≡ some old)
    × (role.id ≡ old.role_id)
    × (to_api_user (merged new_name database ada) admin_role
        ≡ to_api_user (merged new_name database old) role)
    × (changed.tables ≡ record (database.tables) {
      users = merged new_name database old ∷ rows_except (λ u. u.id =? pg_uuid 7) database.users;
    })
unfolding update_user set_password store_update user_with_role get_role Rows.update_user
    user_violation find_row has_row rows_where ◌=?◌ check lift pure
update_user-profile_example =
    update_user-profile (λ roles. roles) toy_crypto (record { key = "key" }) env change_ada new_name
      database refl refl refl refl

update_user-login_example :
    (role : UserRole) × (token : String) × (login server env
        (record { body = some (record { email = "ada@example.com"; password = some "secret" }) })
        changed
      ≡ (
        ok (
            login_200_json (record {
              token = token;
              token_type = bearer;
              expires_at = env.now + hour;
              user = to_api_user (merged new_name database ada) role;
            })),
        changed,
      ))
unfolding update_user set_password store_update user_with_role get_role Rows.update_user
    user_violation find_row has_row rows_where ◌=?◌ check lift pure
update_user-login_example =
    update_user-login (λ roles. roles) toy_crypto (record { key = "key" }) env env change_ada
      new_name "secret" database tables-IsConsistent refl refl refl refl refl refl refl
      (λ t. (_, refl))
