-- ===== src/Tests/Database.antt =====
-- Statements on the small database.
use kube_extauth_demo.Prelude.{◌≡◌, refl, ◌∷◌, some, arith}
use kube_extauth_demo.Prelude.Tables.{has_row}
use kube_extauth_demo.Effect.{ok}
use kube_extauth_demo.Db.Models.{User, UserRole, ◌=?◌}
use kube_extauth_demo.Db.Params.{CreateUserParams}
use kube_extauth_demo.Db.Store.Base.{Database, written}
use kube_extauth_demo.Db.Store.Missing.{Table, delete_missing}
use kube_extauth_demo.Db.Store.Users.{
  user_violation, new_user, create_user, delete_user, get_user, get_user_by_email, role_of,
}
use kube_extauth_demo.Db.Store.Invariant.{IsConsistent}
use kube_extauth_demo.Db.Store.Accounts.{create_user-get}
use kube_extauth_demo.Tests.Fixtures.{id, null_text, tables, database}

pub tables-IsConsistent : IsConsistent tables
unfolding has_row ◌=?◌
tables-IsConsistent = ground arith

abbrev eve : CreateUserParams
eve = record {
  email = "eve@example.com";
  password_hash = "hash";
  password_salt = "salt";
  first_name = "Eve";
  last_name = "E";
  avatar_url = null_text;
  bio = null_text;
  role_id = id 2;
}

abbrev eves : User × Database
eves = (new_user eve database, (create_user eve database).1)

create_user-get_example :
    (new_user eve database ≡ new_user eve database)
    × (eves.1.tables ≡ record (database.tables) { users = eves.0 ∷ database.users })
    × ((role : UserRole) × (role_of database.tables eves.0 ≡ some role)
        × (get_user eves.0.id eves.1 ≡ (ok (record { user = eves.0; user_role = role }), eves.1))
        × (get_user_by_email eve.email eves.1
            ≡ (ok (record { user = eves.0; user_role = role }), eves.1)))
unfolding create_user user_violation has_row ◌=?◌
create_user-get_example = create_user-get eve database refl

-- No user has the id of the post.
delete_missing_example : delete_user (id 20) database ≡ (ok tt, written database database.tables)
unfolding has_row ◌=?◌
delete_missing_example = delete_missing Table.users (id 20) database refl
