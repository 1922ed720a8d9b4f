-- ===== src/Db/Store/Users.antt =====
-- The statements on users.
use kube_extauth_demo.Prelude.{
  ℕ, String, Bool, Option, none, some, List, [], ◌∷◌, ◌==◌, string_eq, not, ◌&&◌, ◌||◌,
  if◌then◌else◌,
}
use kube_extauth_demo.Prelude.Lists.{length}
use kube_extauth_demo.Prelude.Tables.{find_row, rows_where, rows_except, has_row, order_by}
use mathlib.Core.List.{reverse}
use kube_extauth_demo.Effect.{Err, no_rows, Result, ok, err, Exec}
use kube_extauth_demo.Db.Models.{PgUuid, User, UserRole, Post, Comment, ◌=?◌}
use kube_extauth_demo.Db.Params.{
  CreateUserParams, GetUserRow, GetUserByEmailRow, ListUsersParams, ListUsersRow, ReplaceUserParams,
  UpdateUserParams,
}
use kube_extauth_demo.Db.Store.Base.{
  Tables, Database, not_null_violation, foreign_key_violation, unique_violation, pg_now, pg_new_id,
  written, store_row, scan_one, window, coalesce_text, coalesce_nullable, coalesce_uuid,
}

-- The constraints of the table on a row beside the rows `rest`, in the order of their checks.
unfoldable pub user_violation : Tables → List User → User → Option Err
user_violation t rest u =
    if not (u.id.valid && u.role_id.valid)
    then some not_null_violation
    else if has_row (λ v. v.id =? u.id) rest || has_row (λ v. v.email == u.email) rest
    then some unique_violation
    else if has_row (λ r. r.id =? u.role_id) t.roles
    then none
    else some foreign_key_violation

unfoldable pub count_users : Exec Database ℕ
count_users db = (ok (length db.users), db)

-- The row that CreateUser stores, with the defaults of the columns that it does not name.
abbrev pub new_user : CreateUserParams → Database → User
new_user arg db = record {
  id = pg_new_id db;
  email = arg.email;
  password_hash = arg.password_hash;
  password_salt = arg.password_salt;
  first_name = arg.first_name;
  last_name = arg.last_name;
  avatar_url = arg.avatar_url;
  bio = arg.bio;
  role_id = arg.role_id;
  created_at = pg_now db;
  updated_at = pg_now db;
}

unfoldable pub create_user : CreateUserParams → Exec Database User
unfolding user_violation
create_user arg db =
    let row = new_user arg db in
    store_row db (user_violation db.tables db.users row) row
      (record (db.tables) { users = row ∷ db.users })

-- The rows that go with deleted users: by ON DELETE CASCADE their posts, their comments and the
-- comments on those posts.
abbrev pub posts_of : List User → Post → Bool
posts_of gone p = has_row (λ u. u.id =? p.author_id) gone

abbrev pub comments_of : List User → List Post → Comment → Bool
comments_of users posts c =
    has_row (λ u. u.id =? c.author_id) users || has_row (λ p. p.id =? c.post_id) posts

unfoldable pub delete_user : PgUuid → Exec Database (Unit {0})
delete_user id db =
    let gone = rows_where (λ u. u.id =? id) db.users in
    let gone_posts = rows_where (posts_of gone) db.posts in
    (
      ok tt,
      written db (record (db.tables) {
        users = rows_except (λ u. u.id =? id) db.users;
        posts = rows_except (posts_of gone) db.posts;
        comments = rows_except (comments_of gone gone_posts) db.comments;
      }),
    )

-- JOIN user_roles ON user_roles.id = users.role_id
abbrev pub role_of : Tables → User → Option UserRole
role_of t u = find_row (λ r. r.id =? u.role_id) t.roles

-- The rows of the join, from the first user that a condition selects.
abbrev pub joined : Option User → Tables → Option (User × UserRole)
joined none t = none
joined (some u) t = elim (role_of t u) [ none ↦ none | some r ↦ some (u, r) ]

abbrev pub get_user_row : Option (User × UserRole) → Option GetUserRow
get_user_row none = none
get_user_row (some (u, r)) = some (record { user = u; user_role = r })

unfoldable pub get_user : PgUuid → Exec Database GetUserRow
get_user id db =
    (scan_one (get_user_row (joined (find_row (λ u. u.id =? id) db.users) db.tables)), db)

abbrev pub get_user_by_email_row : Option (User × UserRole) → Option GetUserByEmailRow
get_user_by_email_row none = none
get_user_by_email_row (some (u, r)) = some (record { user = u; user_role = r })

unfoldable pub get_user_by_email : String → Exec Database GetUserByEmailRow
get_user_by_email email db = (
  scan_one (get_user_by_email_row (joined (find_row (λ u. u.email == email) db.users) db.tables)),
  db,
)

abbrev pub with_role : Option UserRole → User → List ListUsersRow → List ListUsersRow
with_role none u rows = rows
with_role (some r) u rows = record { user = u; user_role = r } ∷ rows

unfoldable pub join_roles : Tables → List User → List ListUsersRow
join_roles t [] = []
join_roles t (u ∷ us) = with_role (role_of t u) u (join_roles t us)

unfoldable pub list_users : ListUsersParams → Exec Database (List ListUsersRow)
unfolding join_roles
list_users arg db =
    let rows =
      reverse (order_by (λ row. row.user.created_at.time) (join_roles db.tables db.users)) in
    (window arg.limit arg.offset rows, db)

-- UPDATE … WHERE id = $1 RETURNING …: `old` is the row with the id and `row` what becomes of it.
abbrev pub update_row : Database → PgUuid → Option User → (User → User) → Result User × Database
update_row db id none change = (err no_rows, written db db.tables)
update_row db id (some old) change =
    let row = change old in
    let rest = rows_except (λ u. u.id =? id) db.users in
    store_row db (user_violation db.tables rest row) row (record (db.tables) { users = row ∷ rest })

unfoldable pub replace_user : ReplaceUserParams → Exec Database User
unfolding user_violation
replace_user arg db = update_row db arg.id (find_row (λ u. u.id =? arg.id) db.users) λ old.
    record old {
      email = arg.email;
      password_hash = arg.password_hash;
      password_salt = arg.password_salt;
      first_name = arg.first_name;
      last_name = arg.last_name;
      avatar_url = arg.avatar_url;
      bio = arg.bio;
      role_id = arg.role_id;
      updated_at = pg_now db;
    }

unfoldable pub update_user : UpdateUserParams → Exec Database User
unfolding user_violation
update_user arg db = update_row db arg.id (find_row (λ u. u.id =? arg.id) db.users) λ old.
    record old {
      email = coalesce_text arg.email old.email;
      password_hash = coalesce_text arg.password_hash old.password_hash;
      password_salt = coalesce_text arg.password_salt old.password_salt;
      first_name = coalesce_text arg.first_name old.first_name;
      last_name = coalesce_text arg.last_name old.last_name;
      avatar_url = coalesce_nullable arg.avatar_url old.avatar_url;
      bio = coalesce_nullable arg.bio old.bio;
      role_id = coalesce_uuid arg.role_id old.role_id;
      updated_at = pg_now db;
    }
