-- ===== src/Db/Store/Wire/UserMethods.antt =====
-- The methods on users and roles of sample-api/pkg/db/query.sql.go over the connection against the
-- statements over the tables.
use kube_extauth_demo.Prelude.{◌≡◌, refl, String, List}
use kube_extauth_demo.Db.Models.{PgUuid, UserRole}
use kube_extauth_demo.Db.Params.{
  CreateUserParams, ListUsersParams, ReplaceUserParams, UpdateUserParams,
}
use kube_extauth_demo.Db.Client.{one, many}
use kube_extauth_demo.Db.Client.Scan.{
  take_count, all, scan_user, scan_role, scan_count, scan_user_with_role, get_user_row,
  get_user_by_email_row, list_users_row,
}
use kube_extauth_demo.Db.Client.Methods
use kube_extauth_demo.Db.Client.Methods.{new}
use kube_extauth_demo.Db.Store.Base.{Database}
use kube_extauth_demo.Db.Store.Roles.{get_role, get_role_by_slug, list_roles}
use kube_extauth_demo.Db.Store.Users
use kube_extauth_demo.Db.Store.Wire.{tables_dbtx, query, query_row, exec}
use kube_extauth_demo.Db.Store.Wire.Arguments
use kube_extauth_demo.Db.Store.Wire.Columns.{
  user_columns, role_columns, count_columns, user_with_role_columns,
}
use kube_extauth_demo.Db.Store.Wire.Reads.{
  check-columns, check-all_rows, map_ok_id, scan-user_columns, scan-role_columns,
  scan-user_with_role_columns,
}

module _ (collate : List UserRole → List UserRole) where
  pub count_users-tables :
      (db : Database) → Methods.count_users (tables_dbtx collate) db ≡ Users.count_users db
  unfolding one query_row Arguments.no_args all take_count
  count_users-tables db = check-columns scan_count count_columns (λ _. refl) Users.count_users db

  pub create_user-tables :
      (arg : CreateUserParams) (db : Database)
      → Methods.create_user (tables_dbtx collate) arg db ≡ Users.create_user arg db
  unfolding one query_row Arguments.create_user_args
  create_user-tables arg db =
      check-columns scan_user user_columns scan-user_columns (Users.create_user arg) db

  pub delete_user-tables :
      (id : PgUuid) (db : Database)
      → Methods.delete_user (tables_dbtx collate) id db ≡ Users.delete_user id db
  unfolding exec Arguments.id_arg
  delete_user-tables id db = map_ok_id (Users.delete_user id db)

  pub get_user-tables :
      (id : PgUuid) (db : Database)
      → Methods.get_user (tables_dbtx collate) id db ≡ Users.get_user id db
  unfolding one query_row Arguments.id_arg
  get_user-tables id db =
      check-columns (scan_user_with_role get_user_row)
        (λ row. user_with_role_columns row.user row.user_role)
        (λ row. scan-user_with_role_columns get_user_row row.user row.user_role) (Users.get_user id)
        db

  pub get_user_by_email-tables :
      (s : String) (db : Database)
      → Methods.get_user_by_email (tables_dbtx collate) s db ≡ Users.get_user_by_email s db
  unfolding one query_row Arguments.string_arg
  get_user_by_email-tables s db =
      check-columns (scan_user_with_role get_user_by_email_row)
        (λ row. user_with_role_columns row.user row.user_role)
        (λ row. scan-user_with_role_columns get_user_by_email_row row.user row.user_role)
        (Users.get_user_by_email s) db

  pub list_users-tables :
      (arg : ListUsersParams) (db : Database)
      → Methods.list_users (tables_dbtx collate) arg db ≡ Users.list_users arg db
  unfolding many query Arguments.list_users_args
  list_users-tables arg db =
      check-all_rows (scan_user_with_role list_users_row)
        (λ row. user_with_role_columns row.user row.user_role)
        (λ row. scan-user_with_role_columns list_users_row row.user row.user_role)
        (Users.list_users arg) db

  pub replace_user-tables :
      (arg : ReplaceUserParams) (db : Database)
      → Methods.replace_user (tables_dbtx collate) arg db ≡ Users.replace_user arg db
  unfolding one query_row Arguments.replace_user_args
  replace_user-tables arg db =
      check-columns scan_user user_columns scan-user_columns (Users.replace_user arg) db

  pub update_user-tables :
      (arg : UpdateUserParams) (db : Database)
      → Methods.update_user (tables_dbtx collate) arg db ≡ Users.update_user arg db
  unfolding one query_row Arguments.update_user_args
  update_user-tables arg db =
      check-columns scan_user user_columns scan-user_columns (Users.update_user arg) db

  pub get_role-tables :
      (id : PgUuid) (db : Database) → Methods.get_role (tables_dbtx collate) id db ≡ get_role id db
  unfolding one query_row Arguments.id_arg
  get_role-tables id db = check-columns scan_role role_columns scan-role_columns (get_role id) db

  pub get_role_by_slug-tables :
      (s : String) (db : Database)
      → Methods.get_role_by_slug (tables_dbtx collate) s db ≡ get_role_by_slug s db
  unfolding one query_row Arguments.string_arg
  get_role_by_slug-tables s db =
      check-columns scan_role role_columns scan-role_columns (get_role_by_slug s) db

  pub list_roles-tables :
      (db : Database) → Methods.list_roles (tables_dbtx collate) db ≡ list_roles collate db
  unfolding many query Arguments.no_args
  list_roles-tables db =
      check-all_rows scan_role role_columns scan-role_columns (list_roles collate) db
