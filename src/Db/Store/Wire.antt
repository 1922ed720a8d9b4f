-- ===== src/Db/Store/Wire.antt =====
-- The tables behind a DBTX: what pgx and PostgreSQL answer to the statements that
-- sample-api/pkg/db/query.sql.go sends, with the arguments read and the rows written as columns.
pub mod Arguments
pub mod Columns
pub mod Reads
pub mod UserMethods
pub mod PostMethods
pub mod Refines
use kube_extauth_demo.Prelude.{Option, none, some, List, map}
use kube_extauth_demo.Effect.{Err, other, Result, err, Exec, map_ok}
use kube_extauth_demo.Db.Models.{UserRole}
use kube_extauth_demo.Db.Client
use kube_extauth_demo.Db.Client.{Value, Statement, Rows, Dbtx}
use kube_extauth_demo.Db.Store.Base.{Database}
use kube_extauth_demo.Db.Store.Roles.{get_role, get_role_by_slug, list_roles}
use kube_extauth_demo.Db.Store.Users
use kube_extauth_demo.Db.Store.Posts
use kube_extauth_demo.Db.Store.Comments
use kube_extauth_demo.Db.Store.Wire.Arguments
use kube_extauth_demo.Db.Store.Wire.Columns.{
  user_columns, role_columns, post_columns, comment_columns, count_columns, user_with_role_columns,
  post_with_count_columns,
}

abbrev pub bad_arguments : Err
bad_arguments = other "wrong arguments"

abbrev pub wrong_call : Err
wrong_call = other "not a statement of this kind"

module _ {P A B : Type 0} where
  -- A statement run with the arguments that it reads.
  abbrev pub answer : Option P → (P → Exec Database A) → (A → B) → Exec Database B
  answer none run columns db = (err bad_arguments, db)
  answer (some arg) run columns db = map_ok columns (run arg db)

abbrev pub all_rows : {A : Type 0} → (A → List Value) → List A → Rows
all_rows columns rows = record { rows = map columns rows; last_err = none }

unfoldable pub exec : Statement → List Value → Exec Database (Unit {0})
exec Client.delete_comment args = answer (Arguments.id_arg args) Comments.delete_comment (λ t. t)
exec Client.delete_post args = answer (Arguments.id_arg args) Posts.delete_post (λ t. t)
exec Client.delete_user args = answer (Arguments.id_arg args) Users.delete_user (λ t. t)
exec _ args = λ db. (err wrong_call, db)

unfoldable pub query : (List UserRole → List UserRole) → Statement → List Value → Exec Database Rows
query collate Client.list_comments args =
    answer (Arguments.list_comments_args args) Comments.list_comments (all_rows comment_columns)
query collate Client.list_posts args =
    answer (Arguments.list_posts_args args) Posts.list_posts
      (all_rows (λ row. post_with_count_columns row.post row.comment_count))
query collate Client.list_roles args =
    answer (Arguments.no_args args) (λ _. list_roles collate) (all_rows role_columns)
query collate Client.list_users args =
    answer (Arguments.list_users_args args) Users.list_users
      (all_rows (λ row. user_with_role_columns row.user row.user_role))
query collate _ args = λ db. (err wrong_call, db)

unfoldable pub query_row : Statement → List Value → Exec Database (List Value)
query_row Client.count_comments args =
    answer (Arguments.id_arg args) Comments.count_comments count_columns
query_row Client.count_posts args =
    answer (Arguments.count_posts_args args) Posts.count_posts count_columns
query_row Client.count_users args =
    answer (Arguments.no_args args) (λ _. Users.count_users) count_columns
query_row Client.create_comment args =
    answer (Arguments.create_comment_args args) Comments.create_comment comment_columns
query_row Client.create_post args =
    answer (Arguments.create_post_args args) Posts.create_post post_columns
query_row Client.create_user args =
    answer (Arguments.create_user_args args) Users.create_user user_columns
query_row Client.get_comment args =
    answer (Arguments.id_arg args) Comments.get_comment comment_columns
query_row Client.get_post args =
    answer (Arguments.id_arg args) Posts.get_post
      (λ row. post_with_count_columns row.post row.comment_count)
query_row Client.get_role args = answer (Arguments.id_arg args) get_role role_columns
query_row Client.get_role_by_slug args =
    answer (Arguments.string_arg args) get_role_by_slug role_columns
query_row Client.get_user args =
    answer (Arguments.id_arg args) Users.get_user
      (λ row. user_with_role_columns row.user row.user_role)
query_row Client.get_user_by_email args =
    answer (Arguments.string_arg args) Users.get_user_by_email
      (λ row. user_with_role_columns row.user row.user_role)
query_row Client.replace_post args =
    answer (Arguments.replace_post_args args) Posts.replace_post post_columns
query_row Client.replace_user args =
    answer (Arguments.replace_user_args args) Users.replace_user user_columns
query_row Client.update_comment args =
    answer (Arguments.update_comment_args args) Comments.update_comment comment_columns
query_row Client.update_user args =
    answer (Arguments.update_user_args args) Users.update_user user_columns
query_row _ args = λ db. (err wrong_call, db)

-- `collate` sorts the roles by slug, in the order of the database's collation.
abbrev pub tables_dbtx : (List UserRole → List UserRole) → Dbtx
tables_dbtx collate = record {
  State = Database;
  exec = exec;
  query = query collate;
  query_row = query_row;
}
