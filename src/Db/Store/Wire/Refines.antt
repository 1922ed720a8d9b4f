-- ===== src/Db/Store/Wire/Refines.antt =====
-- `New` of sample-api/pkg/db/db.go over a connection that answers from the tables.
use kube_extauth_demo.Prelude.{◌≡◌, List}
use kube_extauth_demo.Db.Models.{UserRole}
use kube_extauth_demo.Db.Queries.{Queries}
use kube_extauth_demo.Db.Client.Methods.{new}
use kube_extauth_demo.Db.Store.Base.{Database}
use kube_extauth_demo.Db.Store.Connection.{store}
use kube_extauth_demo.Db.Store.Wire.{tables_dbtx}
use kube_extauth_demo.Db.Store.Wire.UserMethods.{
  count_users-tables, create_user-tables, delete_user-tables, get_user-tables,
  get_user_by_email-tables, list_users-tables, replace_user-tables, update_user-tables,
  get_role-tables, get_role_by_slug-tables, list_roles-tables,
}
use kube_extauth_demo.Db.Store.Wire.PostMethods.{
  count_posts-tables, create_post-tables, delete_post-tables, get_post-tables, list_posts-tables,
  replace_post-tables, count_comments-tables, create_comment-tables, delete_comment-tables,
  get_comment-tables, list_comments-tables, update_comment-tables,
}

module _ (collate : List UserRole → List UserRole) where
  -- The line from the methods over the connection to the statements over the tables.
  abbrev pub along : (i : 𝕀) → Queries
  along i = record {
    State = Database;
    count_comments = λ id db. count_comments-tables collate id db i;
    count_posts = λ arg db. count_posts-tables collate arg db i;
    count_users = λ db. count_users-tables collate db i;
    create_comment = λ arg db. create_comment-tables collate arg db i;
    create_post = λ arg db. create_post-tables collate arg db i;
    create_user = λ arg db. create_user-tables collate arg db i;
    delete_comment = λ id db. delete_comment-tables collate id db i;
    delete_post = λ id db. delete_post-tables collate id db i;
    delete_user = λ id db. delete_user-tables collate id db i;
    get_comment = λ id db. get_comment-tables collate id db i;
    get_post = λ id db. get_post-tables collate id db i;
    get_role = λ id db. get_role-tables collate id db i;
    get_role_by_slug = λ s db. get_role_by_slug-tables collate s db i;
    get_user = λ id db. get_user-tables collate id db i;
    get_user_by_email = λ s db. get_user_by_email-tables collate s db i;
    list_comments = λ arg db. list_comments-tables collate arg db i;
    list_posts = λ arg db. list_posts-tables collate arg db i;
    list_roles = λ db. list_roles-tables collate db i;
    list_users = λ arg db. list_users-tables collate arg db i;
    replace_post = λ arg db. replace_post-tables collate arg db i;
    replace_user = λ arg db. replace_user-tables collate arg db i;
    update_comment = λ arg db. update_comment-tables collate arg db i;
    update_user = λ arg db. update_user-tables collate arg db i;
  }

  -- The methods of `Queries` that `New` builds over a DBTX do exactly what the statements do over
  -- the tables, for a DBTX that answers every statement from the tables: each sends its own
  -- statement, with the arguments where the text of the statement reads them, and scans each
  -- column into the field that it was selected for.
  pub new-store : new (tables_dbtx collate) ≡ store collate
  new-store = λ i. along i
