-- ===== src/Db/Store/Connection.antt =====
-- `Queries` over the tables: the database behind a connection that does not fail.
use kube_extauth_demo.Prelude.{List}
use kube_extauth_demo.Db.Models.{UserRole}
use kube_extauth_demo.Db.Queries.{Queries}
use kube_extauth_demo.Db.Store.Base.{Database}
use kube_extauth_demo.Db.Store.Roles.{get_role, get_role_by_slug, list_roles}
use kube_extauth_demo.Db.Store.Users
use kube_extauth_demo.Db.Store.Posts
use kube_extauth_demo.Db.Store.Comments

-- `collate` sorts the roles by slug, in the order of the database's collation.
abbrev pub store : (List UserRole → List UserRole) → Queries
store collate = record {
  State = Database;
  count_comments = Comments.count_comments;
  count_posts = Posts.count_posts;
  count_users = Users.count_users;
  create_comment = Comments.create_comment;
  create_post = Posts.create_post;
  create_user = Users.create_user;
  delete_comment = Comments.delete_comment;
  delete_post = Posts.delete_post;
  delete_user = Users.delete_user;
  get_comment = Comments.get_comment;
  get_post = Posts.get_post;
  get_role = get_role;
  get_role_by_slug = get_role_by_slug;
  get_user = Users.get_user;
  get_user_by_email = Users.get_user_by_email;
  list_comments = Comments.list_comments;
  list_posts = Posts.list_posts;
  list_roles = list_roles collate;
  list_users = Users.list_users;
  replace_post = Posts.replace_post;
  replace_user = Users.replace_user;
  update_comment = Comments.update_comment;
  update_user = Users.update_user;
}
