-- ===== src/Db/Store/Keeps.antt =====
-- The queries over the tables keep the constraints of the schema, and those that read change
-- nothing.
use kube_extauth_demo.Prelude.{List}
use kube_extauth_demo.Db.Models.{UserRole}
use kube_extauth_demo.Db.Queries.Keeps.{ReadsKeep, QueriesKeep}
use kube_extauth_demo.Db.Store.Base.{Database}
use kube_extauth_demo.Db.Store.Connection.{store}
use kube_extauth_demo.Db.Store.Roles.{get_role, get_role_by_slug, list_roles}
use kube_extauth_demo.Db.Store.Users.{count_users, get_user, get_user_by_email, list_users}
use kube_extauth_demo.Db.Store.Posts.{count_posts, get_post, list_posts}
use kube_extauth_demo.Db.Store.Comments.{count_comments, get_comment, list_comments}
use kube_extauth_demo.Db.Store.Invariant.{IsConsistent}
use kube_extauth_demo.Db.Store.Invariant.Users.{
  create_user-IsConsistent, replace_user-IsConsistent, update_user-IsConsistent,
  delete_user-IsConsistent,
}
use kube_extauth_demo.Db.Store.Invariant.Posts.{
  create_post-IsConsistent, replace_post-IsConsistent, delete_post-IsConsistent,
}
use kube_extauth_demo.Db.Store.Invariant.Comments.{
  create_comment-IsConsistent, update_comment-IsConsistent, delete_comment-IsConsistent,
}

module _ (collate : List UserRole → List UserRole) where
  -- A query that reads keeps whatever holds of the database.
  pub store-ReadsKeep {κ} : (P : Database → Type κ) → ReadsKeep (store collate) P
  unfolding count_users get_user get_user_by_email list_users count_posts get_post list_posts
      count_comments get_comment list_comments get_role get_role_by_slug list_roles
  store-ReadsKeep P = record {
    count_comments = λ id. record { at = λ db h. h };
    count_posts = λ arg. record { at = λ db h. h };
    count_users = record { at = λ db h. h };
    get_comment = λ id. record { at = λ db h. h };
    get_post = λ id. record { at = λ db h. h };
    get_role = λ id. record { at = λ db h. h };
    get_role_by_slug = λ slug. record { at = λ db h. h };
    get_user = λ id. record { at = λ db h. h };
    get_user_by_email = λ email. record { at = λ db h. h };
    list_comments = λ arg. record { at = λ db h. h };
    list_posts = λ arg. record { at = λ db h. h };
    list_roles = record { at = λ db h. h };
    list_users = λ arg. record { at = λ db h. h };
  }

  pub store-QueriesKeep : QueriesKeep (store collate) (λ db. IsConsistent db.tables)
  store-QueriesKeep = record {
    reads = store-ReadsKeep _;
    create_comment = λ arg. record { at = create_comment-IsConsistent arg };
    create_post = λ arg. record { at = create_post-IsConsistent arg };
    create_user = λ arg. record { at = create_user-IsConsistent arg };
    delete_comment = λ id. record { at = delete_comment-IsConsistent id };
    delete_post = λ id. record { at = delete_post-IsConsistent id };
    delete_user = λ id. record { at = delete_user-IsConsistent id };
    replace_post = λ arg. record { at = replace_post-IsConsistent arg };
    replace_user = λ arg. record { at = replace_user-IsConsistent arg };
    update_comment = λ arg. record { at = update_comment-IsConsistent arg };
    update_user = λ arg. record { at = update_user-IsConsistent arg };
  }
