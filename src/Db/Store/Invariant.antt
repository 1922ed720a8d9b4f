-- ===== src/Db/Store/Invariant.antt =====
-- The constraints of the schema as an invariant of the tables: present and distinct primary keys,
-- distinct emails, slugs of posts, and references to rows that are there.
pub mod Users
pub mod Posts
pub mod Comments
use kube_extauth_demo.Prelude.{◌≡◌, refl, Bool, true, ◌==◌, string_eq, List, Option, none, some}
use kube_extauth_demo.Prelude.Tables.{has_row, All, Distinct}
use kube_extauth_demo.Db.Models.{PgUuid, User, UserRole, Post, Comment, ◌=?◌}
use kube_extauth_demo.Db.Store.Base.{Tables, Database, store_row}
use kube_extauth_demo.Effect.{Err, Result}

abbrev pub same_role : UserRole → UserRole → Bool
same_role r s = s.id =? r.id

abbrev pub same_user : User → User → Bool
same_user u v = v.id =? u.id

abbrev pub same_email : User → User → Bool
same_email u v = v.email == u.email

abbrev pub same_post : Post → Post → Bool
same_post p q = q.id =? p.id

abbrev pub same_slug : Post → Post → Bool
same_slug p q = q.slug == p.slug

abbrev pub same_comment : Comment → Comment → Bool
same_comment c d = d.id =? c.id

-- Whether a table has the row with an id.
abbrev pub has_role : List UserRole → PgUuid → Bool
has_role roles id = has_row (λ r. r.id =? id) roles

abbrev pub has_user : List User → PgUuid → Bool
has_user users id = has_row (λ u. u.id =? id) users

abbrev pub has_post : List Post → PgUuid → Bool
has_post posts id = has_row (λ p. p.id =? id) posts

abbrev pub UserRefs : List UserRole → User → Type 0
UserRefs roles u = (u.id.valid ≡ true) × (has_role roles u.role_id ≡ true)

abbrev pub PostRefs : List User → Post → Type 0
PostRefs users p = (p.id.valid ≡ true) × (has_user users p.author_id ≡ true)

abbrev pub CommentRefs : List User → List Post → Comment → Type 0
CommentRefs users posts c =
    (c.id.valid ≡ true) × (has_post posts c.post_id ≡ true) × (has_user users c.author_id ≡ true)

pub record IsConsistent (t : Tables) : Type 0 where
  pub user_ids : Distinct same_user t.users
  pub emails : Distinct same_email t.users
  pub post_ids : Distinct same_post t.posts
  pub slugs : Distinct same_slug t.posts
  pub comment_ids : Distinct same_comment t.comments
  pub users : All (UserRefs t.roles) t.users
  pub posts : All (PostRefs t.users) t.posts
  pub comments : All (CommentRefs t.users t.posts) t.comments

-- What holds of the tables before a statement that stores a row, and of the new tables if no
-- constraint is violated, holds after it.
pub store_row-tables {ℓ} :
    {A : Type ℓ} (P : Tables → Type 0) (db : Database) (violation : Option Err) (row : A)
    (t : Tables)
    → P db.tables
    → (violation ≡ none → P t)
    → P (store_row db violation row t).1.tables
store_row-tables P db none row t old new = new refl
store_row-tables P db (some e) row t old new = old
