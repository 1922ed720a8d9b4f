-- ===== src/Db/Store/Maps/Stores.antt =====
-- The statements that store a row, as operations on the maps.
use kube_extauth_demo.Prelude.{Option, none, nat_eq, ◌≡◌, refl, Bool-cases, Option-cases, inl, inr}
use kube_extauth_demo.Prelude.Tables.{find_row}
use kube_extauth_demo.Effect.{map_ok, Err}
use kube_extauth_demo.Db.Models.{Uuid, PgUuid, User, Post, Comment, is_post_status, ◌=?◌}
use kube_extauth_demo.Db.Params.{
  CreateUserParams, CreatePostParams, ReplacePostParams, CreateCommentParams,
}
use kube_extauth_demo.Db.Store.Base.{Tables, Database, store_row}
use kube_extauth_demo.Db.Store.Users as UserRows
use kube_extauth_demo.Db.Store.Posts as PostRows
use kube_extauth_demo.Db.Store.Comments as CommentRows
use kube_extauth_demo.Db.Store.Maps.{Maps, maps}
use kube_extauth_demo.Db.Store.Maps.Laws.{view-cons, view-update}
use kube_extauth_demo.Db.Store.Maps.Writes.{
  Write, create_user, create_post, replace_post, create_comment, Row, user_row, post_row,
  comment_row, execute, put_row, drop, effect,
}

-- Maps are the same if they have the same rows.
pub Maps-eq :
    (m n : Maps)
    → ((k : Uuid) → m.users k ≡ n.users k)
    → ((k : Uuid) → m.posts k ≡ n.posts k)
    → ((k : Uuid) → m.comments k ≡ n.comments k)
    → m ≡ n
Maps-eq m n u p c = λ i. record { users = λ k. u k i; posts = λ k. p k i; comments = λ k. c k i }

module _ {ℓ} {A : Type ℓ} (row_of : A → Row) (violation : Option Err) (row : A)
    (db : Database) where
  -- The end of a statement that stores a row.
  store_row-maps :
      (w : Write) (t : Tables)
      → (violation ≡ none → maps t ≡ put_row (row_of row) (drop w (maps db.tables)))
      → maps (map_ok row_of (store_row db violation row t)).1.tables
        ≡ effect w (map_ok row_of (store_row db violation row t)).0 (maps db.tables)
  unfolding effect
  store_row-maps w t stored = elim (Option-cases violation) [
    | inl fine ↦ rw fine (stored fine)
    | inr (e, bad) ↦ rw bad refl
  ]

pub create_user-maps :
    (arg : CreateUserParams) (db : Database)
    → maps (execute (create_user arg) db).1.tables
      ≡ effect (create_user arg) (execute (create_user arg) db).0 (maps db.tables)
unfolding execute UserRows.create_user maps
create_user-maps arg db =
    store_row-maps user_row _ (UserRows.new_user arg db) db (create_user arg) _
      (λ fine. Maps-eq _ _ (λ k. view-cons _ _ db.users k refl) (λ k. refl) (λ k. refl))

pub create_post-maps :
    (arg : CreatePostParams) (db : Database)
    → maps (execute (create_post arg) db).1.tables
      ≡ effect (create_post arg) (execute (create_post arg) db).0 (maps db.tables)
unfolding execute PostRows.create_post maps
create_post-maps arg db =
    store_row-maps post_row _ (PostRows.new_post arg db) db (create_post arg) _
      (λ fine. Maps-eq _ _ (λ k. refl) (λ k. view-cons _ _ db.posts k refl) (λ k. refl))

pub create_comment-maps :
    (arg : CreateCommentParams) (db : Database)
    → maps (execute (create_comment arg) db).1.tables
      ≡ effect (create_comment arg) (execute (create_comment arg) db).0 (maps db.tables)
unfolding execute CommentRows.create_comment maps
create_comment-maps arg db =
    store_row-maps comment_row _ (CommentRows.new_comment arg db) db (create_comment arg) _
      (λ fine. Maps-eq _ _ (λ k. refl) (λ k. refl) (λ k. view-cons _ _ db.comments k refl))

module _ (w : Write) (plain : (m : Maps) → drop w m ≡ m) (db : Database) (id : PgUuid) where
  pub update_users-maps :
      (change : User → User)
      → ((old : User) → (change old).id ≡ old.id)
      → maps
          (map_ok user_row
            (UserRows.update_row db id (find_row (λ u. u.id =? id) db.users) change)).1.tables
        ≡ effect w
            (map_ok user_row
              (UserRows.update_row db id (find_row (λ u. u.id =? id) db.users) change)).0
            (maps db.tables)
  unfolding maps effect
  update_users-maps change same = elim (Option-cases (find_row (λ u. u.id =? id) db.users)) [
    | inl missing ↦ rw missing refl
    | inr (old, found) ↦ rw found (
        store_row-maps user_row _ (change old) db w _ (λ fine. rw (plain (maps db.tables)) (
          Maps-eq _ _ (λ k. view-update (λ u. u.id) db.users id (change old) k found (same old))
            (λ k. refl) (λ k. refl))))
  ]

  pub update_posts-maps :
      (change : Post → Post)
      → ((old : Post) → (change old).id ≡ old.id)
      → maps
          (map_ok post_row
            (PostRows.update_row db id (find_row (λ p. p.id =? id) db.posts) change)).1.tables
        ≡ effect w
            (map_ok post_row
              (PostRows.update_row db id (find_row (λ p. p.id =? id) db.posts) change)).0
            (maps db.tables)
  unfolding maps effect
  update_posts-maps change same = elim (Option-cases (find_row (λ p. p.id =? id) db.posts)) [
    | inl missing ↦ rw missing refl
    | inr (old, found) ↦ rw found (
        store_row-maps post_row _ (change old) db w _ (λ fine. rw (plain (maps db.tables)) (
          Maps-eq _ _ (λ k. refl)
            (λ k. view-update (λ p. p.id) db.posts id (change old) k found (same old))
            (λ k. refl))))
  ]

  pub update_comments-maps :
      (change : Comment → Comment)
      → ((old : Comment) → (change old).id ≡ old.id)
      → maps
          (map_ok comment_row
            (CommentRows.update_row db id (find_row (λ c. c.id =? id) db.comments) change)).1.tables
        ≡ effect w
            (map_ok comment_row
              (CommentRows.update_row db id (find_row (λ c. c.id =? id) db.comments) change)).0
            (maps db.tables)
  unfolding maps effect
  update_comments-maps change same = elim (Option-cases (find_row (λ c. c.id =? id) db.comments)) [
    | inl missing ↦ rw missing refl
    | inr (old, found) ↦ rw found (
        store_row-maps comment_row _ (change old) db w _ (λ fine. rw (plain (maps db.tables)) (
          Maps-eq _ _ (λ k. refl) (λ k. refl)
            (λ k. view-update (λ c. c.id) db.comments id (change old) k found (same old)))))
  ]

pub replace_post-maps :
    (arg : ReplacePostParams) (db : Database)
    → maps (execute (replace_post arg) db).1.tables
      ≡ effect (replace_post arg) (execute (replace_post arg) db).0 (maps db.tables)
unfolding execute PostRows.replace_post effect
replace_post-maps arg db = elim (Bool-cases (is_post_status arg.status)) [
  | inl fine ↦ rw fine (update_posts-maps (replace_post arg) (λ m. refl) db arg.id _ (λ old. refl))
  | inr bad ↦ rw bad refl
]
