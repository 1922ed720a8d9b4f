-- ===== src/Db/Store/Invariant/Users.antt =====
-- The statements on users keep the constraints.
use kube_extauth_demo.Prelude.{
  ◌≡◌, refl, true, false, none, some, List, ◌∷◌, string_eq, arith, nat_eq, Option-cases, inl, inr,
}
use kube_extauth_demo.Prelude.Tables.{find_row, rows_where, rows_except, has_row, All, Distinct}
use kube_extauth_demo.Prelude.Tables.Laws.{
  has_row-rows_except, has_row-replace, Distinct-rows_where, All-rows_where, All-map, All-map_where,
  find_row_sound,
}
use kube_extauth_demo.Db.Models.{PgUuid, User, ◌=?◌}
use kube_extauth_demo.Db.Params.{CreateUserParams, ReplaceUserParams, UpdateUserParams}
use kube_extauth_demo.Db.Store.Base.{Tables, Database}
use kube_extauth_demo.Db.Store.Users.{
  user_violation, new_user, create_user, delete_user, update_row, replace_user, update_user,
  posts_of,
}
use kube_extauth_demo.Db.Store.Invariant.{
  IsConsistent, same_user, same_email, same_post, same_slug, same_comment, has_role, has_user,
  store_row-tables, UserRefs, PostRefs, CommentRefs,
}

module _ (t : Tables) (rest : List User) (row : User) where
  -- What a row without violations brings.
  accepted :
      user_violation t rest row ≡ none
      → (row.id.valid ≡ true)
        × (has_row (same_user row) rest ≡ false)
        × (has_row (same_email row) rest ≡ false)
        × (has_role t.roles row.role_id ≡ true)
  unfolding user_violation
  accepted h = ground arith

  -- A row that violates nothing, before rows that meet the constraints among themselves and with
  -- it still hold the ids to which posts and comments refer.
  store_user-IsConsistent :
      IsConsistent t
      → Distinct same_user rest
      → Distinct same_email rest
      → All (UserRefs t.roles) rest
      → ((a : PgUuid) → has_user t.users a ≡ true → has_user (row ∷ rest) a ≡ true)
      → user_violation t rest row ≡ none
      → IsConsistent (record t { users = row ∷ rest })
  store_user-IsConsistent c ids emails refs keep fine =
      let (valid, new_id, new_email, role) = accepted fine in
      record {
        user_ids = (new_id, ids);
        emails = (new_email, emails);
        post_ids = c.post_ids;
        slugs = c.slugs;
        comment_ids = c.comment_ids;
        users = ((valid, role), refs);
        posts = All-map (PostRefs t.users) _ t.posts (λ p h. (h.0, keep _ h.1)) c.posts;
        comments =
            All-map (CommentRefs t.users t.posts) _ t.comments (λ d h. (h.0, h.1, keep _ h.2))
              c.comments;
      }

-- CreateUser keeps the constraints of the schema.
pub create_user-IsConsistent :
    (arg : CreateUserParams) (db : Database)
    → IsConsistent db.tables
    → IsConsistent (create_user arg db).1.tables
unfolding create_user has_row
create_user-IsConsistent arg db c =
    let row = new_user arg db in
    store_row-tables IsConsistent db (user_violation db.tables db.users row) row _ c (
      store_user-IsConsistent db.tables db.users row c c.user_ids c.emails c.users
        (λ a h. ground arith))

-- A user in the place of the user with an id holds the references that this one held.
has_user-replace :
    (users : List User) (id : PgUuid) (new : User) {old : User}
    → find_row (λ u. u.id =? id) users ≡ some old
    → new.id ≡ old.id
    → (a : PgUuid) → has_user users a ≡ true
    → has_user (new ∷ rows_except (λ u. u.id =? id) users) a ≡ true
unfolding ◌=?◌
has_user-replace users id new found same a h =
    has_row-replace (λ u. u.id =? a) (λ u. u.id =? id) new users
      (λ x p q. ground (arith, find_row_sound (λ u. u.id =? id) users found)) h

update_row-IsConsistent :
    (db : Database) (id : PgUuid) (change : User → User)
    → ((old : User) → (change old).id ≡ old.id)
    → IsConsistent db.tables
    → IsConsistent (update_row db id (find_row (λ u. u.id =? id) db.users) change).1.tables
update_row-IsConsistent db id change same c =
    elim (Option-cases (find_row (λ u. u.id =? id) db.users)) [
      | inl missing ↦ rw missing c
      | inr (old, found) ↦
          let rest = rows_except (λ u. u.id =? id) db.users in
          let row = change old in
          rw found (
            store_row-tables IsConsistent db (user_violation db.tables rest row) row _ c (
              store_user-IsConsistent db.tables rest row c
                (Distinct-rows_where same_user _ db.users c.user_ids)
                (Distinct-rows_where same_email _ db.users c.emails)
                (All-rows_where (UserRefs db.roles) _ db.users c.users)
                (has_user-replace db.users id row found (same old))))
    ]

-- ReplaceUser keeps the constraints of the schema.
pub replace_user-IsConsistent :
    (arg : ReplaceUserParams) (db : Database)
    → IsConsistent db.tables
    → IsConsistent (replace_user arg db).1.tables
unfolding replace_user
replace_user-IsConsistent arg db c = update_row-IsConsistent db arg.id _ (λ old. refl) c

-- UpdateUser keeps the constraints of the schema.
pub update_user-IsConsistent :
    (arg : UpdateUserParams) (db : Database)
    → IsConsistent db.tables
    → IsConsistent (update_user arg db).1.tables
unfolding update_user
update_user-IsConsistent arg db c = update_row-IsConsistent db arg.id _ (λ old. refl) c

-- DeleteUser keeps the constraints of the schema: no post and no comment is left behind.
pub delete_user-IsConsistent :
    (id : PgUuid) (db : Database)
    → IsConsistent db.tables
    → IsConsistent (delete_user id db).1.tables
unfolding delete_user
delete_user-IsConsistent id db c =
    let gone = rows_where (λ u. u.id =? id) db.users in
    let gone_posts = rows_where (posts_of gone) db.posts in
    record {
      user_ids = Distinct-rows_where same_user _ db.users c.user_ids;
      emails = Distinct-rows_where same_email _ db.users c.emails;
      post_ids = Distinct-rows_where same_post _ db.posts c.post_ids;
      slugs = Distinct-rows_where same_slug _ db.posts c.slugs;
      comment_ids = Distinct-rows_where same_comment _ db.comments c.comment_ids;
      users = All-rows_where (UserRefs db.roles) _ db.users c.users;
      posts =
          All-map_where (PostRefs db.users) _ _ db.posts
            (λ p kept h. (h.0, has_row-rows_except _ _ db.users h.1 (ground arith))) c.posts;
      comments =
          All-map_where (CommentRefs db.users db.posts) _ _ db.comments
            (λ d kept h. (
              h.0,
              has_row-rows_except _ _ db.posts h.1 (ground arith),
              has_row-rows_except _ _ db.users h.2 (ground arith),
            ))
            c.comments;
    }
