-- ===== src/Db/Store/Invariant/Posts.antt =====
-- The statements on posts keep the constraints.
use kube_extauth_demo.Prelude.{
  ◌≡◌, refl, true, false, none, some, List, ◌∷◌, string_eq, nat_eq, arith, Option-cases, Bool-cases,
  inl, inr,
}
use kube_extauth_demo.Prelude.Tables.{find_row, rows_except, has_row, All, Distinct}
use kube_extauth_demo.Prelude.Tables.Laws.{
  has_row-rows_except, has_row-replace, Distinct-rows_where, All-rows_where, All-map, All-map_where,
  find_row_sound,
}
use kube_extauth_demo.Db.Models.{PgUuid, Post, ◌=?◌, is_post_status}
use kube_extauth_demo.Db.Params.{CreatePostParams, ReplacePostParams}
use kube_extauth_demo.Db.Store.Base.{Tables, Database}
use kube_extauth_demo.Db.Store.Posts.{
  post_violation, new_post, create_post, delete_post, update_row, replace_post,
}
use kube_extauth_demo.Db.Store.Invariant.{
  IsConsistent, same_post, same_slug, same_comment, has_user, has_post, store_row-tables, PostRefs,
  CommentRefs,
}

module _ (t : Tables) (rest : List Post) (row : Post) where
  -- What a row without violations brings.
  pub accepted :
      post_violation t rest row ≡ none
      → (row.id.valid ≡ true)
        × (has_row (same_post row) rest ≡ false)
        × (has_row (same_slug row) rest ≡ false)
        × (has_user t.users row.author_id ≡ true)
  unfolding post_violation
  accepted h = ground arith

  store_post-IsConsistent :
      IsConsistent t
      → Distinct same_post rest
      → Distinct same_slug rest
      → All (PostRefs t.users) rest
      → ((a : PgUuid) → has_post t.posts a ≡ true → has_post (row ∷ rest) a ≡ true)
      → post_violation t rest row ≡ none
      → IsConsistent (record t { posts = row ∷ rest })
  store_post-IsConsistent c ids slugs refs keep fine =
      let (valid, new_id, new_slug, author) = accepted fine in
      record {
        user_ids = c.user_ids;
        emails = c.emails;
        post_ids = (new_id, ids);
        slugs = (new_slug, slugs);
        comment_ids = c.comment_ids;
        users = c.users;
        posts = ((valid, author), refs);
        comments =
            All-map (CommentRefs t.users t.posts) _ t.comments (λ d h. (h.0, keep _ h.1, h.2))
              c.comments;
      }

-- CreatePost keeps the constraints of the schema.
pub create_post-IsConsistent :
    (arg : CreatePostParams) (db : Database)
    → IsConsistent db.tables
    → IsConsistent (create_post arg db).1.tables
unfolding create_post has_row
create_post-IsConsistent arg db c =
    let row = new_post arg db in
    store_row-tables IsConsistent db (post_violation db.tables db.posts row) row _ c (
      store_post-IsConsistent db.tables db.posts row c c.post_ids c.slugs c.posts
        (λ a h. ground arith))

-- A post in the place of the post with an id holds the references that this one held.
has_post-replace :
    (posts : List Post) (id : PgUuid) (new : Post) {old : Post}
    → find_row (λ p. p.id =? id) posts ≡ some old
    → new.id ≡ old.id
    → (a : PgUuid) → has_post posts a ≡ true
    → has_post (new ∷ rows_except (λ p. p.id =? id) posts) a ≡ true
unfolding ◌=?◌
has_post-replace posts id new found same a h =
    has_row-replace (λ p. p.id =? a) (λ p. p.id =? id) new posts
      (λ x p q. ground (arith, find_row_sound (λ p. p.id =? id) posts found)) h

update_row-IsConsistent :
    (db : Database) (id : PgUuid) (change : Post → Post)
    → ((old : Post) → (change old).id ≡ old.id)
    → IsConsistent db.tables
    → IsConsistent (update_row db id (find_row (λ p. p.id =? id) db.posts) change).1.tables
update_row-IsConsistent db id change same c =
    elim (Option-cases (find_row (λ p. p.id =? id) db.posts)) [
      | inl missing ↦ rw missing c
      | inr (old, found) ↦
          let rest = rows_except (λ p. p.id =? id) db.posts in
          let row = change old in
          rw found (
            store_row-tables IsConsistent db (post_violation db.tables rest row) row _ c (
              store_post-IsConsistent db.tables rest row c
                (Distinct-rows_where same_post _ db.posts c.post_ids)
                (Distinct-rows_where same_slug _ db.posts c.slugs)
                (All-rows_where (PostRefs db.users) _ db.posts c.posts)
                (has_post-replace db.posts id row found (same old))))
    ]

-- ReplacePost keeps the constraints of the schema.
pub replace_post-IsConsistent :
    (arg : ReplacePostParams) (db : Database)
    → IsConsistent db.tables
    → IsConsistent (replace_post arg db).1.tables
unfolding replace_post
replace_post-IsConsistent arg db c = elim (Bool-cases (is_post_status arg.status)) [
  | inl good ↦ rw good (update_row-IsConsistent db arg.id _ (λ old. refl) c)
  | inr bad ↦ rw bad c
]

-- DeletePost keeps the constraints of the schema: no comment on the post is left behind.
pub delete_post-IsConsistent :
    (id : PgUuid) (db : Database)
    → IsConsistent db.tables
    → IsConsistent (delete_post id db).1.tables
unfolding delete_post
delete_post-IsConsistent id db c = record {
  user_ids = c.user_ids;
  emails = c.emails;
  post_ids = Distinct-rows_where same_post _ db.posts c.post_ids;
  slugs = Distinct-rows_where same_slug _ db.posts c.slugs;
  comment_ids = Distinct-rows_where same_comment _ db.comments c.comment_ids;
  users = c.users;
  posts = All-rows_where (PostRefs db.users) _ db.posts c.posts;
  comments =
      All-map_where (CommentRefs db.users db.posts) _ _ db.comments
        (λ d kept h. (h.0, has_row-rows_except _ _ db.posts h.1 (ground arith), h.2)) c.comments;
}
