-- ===== src/Api/Store/Failures.antt =====
-- Requests that fail: an email that is taken (409), and errors of the database or of a library that
-- the handlers pass on, which the strict handler answers by 500.
use text.Mathlib.TextPositions.{len-append}
use kube_extauth_demo.Prelude.{
  true, ℕ, ◌^◌, ◌≤◌, ◌<◌, min, String, len, ◌<>◌, ◌==◌, string_eq, ◌≡◌, refl, false, Option, some,
  List, arith, inl, inr,
}
use kube_extauth_demo.Prelude.Int.{ℤ, pos, negsuc, ◌≤ℤ◌}
use kube_extauth_demo.Prelude.Tables.{find_row, has_row}
use kube_extauth_demo.Effect.Outcomes.{Result-cases}
use kube_extauth_demo.Effect.{other, ok, err, pure, raise, lift, check}
use kube_extauth_demo.Db.Models.{Uuid, User, UserRole, ◌=?◌, is_post_status}
use kube_extauth_demo.Db.Store.Base.{
  Database, written, Tables, unique_violation, pg_new_id, foreign_key_violation,
  invalid_text_representation, invalid_row_count_in_result_offset_clause, window,
}
use kube_extauth_demo.Db.Store.Invariant.{has_post}
use kube_extauth_demo.Db.Store.Roles.{get_role_by_slug}
use kube_extauth_demo.Db.Store.Comments as CommentRows
use kube_extauth_demo.Db.Store.Posts as PostRows
use kube_extauth_demo.Db.Store.Users as UserRows
use kube_extauth_demo.External.{Crypto, Env, IsBcrypt, min_cost, default_cost}
use kube_extauth_demo.Auth.{Signer}
use kube_extauth_demo.Api.Types.{CommentCreate, UserCreate, PostStatus, is_valid_post_status}
use kube_extauth_demo.Api.Mapping.{pg_uuid, conflict, is_unique_violation}
use kube_extauth_demo.Api.Mapping.Pages.{rows_before, paginate_overflow}
use kube_extauth_demo.Api.Requests.{CreateUserRequestObject, ListPostsRequestObject}
use kube_extauth_demo.Api.Responses.Users.{create_user_409_json}
use kube_extauth_demo.Api.Server.{generate_salt, hash_password}
use kube_extauth_demo.Api.Comments.{create_comment}
use kube_extauth_demo.Api.Posts.{list_posts, null_status}
use kube_extauth_demo.Api.Users.{body_with_password, create_user, list_users}
use kube_extauth_demo.Api.Store.Accounts.{row_params}
use kube_extauth_demo.Api.Store.Consistency.{store_server}

window-negative {ℓ} :
    {A : Type ℓ} (limit offset : ℤ) (rows : List A)
    → offset ≤ℤ negsuc 0
    → window limit offset rows ≡ err invalid_row_count_in_result_offset_clause
unfolding window
window-negative limit offset rows h = ground arith

not_a_status : (s : PostStatus) → is_valid_post_status s ≡ false → is_post_status s ≡ false
unfolding is_valid_post_status is_post_status
not_a_status s h = ground arith

duplicate_email :
    (t : Tables) (rest : List User) (row : User)
    → row.id.valid ≡ true
    → row.role_id.valid ≡ true
    → has_row (λ u. u.email == row.email) rest ≡ true
    → UserRows.user_violation t rest row ≡ some unique_violation
unfolding UserRows.user_violation
duplicate_email t rest row id role taken = ground arith

module _ (collate : List UserRole → List UserRole) (c : Crypto) (signer : Signer c) where
  -- A comment on a post that is not there fails by the foreign key, with SQLSTATE 23503, and stores
  -- nothing: the handler, which looks for a unique violation (23505), passes the error on and does
  -- not answer 404. The id that the database generates is taken to be fresh.
  pub create_comment-missing_post :
      (author post_id : Uuid) (body : CommentCreate) (db : Database)
      → has_post db.posts (pg_uuid post_id) ≡ false
      → has_row (λ o. o.id =? pg_new_id db) db.comments ≡ false
      → create_comment
          (store_server collate c signer)
          (record { sub = some author })
          (record { post_id = post_id; body = some body })
          db
        ≡ (err foreign_key_violation, written db db.tables)
  unfolding create_comment CommentRows.create_comment CommentRows.comment_violation check
      is_unique_violation raise pure
  create_comment-missing_post author post_id body db gone fresh = rw fresh (rw gone refl)

  salt-len :
      (env : Env) (salt : String) → IsBcrypt c → generate_salt c env ≡ ok salt → len salt ≡ 60
  unfolding generate_salt
  salt-len env salt bcrypt salted =
      elim (Result-cases (c.generate_from_password env.salt_draw env.now_string min_cost)) [
        | inl (hash, made) ↦
            let same : hash ≡ salt = cc (rw (made, generate_salt) at salted) in
            rw (← same) (bcrypt.len-hash _ _ _ hash made)
        | inr (e, failed) ↦ cc (rw (failed, generate_salt) at salted)
      ]

  -- A salt is the hash of 60 bytes, so a password of more than 12 bytes makes with it more than the
  -- 72 bytes that bcrypt takes: CreateUser fails with bcrypt's error for every such password,
  -- once the role is found and the salt is made, and leaves the database as it was.
  pub create_user-long_password :
      (env : Env) (request : CreateUserRequestObject) (body : UserCreate) (password salt : String)
      (role : UserRole) (db : Database)
      → IsBcrypt c
      → body_with_password request.body ≡ some (body, password)
      → find_row (λ r. r.slug == body.role) db.roles ≡ some role
      → generate_salt c env ≡ ok salt
      → 12 < len password
      → create_user (store_server collate c signer) env request db
        ≡ (err (other "bcrypt: password length exceeds 72 bytes"), db)
  unfolding create_user check get_role_by_slug hash_password raise pure lift
  create_user-long_password env request body password salt role db bcrypt given read salted long =
      let sixty = salt-len env salt bcrypt salted in
      let bytes = len-append password salt in
      let refused = bcrypt.too_long env.hash_draw (password <> salt) default_cost (ground arith) in
      rw (given, create_user)
        (rw (read, get_role_by_slug) (rw (salted, lift) (rw (refused, hash_password) refl)))

  -- A page so far on that the number of rows before it passes the range of int32, by less than its
  -- width, makes ListUsers fail with the database's error for a negative offset (2201X).
  pub list_users-overflow :
      (env : Env) (page size : ℕ) (sort : Option String) (db : Database)
      → 0 < size
      → page < 2 ^ 31
      → 2 ^ 31 ≤ rows_before page (min size 100)
      → rows_before page (min size 100) < 2 ^ 32
      → list_users
          (store_server collate c signer)
          env
          (record {
            params = record { page = some (pos page); per_page = some (pos size); sort = sort };
          })
          db
        ≡ (err invalid_row_count_in_result_offset_clause, db)
  unfolding list_users UserRows.list_users check raise
  list_users-overflow env page size sort db hs hp over under =
      rw (window-negative _ _ _ (paginate_overflow page size hs hp over under)) refl

  -- A status that the API does not declare reaches the database unchecked: ListPosts fails with the
  -- error of the cast to post_status (22P02).
  pub list_posts-unknown_status :
      (env : Env) (request : ListPostsRequestObject) (status : PostStatus) (db : Database)
      → request.params.status ≡ some status
      → is_valid_post_status status ≡ false
      → list_posts (store_server collate c signer) env request db
        ≡ (err invalid_text_representation, db)
  unfolding list_posts PostRows.list_posts check raise null_status
  list_posts-unknown_status env request status db given unknown =
      let bad : is_post_status status ≡ false = not_a_status status unknown in
      rw given (rw bad refl)

  -- An email that some user has is refused: CreateUser answers 409 and stores nothing, once the
  -- role, whose id is present, is found and the password is hashed.
  pub create_user-conflict :
      (env : Env) (request : CreateUserRequestObject) (body : UserCreate)
      (password salt hash : String) (role : UserRole) (db : Database)
      → body_with_password request.body ≡ some (body, password)
      → find_row (λ r. r.slug == body.role) db.roles ≡ some role
      → role.id.valid ≡ true
      → generate_salt c env ≡ ok salt
      → hash_password c env password salt ≡ ok hash
      → has_row (λ u. u.email == body.email) db.users ≡ true
      → create_user (store_server collate c signer) env request db
        ≡ (ok (create_user_409_json (conflict "email already exists")), written db db.tables)
  unfolding create_user check get_role_by_slug raise pure lift UserRows.create_user
      is_unique_violation
  create_user-conflict env request body password salt hash role db given read valid salted hashed
        taken =
      rw (given, create_user)
        (rw (read, get_role_by_slug)
          (rw (salted, lift)
            (rw (hashed, lift)
              (rw
                (duplicate_email db.tables db.users
                  (UserRows.new_user
                    (row_params (store_server collate c signer) env body salt hash role) db)
                  refl valid taken)
                refl))))
