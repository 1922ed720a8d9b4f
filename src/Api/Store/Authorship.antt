-- ===== src/Api/Store/Authorship.antt =====
-- What CreatePost stores, and what GetPost finds then (sample-api/pkg/openapi/post.go over the queries
-- of pkg/db).
use kube_extauth_demo.Prelude.{
  ◌≡◌, refl, sym, ap, ◌∙◌, true, none, some, List, ◌∷◌, Option-cases, inl, inr, arith,
}
use kube_extauth_demo.Effect.{ok, check, pure, ◌>>=◌}
use kube_extauth_demo.Effect.Outcomes.{pair-eq, bind-eq-ok}
use kube_extauth_demo.Db.Models
use kube_extauth_demo.Db.Models.{Uuid, PgUuid, UserRole, ◌=?◌}
use kube_extauth_demo.Db.Params.{CreatePostParams}
use kube_extauth_demo.Db.Store.Base.{Database, written}
use kube_extauth_demo.Db.Store.Accounts.{store_row-eq-ok}
use kube_extauth_demo.Db.Store.Posts as PostRows
use kube_extauth_demo.Db.Store.Posts.{post_violation, new_post}
use kube_extauth_demo.Db.Store.Deletion.{unreferenced}
use kube_extauth_demo.Db.Store.Invariant.{IsConsistent}
use kube_extauth_demo.Db.Store.Invariant.Posts.{accepted}
use kube_extauth_demo.Prelude.Tables.{find_row}
use kube_extauth_demo.Prelude.Tables.Laws.{All-map, rows_where-eq-nil}
use kube_extauth_demo.External.{Crypto, Env}
use kube_extauth_demo.Auth.{Signer}
use kube_extauth_demo.Api.Types.{Post, PostCreate}
use kube_extauth_demo.Api.Mapping.{Context, pg_uuid, to_api_post}
use kube_extauth_demo.Api.Slug.{slugify}
use kube_extauth_demo.Api.Requests.{CreatePostRequestObject}
use kube_extauth_demo.Api.Responses.Posts.{create_post_201_json, get_post_200_json}
use kube_extauth_demo.Api.Server.{Server, State}
use kube_extauth_demo.Api.Posts.{create_post, create_params, get_post}
use kube_extauth_demo.Api.Store.Consistency.{store_server}

self-eq : (id : PgUuid) → id.valid ≡ true → id =? id ≡ true
unfolding ◌=?◌
self-eq id h = ground arith

post_stored :
    (arg : CreatePostParams) (db : Database) {row : Models.Post}
    → (PostRows.create_post arg db).0 ≡ ok row
    → (post_violation db.tables db.posts row ≡ none)
      × (row ≡ new_post arg db)
      × ((PostRows.create_post arg db).1
          ≡ written db (record (db.tables) { posts = row ∷ db.posts }))
unfolding PostRows.create_post
post_stored arg db {row} read =
    let (fine, is_row, is_db) =
      store_row-eq-ok db _ _ _ (pair-eq (PostRows.create_post arg db) read refl) in
    rw is_row (fine, refl, is_db)

-- The query GetPost finds a row that was accepted, with no comments.
new_post-get :
    (db : Database) (row : Models.Post)
    → IsConsistent db.tables
    → post_violation db.tables db.posts row ≡ none
    → PostRows.get_post row.id (written db (record (db.tables) { posts = row ∷ db.posts })) ≡ (
      ok (record { post = row; comment_count = 0 }),
      written db (record (db.tables) { posts = row ∷ db.posts }),
    )
unfolding PostRows.get_post find_row
new_post-get db row c fine =
    let (valid, fresh, _, _) = accepted db.tables db.posts row fine in
    let unread =
      unreferenced (λ x. x.post_id) (λ p. p.id) row.id db.posts db.comments fresh
        (All-map _ _ db.comments (λ x refs. refs.1) c.comments) in
    let itself : row.id =? row.id ≡ true = self-eq row.id valid in
    rw itself (rw (rows_where-eq-nil _ db.comments unread) refl)

-- What CreatePost does to the tables when it answers 201 with the post.
pub record IsPostCreated (arg : CreatePostParams) (db : Database) (post : Post) (db' : Database)
    : Type 0 where
  pub row : Models.Post
  pub is_row : row ≡ new_post arg db
  pub accepted : post_violation db.tables db.posts row ≡ none
  pub answered : post ≡ to_api_post row 0
  pub stored : db' ≡ written db (record (db.tables) { posts = row ∷ db.posts })

-- The end of CreatePost, from the query on.
answered_post :
    (arg : CreatePostParams) (db : Database) {post : Post} {db' : Database}
    → (PostRows.create_post arg
          >>= (λ created. pure (create_post_201_json (to_api_post created 0))))
        db
      ≡ (ok (create_post_201_json post), db')
    → IsPostCreated arg db post db'
unfolding pure
answered_post arg db h =
    let (row, read, returned) = bind-eq-ok (PostRows.create_post arg) _ db h in
    let (fine, is_row, is_db) = post_stored arg db read in
    record {
      row = row;
      is_row = is_row;
      accepted = fine;
      answered = cc (ap (λ r. r.0) returned);
      stored = sym (ap (λ r. r.1) returned) ∙ is_db;
    }

-- CreatePost of a caller with an identity, for a request with a body.
create_post-eq :
    (s : Server) (env : Env) (ctx : Context) (request : CreatePostRequestObject) {author : Uuid}
    {body : PostCreate}
    → ctx.sub ≡ some author
    → request.body ≡ some body
    → create_post s env ctx request ≡ (
        s.q.create_post (create_params s env author body) >>= λ created.
        pure (create_post_201_json (to_api_post created 0)))
unfolding create_post
create_post-eq s env ctx request known given =
    rw (known, create_post) (rw (given, create_post) refl)

-- Without the one or the other it does not answer 201.
create_post-given :
    (s : Server) (env : Env) (ctx : Context) (request : CreatePostRequestObject) (st : State s)
    {post : Post} {st' : State s}
    → create_post s env ctx request st ≡ (ok (create_post_201_json post), st')
    → (author : Uuid) × (body : PostCreate) × (ctx.sub ≡ some author)
      × (request.body ≡ some body)
      × ((s.q.create_post (create_params s env author body) >>= λ created.
              pure (create_post_201_json (to_api_post created 0)))
            st
          ≡ (ok (create_post_201_json post), st'))
unfolding create_post pure
create_post-given s env ctx request st h = elim (Option-cases ctx.sub) [
  | inl anonymous ↦ cc (rw (anonymous, create_post) at h)
  | inr (author, known) ↦ elim (Option-cases request.body) [
    | inl empty ↦ cc (rw (empty, create_post) at (rw (known, create_post) at h))
    | inr (body, given) ↦ (
      author,
      body,
      known,
      given,
      sym (ap (λ m. m st) (create_post-eq s env ctx request known given)) ∙ h,
    )
  ]
]

module _ (collate : List UserRole → List UserRole) (c : Crypto) (signer : Signer c) where
  create_post-stored :
      (env : Env) (ctx : Context) (request : CreatePostRequestObject) (db : Database) {post : Post}
      {db' : Database}
      → create_post (store_server collate c signer) env ctx request db
        ≡ (ok (create_post_201_json post), db')
      → (author : Uuid) × (body : PostCreate) × (ctx.sub ≡ some author)
        × (request.body ≡ some body)
        × IsPostCreated (create_params (store_server collate c signer) env author body) db post db'
  create_post-stored env ctx request db {post} {db'} h =
      let (author, body, known, given, rest) =
        create_post-given (store_server collate c signer) env ctx request db h in
      (author, body, known, given, answered_post _ db rest)

  get_post-found :
      (later : Env) (arg : CreatePostParams) (db : Database) {post : Post} {db' : Database}
      → IsConsistent db.tables
      → (m : IsPostCreated arg db post db')
      → get_post (store_server collate c signer) later (record { post_id = m.row.id.bytes }) db'
        ≡ (ok (get_post_200_json post), db')
  unfolding get_post check pure
  get_post-found later arg db consistent m =
      let named : pg_uuid m.row.id.bytes ≡ m.row.id = rw m.is_row refl in
      rw (m.stored, m.answered, named) (rw (new_post-get db m.row consistent m.accepted) refl)

  -- A post for which CreatePost answers 201 was stored, as the one change to the tables, with the
  -- caller's identity as its author, the title of the body and the slug that slugify makes of it. If
  -- the tables met the constraints of the schema before, GetPost then answers 200 with the same post
  -- to a request with its id.
  pub create_post-get_post :
      (env later : Env) (ctx : Context) (request : CreatePostRequestObject) (db : Database)
      {post : Post} {db' : Database}
      → IsConsistent db.tables
      → create_post (store_server collate c signer) env ctx request db
        ≡ (ok (create_post_201_json post), db')
      → (author : Uuid) × (body : PostCreate) × (row : Models.Post) × (ctx.sub ≡ some author)
        × (request.body ≡ some body)
        × (post.author_id ≡ author)
        × (post.title ≡ body.title)
        × (post.slug ≡ some (slugify body.title env.new_string))
        × (db'.tables ≡ record (db.tables) { posts = row ∷ db.posts })
        × (id : Uuid) × (post.id ≡ some id)
        × (get_post (store_server collate c signer) later (record { post_id = id }) db'
            ≡ (ok (get_post_200_json post), db'))
  unfolding to_api_post create_params
  create_post-get_post env later ctx request db {post} {db'} consistent h =
      let (author, body, known, given, m) = create_post-stored env ctx request db h in
      (
        author,
        body,
        m.row,
        known,
        given,
        ap (λ p. p.author_id) m.answered ∙ ap (λ r. r.author_id.bytes) m.is_row,
        ap (λ p. p.title) m.answered ∙ ap (λ r. r.title) m.is_row,
        ap (λ p. p.slug) m.answered ∙ ap (λ r. some r.slug) m.is_row,
        ap (λ d. d.tables) m.stored,
        m.row.id.bytes,
        ap (λ p. p.id) m.answered,
        get_post-found later _ db consistent m,
      )
