-- ===== src/Tests/Sessions.antt =====
-- A login and the requests after it: identities, posts and the pages of comments.
use Prim.Native.Char.{Char}
use Prim.Native.String.{char_at}
use kube_extauth_demo.Prelude.{
  ℕ, zero, suc, ◌+◌, String, ◌<>◌, true, string_eq, nat_eq, none, some, List, ◌∷◌, map,
  if◌then◌else◌, ◌≡◌, refl, ap, arith, Bool-cases, inl, inr,
}
use kube_extauth_demo.Prelude.Tables.{find_row, has_row, rows_where}
use kube_extauth_demo.Prelude.Tables.Order.{StrictlyAscending, SameRows}
use kube_extauth_demo.Effect.{Result, ok, err, other, pure, lift, check}
use kube_extauth_demo.Db.Models
use kube_extauth_demo.Db.Models.{Uuid, is_post_status, ◌=?◌}
use kube_extauth_demo.Db.Params.{GetUserByEmailRow}
use kube_extauth_demo.Db.Store.Base.{Database}
use kube_extauth_demo.Db.Store.Posts as PostRows
use kube_extauth_demo.Db.Store.Posts.{post_violation}
use kube_extauth_demo.Db.Store.Users as Rows
use kube_extauth_demo.External.{Claims, Crypto}
use kube_extauth_demo.Auth
use kube_extauth_demo.Auth.{hour}
use kube_extauth_demo.Api.Types.{LoginRequest, LoginResponse, bearer, PostCreate}
use kube_extauth_demo.Api.Mapping.{Context, pg_uuid, to_api_user, to_api_post, to_api_comment}
use kube_extauth_demo.Api.Identity.{is_space, TokenParser, identity}
use kube_extauth_demo.Api.Identity.Laws.{no_space}
use kube_extauth_demo.Api.Requests.{LoginRequestObject, CreatePostRequestObject}
use kube_extauth_demo.Api.Responses.Posts.{get_post_200_json}
use kube_extauth_demo.Api.Slug.{slugify}
use kube_extauth_demo.Api.Posts.{create_post, create_params, get_post, post_status}
use kube_extauth_demo.Api.Store.Authorship.{create_post-get_post}
use kube_extauth_demo.Api.Store.Threads.{on_post, read_pages, read_pages_all}
use kube_extauth_demo.Api.Server.{Server}
use kube_extauth_demo.Api.Login.{login, credentials, verify}
use kube_extauth_demo.Api.Store.Consistency.{store_server}
use kube_extauth_demo.Api.Store.Sessions.{IsParserFor, login-identity}
use kube_extauth_demo.Tests.Database.{tables-IsConsistent}
use kube_extauth_demo.Tests.Fixtures.{
  database, toy_crypto, env, ada, admin_role, bobs_comment, id, at,
}

-- Ids are written as that many letters, and a token is a letter before the subject.
letter : Char
letter = char_at "u" 0

unfoldable letters : ℕ → String
letters zero = ""
letters (suc n) = String.◌∷◌ letter (letters n)

unfoldable count : String → ℕ
count String.[] = 0
count (String.◌∷◌ c s) = suc (count s)

abbrev strip : String → Result String
strip String.[] = err (other "token is malformed")
strip (String.◌∷◌ c s) = ok s

count-letters : (n : ℕ) → count (letters n) ≡ n
unfolding count letters
count-letters zero = refl
count-letters (suc n) = ap suc (count-letters n)

abbrev crypto : Crypto
crypto = record toy_crypto {
  PrivateKey = String;
  signed_string = λ claims key.
      if no_space claims.sub then ok (String.◌∷◌ letter claims.sub) else err (other "white space");
  uuid_string = letters;
}

abbrev reader : TokenParser
reader = record { parse_unverified = strip; parse_uuid = λ s. ok (count s) }

signed_by :
    (t : Claims) (token : String)
    → crypto.signed_string t "key" ≡ ok token
    → (no_space t.sub ≡ true) × (String.◌∷◌ letter t.sub ≡ token)
signed_by t token h = elim (Bool-cases (no_space t.sub)) [
  | inl solid ↦ (solid, cc (rw solid at h))
  | inr space ↦ cc (rw space at h)
]

reader-IsParserFor : IsParserFor crypto "key" reader
unfolding no_space letter is_space
reader-IsParserFor = record {
  solid = λ t token h. let (solid, made) = signed_by t token h in rw (← made) solid;
  full = λ t token h e. let (_, made) = signed_by t token h in cc (made, e);
  reads = λ t token h. let (_, made) = signed_by t token h in rw (← made) refl;
  uuid = λ u. ap (λ n. ok n) (count-letters u);
}

abbrev server : Server
server = store_server (λ roles. roles) crypto (record { key = "key" })

abbrev login_of_ada : LoginRequestObject
login_of_ada = record {
  body = some (record { email = "ada@example.com"; password = some "secret" });
}

abbrev adas_login : LoginResponse
adas_login = record {
  token = String.◌∷◌ letter (letters 7);
  token_type = bearer;
  expires_at = env.now + hour;
  user = to_api_user ada admin_role;
}

login-identity_example :
    (body : LoginRequest) × (row : GetUserByEmailRow) × (login_of_ada.body ≡ some body)
    × ((server.q.get_user_by_email body.email database).0 ≡ ok row)
    × (adas_login.user ≡ to_api_user row.user row.user_role)
    × ((identity reader ("Bearer " <> adas_login.token)).sub ≡ adas_login.user.id)
unfolding login credentials verify check lift pure Rows.get_user_by_email find_row ◌=?◌ Auth.sign
    letters no_space letter is_space
login-identity_example =
    login-identity server env reader login_of_ada database {r = adas_login} reader-IsParserFor refl

abbrev note : PostCreate
note = record {
  categories = none;
  content = "text";
  excerpt = none;
  status = none;
  tags = none;
  title = "A note";
}

abbrev write_note : CreatePostRequestObject
write_note = record { body = some note }

abbrev by_ada : Context
by_ada = record { sub = some 7 }

abbrev notes_row : Models.Post
notes_row = PostRows.new_post (create_params server env 7 note) database

abbrev noted : Database
noted = (create_post server env by_ada write_note database).1

create_post-get_post_example :
    (author : Uuid) × (body : PostCreate) × (row : Models.Post) × (by_ada.sub ≡ some author)
    × (write_note.body ≡ some body)
    × ((to_api_post notes_row 0).author_id ≡ author)
    × ((to_api_post notes_row 0).title ≡ body.title)
    × ((to_api_post notes_row 0).slug ≡ some (slugify body.title env.new_string))
    × (noted.tables ≡ record (database.tables) { posts = row ∷ database.posts })
    × (id : Uuid) × ((to_api_post notes_row 0).id ≡ some id)
    × (get_post server env (record { post_id = id }) noted
        ≡ (ok (get_post_200_json (to_api_post notes_row 0)), noted))
unfolding create_post check pure PostRows.create_post post_violation is_post_status has_row ◌=?◌
    create_params post_status
create_post-get_post_example =
    create_post-get_post (λ roles. roles) crypto (record { key = "key" }) env env by_ada write_note
      database tables-IsConsistent refl

-- A second comment on the post, stored before the first and written after it.
abbrev discussed : Database
discussed = record database {
  tables = record (database.tables) {
    comments = record bobs_comment { id = id 31; created_at = at 9 } ∷ database.comments;
  };
}

read_pages_all_example :
    (rows : List Models.Comment) × (read_pages server 20 1 discussed 2 ≡ map to_api_comment rows)
    × StrictlyAscending (λ x. x.created_at.time) rows
    × SameRows rows (on_post discussed.tables (pg_uuid 20))
unfolding has_row ◌=?◌ rows_where
read_pages_all_example =
    read_pages_all (λ roles. roles) crypto (record { key = "key" }) 20 2 1 discussed refl
      (omega arith) (omega arith) (omega arith) (omega arith)
      (((λ same. omega (arith, same)), tt), (tt, tt))
