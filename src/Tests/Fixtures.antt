-- ===== src/Tests/Fixtures.antt =====
-- A small database, and simple versions of what the program calls outside the repository.
use kube_extauth_demo.Prelude.{
  ℕ, ◌+◌, String, ◌<>◌, len, true, false, none, some, [], ◌∷◌, ◌==◌, nat_eq, string_eq, ltb, ◌&&◌,
  if◌then◌else◌,
}
use kube_extauth_demo.Effect.{Result, ok, err, other}
use kube_extauth_demo.Db.Models.{Uuid, PgUuid, PgText, PgTime, User, UserRole, Post, Comment}
use kube_extauth_demo.Db.Store.Base.{Tables, Database}
use kube_extauth_demo.External.{Crypto, Env}
use kube_extauth_demo.Api.Http.{http_error}
use kube_extauth_demo.Api.Codec.{Codec, HttpRequest}
use kube_extauth_demo.Api.Identity.{TokenParser}
use kube_extauth_demo.Api.Router.{found, unrouted, Router}

abbrev pub id : ℕ → PgUuid
id n = record { bytes = n; valid = true }

abbrev pub null_text : PgText
null_text = record { string = ""; valid = false }

abbrev pub at : ℕ → PgTime
at n = record { time = n; valid = true }

abbrev pub admin_role : UserRole
admin_role = record { id = id 1; slug = "admin"; scopes = "post:read" ∷ "users:read" ∷ [] }

abbrev pub reader_role : UserRole
reader_role = record { id = id 2; slug = "reader"; scopes = "post:read" ∷ [] }

abbrev sixty : String → String
sixty s =
    let ten = s <> s <> s <> s <> s <> s <> s <> s <> s <> s in
    ten <> ten <> ten <> ten <> ten <> ten

abbrev pub toy_hash : String → String
toy_hash password = if ltb (len password) 65 then sixty "a" else sixty "b"

-- Passwords are told apart by their lengths.
abbrev pub toy_crypto : Crypto
toy_crypto = record {
  generate_from_password = λ draw password cost.
      if ltb 72 (len password)
      then err (other "bcrypt: password length exceeds 72 bytes")
      else ok (toy_hash password);
  compare_hash_and_password =
      λ hash password. if toy_hash password == hash then ok tt else err (other "mismatch");
  PrivateKey = String;
  signed_string = λ claims key. ok (claims.sub <> "." <> claims.role <> "." <> key);
  uuid_string = λ u. if u == 7 then "seven" else "other";
}

abbrev pub ada : User
ada = record {
  id = id 7;
  email = "ada@example.com";
  password_hash = sixty "a";
  password_salt = "salt";
  first_name = "Ada";
  last_name = "L";
  avatar_url = null_text;
  bio = null_text;
  role_id = id 1;
  created_at = at 5;
  updated_at = at 5;
}

abbrev pub bob : User
bob = record ada {
  id = id 8;
  email = "bob@example.com";
  first_name = "Bob";
  role_id = id 2;
  created_at = at 6;
}

abbrev pub first_post : Post
first_post = record {
  id = id 20;
  author_id = id 7;
  title = "Hello";
  slug = "hello-0";
  content = "text";
  excerpt = null_text;
  status = "published";
  categories = [];
  tags = "go" ∷ [];
  created_at = at 7;
  updated_at = at 7;
}

abbrev pub bobs_comment : Comment
bobs_comment = record {
  id = id 30;
  post_id = id 20;
  author_id = id 8;
  content = "nice";
  created_at = at 8;
  updated_at = at 8;
}

abbrev pub tables : Tables
tables = record {
  roles = admin_role ∷ reader_role ∷ [];
  users = bob ∷ ada ∷ [];
  posts = first_post ∷ [];
  comments = bobs_comment ∷ [];
}

abbrev pub database : Database
database = record { tables = tables; ids = λ n. 100 + n; clock = λ n. 1000 + n; statements = 0 }

abbrev pub env : Env
env = record {
  now_string = "2026-01-01";
  now = 1_700_000_000_500_000_000;
  salt_draw = 1;
  hash_draw = 2;
  new_string = "0123456789abcdef0123456789abcdef0123";
  new_v7 = ok 99;
}

-- Requests carry the pattern of their route as path, and ids as text.
abbrev pub toy_uuid : String → Result Uuid
toy_uuid s = if s == "seven" then ok 7 else if s == "twenty" then ok 20 else err (other "bad uuid")

abbrev pub codec : Codec
codec = record {
  bind_uuid = λ name raw. toy_uuid raw;
  bind_int32 = λ name query. ok none;
  bind_string = λ name query. ok none;
  is_required_error = λ e. false;
  error_text = λ e. "error";
  decode_login_request = λ body. ok (record { email = "ada@example.com"; password = some body });
  decode_post_create = λ body. err (other "syntax");
  decode_comment_create = λ body. ok (record { content = body });
  decode_comment_update = λ body. ok (record { content = body });
  decode_user_create = λ body. err (other "syntax");
  decode_user_update = λ body. err (other "syntax");
  encode = λ value. ok "{}";
}

abbrev pub parser : TokenParser
parser = record { parse_unverified = λ raw. ok raw; parse_uuid = toy_uuid }

abbrev pub router : Router
router [] r = unrouted (http_error "404 page not found" 404)
router (route ∷ rest) r =
    if route.method == r.method && route.pattern == r.path
    then found route r.url_param
    else router rest r

abbrev pub ask : String → String → String → HttpRequest
ask method pattern param = record {
  method = method;
  path = pattern;
  url_param = λ name. param;
  query = "";
  body = "";
  authorization = "Bearer seven";
}
