-- ===== src/Api/Mapping.antt =====
-- sample-api/pkg/openapi/mapping.go: pagination, columns to optional values, rows to API values,
-- the caller's identity, and the error bodies.
pub mod Pages
use kube_extauth_demo.Prelude.{
  ℕ, String, Bool, true, false, Option, none, some, List, ◌≡◌, ◌==◌, string_eq, if◌then◌else◌,
}
use kube_extauth_demo.Prelude.Int.{ℤ, pos, ltb_ℤ, wrap32, sub32, mul32}
use kube_extauth_demo.Effect.{Err, no_rows, pg_error, wrapped}
use kube_extauth_demo.Db.Models
use kube_extauth_demo.Db.Models.{Uuid, Time, PgUuid, PgText, PgTime}
use kube_extauth_demo.Api.Types.{Role, User, Post, Comment, PaginationMeta, Error}

abbrev pub default_per_page : ℤ
default_per_page = pos 20

abbrev pub max_per_page : ℤ
max_per_page = pos 100

pub record Page : Type 0 where
  pub limit : ℤ
  pub offset : ℤ
  pub page : ℤ
  pub per_page : ℤ

-- A parameter that is there and above 0, or the default.
positive_or : ℤ → Option ℤ → ℤ
positive_or default none = default
positive_or default (some n) = if ltb_ℤ (pos 0) n then n else default

cap_per_page : ℤ → ℤ
cap_per_page n = if ltb_ℤ max_per_page n then max_per_page else n

unfoldable pub paginate : Option ℤ → Option ℤ → Page
unfolding positive_or cap_per_page sub32 mul32
paginate page per_page =
    let eff_page = positive_or (pos 1) page in
    let eff_per_page = cap_per_page (positive_or default_per_page per_page) in
    record {
      limit = eff_per_page;
      offset = mul32 (sub32 eff_page (pos 1)) eff_per_page;
      page = eff_page;
      per_page = eff_per_page;
    }

abbrev pub meta : ℕ → ℤ → ℤ → PaginationMeta
meta total page per_page = record { total = total; page = page; per_page = per_page }

-- pgUUID, toUUID, toUUIDPtr
abbrev pub pg_uuid : Uuid → PgUuid
pg_uuid u = record { bytes = u; valid = true }

abbrev pub to_uuid : PgUuid → Uuid
to_uuid p = p.bytes

abbrev pub to_uuid_ptr : PgUuid → Option Uuid
to_uuid_ptr p = some (to_uuid p)

abbrev pub pg_text : Option String → PgText
pg_text none = record { string = ""; valid = false }
pg_text (some s) = record { string = s; valid = true }

abbrev pub text_ptr : PgText → Option String
text_ptr t = if t.valid then some t.string else none

abbrev pub time_ptr : PgTime → Option Time
time_ptr t = if t.valid then some t.time else none

unfoldable pub to_api_role : Models.UserRole → Option Role
to_api_role r = some (record { id = to_uuid_ptr r.id; slug = r.slug; scopes = some r.scopes })

unfoldable pub to_api_user : Models.User → Models.UserRole → User
unfolding to_api_role
to_api_user u role = record {
  id = to_uuid_ptr u.id;
  email = u.email;
  first_name = u.first_name;
  last_name = u.last_name;
  avatar_url = text_ptr u.avatar_url;
  bio = text_ptr u.bio;
  role = to_api_role role;
  created_at = time_ptr u.created_at;
  updated_at = time_ptr u.updated_at;
}

unfoldable pub to_api_post : Models.Post → ℕ → Post
to_api_post p comment_count = record {
  author = none;
  id = to_uuid_ptr p.id;
  author_id = to_uuid p.author_id;
  title = p.title;
  slug = some p.slug;
  content = p.content;
  excerpt = text_ptr p.excerpt;
  status = p.status;
  categories = p.categories;
  tags = p.tags;
  comment_count = some comment_count;
  created_at = time_ptr p.created_at;
  updated_at = time_ptr p.updated_at;
}

unfoldable pub to_api_comment : Models.Comment → Comment
to_api_comment c = record {
  author = none;
  id = to_uuid_ptr c.id;
  post_id = to_uuid_ptr c.post_id;
  author_id = to_uuid c.author_id;
  content = c.content;
  created_at = time_ptr c.created_at;
  updated_at = time_ptr c.updated_at;
}

-- The part of `context.Context` that the handlers read: the value under `subKey`.
pub record Context : Type 0 where
  pub sub : Option Uuid

-- identityFromCtx: none for `ok == false`.
abbrev pub identity_from_ctx : Context → Option Uuid
identity_from_ctx ctx = ctx.sub

abbrev pub api_error : ℕ → String → Error
api_error code msg = record { code = wrap32 (pos code); error = msg }

unfoldable pub is_not_found : Err → Bool
is_not_found no_rows = true
is_not_found (wrapped m e) = is_not_found e
is_not_found _ = false

unfoldable pub is_unique_violation : Err → Bool
is_unique_violation (pg_error code) = code == "23505"
is_unique_violation (wrapped m e) = is_unique_violation e
is_unique_violation _ = false

abbrev pub not_found : String → Error
not_found msg = api_error 404 msg

abbrev pub bad_request : String → Error
bad_request msg = api_error 400 msg

abbrev pub unauthorized : String → Error
unauthorized msg = api_error 401 msg

abbrev pub conflict : String → Error
conflict msg = api_error 409 msg

abbrev pub unprocessable : String → Error
unprocessable msg = api_error 422 msg
