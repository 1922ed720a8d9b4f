-- ===== src/Api/Types.antt =====
-- The models and parameters of sample-api/pkg/openapi/gen.go. A pointer that may be nil is an
-- Option, an int32 an integer, a count a natural number, a time a number of nanoseconds.
use kube_extauth_demo.Prelude.{ℕ, String, Bool, Option, List, ◌==◌, string_eq, ◌||◌}
use kube_extauth_demo.Prelude.Int.{ℤ}
use kube_extauth_demo.Db.Models.{Uuid, Time}

-- openapi_types.Email: a string, whose syntax only the JSON codec looks at.
abbrev pub Email : Type 0
Email = String

abbrev pub LoginResponseTokenType : Type 0
LoginResponseTokenType = String

abbrev pub bearer : LoginResponseTokenType
bearer = "bearer"

-- (e LoginResponseTokenType) Valid
unfoldable pub is_valid_token_type : LoginResponseTokenType → Bool
is_valid_token_type e = e == bearer

abbrev pub PostStatus : Type 0
PostStatus = String

abbrev pub archived : PostStatus
archived = "archived"

abbrev pub draft : PostStatus
draft = "draft"

abbrev pub published : PostStatus
published = "published"

-- (e PostStatus) Valid
unfoldable pub is_valid_post_status : PostStatus → Bool
is_valid_post_status e = e == archived || (e == draft || e == published)

abbrev pub RoleSlug : Type 0
RoleSlug = String

abbrev pub admin : RoleSlug
admin = "admin"

abbrev pub editor : RoleSlug
editor = "editor"

abbrev pub reader : RoleSlug
reader = "reader"

-- (e RoleSlug) Valid
unfoldable pub is_valid_role_slug : RoleSlug → Bool
is_valid_role_slug e = e == admin || (e == editor || e == reader)

pub record Role : Type 0 where
  pub id : Option Uuid
  pub scopes : Option (List String)
  pub slug : RoleSlug

pub record User : Type 0 where
  pub avatar_url : Option String
  pub bio : Option String
  pub created_at : Option Time
  pub email : Email
  pub first_name : String
  pub id : Option Uuid
  pub last_name : String
  pub role : Option Role
  pub updated_at : Option Time

pub record Comment : Type 0 where
  pub author : Option User
  pub author_id : Uuid
  pub content : String
  pub created_at : Option Time
  pub id : Option Uuid
  pub post_id : Option Uuid
  pub updated_at : Option Time

pub record CommentCreate : Type 0 where
  pub content : String

pub record CommentUpdate : Type 0 where
  pub content : String

pub record PaginationMeta : Type 0 where
  pub page : ℤ
  pub per_page : ℤ
  pub total : ℕ

pub record CommentList : Type 0 where
  pub items : List Comment
  pub meta : PaginationMeta

pub record Error : Type 0 where
  pub code : ℤ
  pub error : String

pub record LoginRequest : Type 0 where
  pub email : Email
  pub password : Option String

pub record LoginResponse : Type 0 where
  pub expires_at : Time
  pub token : String
  pub token_type : LoginResponseTokenType
  pub user : User

pub record Post : Type 0 where
  pub author : Option User
  pub author_id : Uuid
  pub categories : List String
  pub comment_count : Option ℕ
  pub content : String
  pub created_at : Option Time
  pub excerpt : Option String
  pub id : Option Uuid
  pub slug : Option String
  pub status : PostStatus
  pub tags : List String
  pub title : String
  pub updated_at : Option Time

pub record PostCreate : Type 0 where
  pub categories : Option (List String)
  pub content : String
  pub excerpt : Option String
  pub status : Option PostStatus
  pub tags : Option (List String)
  pub title : String

pub record PostList : Type 0 where
  pub items : List Post
  pub meta : PaginationMeta

pub record UserCreate : Type 0 where
  pub avatar_url : Option String
  pub bio : Option String
  pub email : Email
  pub first_name : String
  pub last_name : String
  pub password : Option String
  pub role : RoleSlug

pub record UserList : Type 0 where
  pub items : List User
  pub meta : PaginationMeta

pub record UserUpdate : Type 0 where
  pub avatar_url : Option String
  pub bio : Option String
  pub email : Option Email
  pub first_name : Option String
  pub last_name : Option String
  pub password : Option String
  pub role : Option RoleSlug

pub record ListPostsParams : Type 0 where
  pub page : Option ℤ
  pub per_page : Option ℤ
  pub sort : Option String
  pub status : Option PostStatus
  pub tag : Option String
  pub category : Option String

pub record ListCommentsParams : Type 0 where
  pub page : Option ℤ
  pub per_page : Option ℤ
  pub sort : Option String

pub record ListUsersParams : Type 0 where
  pub page : Option ℤ
  pub per_page : Option ℤ
  pub sort : Option String
