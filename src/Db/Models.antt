-- ===== src/Db/Models.antt =====
-- sample-api/pkg/db/models.go, and the nullable column types of pgx that it uses: a value with a
-- flag that is false for NULL. A UUID is its 128-bit number and a time a number of nanoseconds since 1970.
use kube_extauth_demo.Prelude.{ℕ, String, ◌<>◌, Bool, true, false, Option, none, some, List}
use kube_extauth_demo.Prelude.{◌==◌, nat_eq, string_eq, ◌&&◌, ◌||◌, if◌then◌else◌}
use kube_extauth_demo.Effect.{Err, Result, ok, err, other}

abbrev pub Uuid : Type 0
Uuid = ℕ

abbrev pub Time : Type 0
Time = ℕ

-- pgtype.UUID
pub record PgUuid : Type 0 where
  pub bytes : Uuid
  pub valid : Bool

-- pgtype.Text
pub record PgText : Type 0 where
  pub string : String
  pub valid : Bool

-- pgtype.Timestamptz
pub record PgTime : Type 0 where
  pub time : Time
  pub valid : Bool

-- The Go type is a string, and holds whatever string it is given.
abbrev pub PostStatus : Type 0
PostStatus = String

abbrev pub post_status_draft : PostStatus
post_status_draft = "draft"

abbrev pub post_status_published : PostStatus
post_status_published = "published"

abbrev pub post_status_archived : PostStatus
post_status_archived = "archived"

-- What a driver hands to `Scan`: NULL, bytes, a string, or a value of another type.
pub data Source : Type 0 where
  nil : Source
  bytes : String → Source
  string : String → Source
  int64 : ℕ → Source

-- The verb %T of fmt: the name of the Go type.
abbrev type_name : Source → String
type_name nil = "<nil>"
type_name (bytes s) = "[]uint8"
type_name (string s) = "string"
type_name (int64 n) = "int64"

-- (e *PostStatus) Scan
unfoldable pub scan_post_status : Source → Result PostStatus
scan_post_status (bytes s) = ok s
scan_post_status (string s) = ok s
scan_post_status src = err (other ("unsupported scan type for PostStatus: " <> type_name src))

pub record NullPostStatus : Type 0 where
  pub post_status : PostStatus
  pub valid : Bool

-- The rest of `(ns *NullPostStatus) Scan`, from the result of scanning the string.
scanned : NullPostStatus → Result PostStatus → NullPostStatus × Option Err
scanned ns (ok s) = (record { post_status = s; valid = true }, none)
scanned ns (err e) = (record ns { valid = true }, some e)

-- (ns *NullPostStatus) Scan: the new value of `*ns`, and the error.
unfoldable pub scan_null_post_status : NullPostStatus → Source → NullPostStatus × Option Err
unfolding scanned scan_post_status
scan_null_post_status ns nil = (record { post_status = ""; valid = false }, none)
scan_null_post_status ns src = scanned ns (scan_post_status src)

-- (ns NullPostStatus) Value
unfoldable pub value_null_post_status : NullPostStatus → Source
value_null_post_status ns = if ns.valid then string ns.post_status else nil

pub record Comment : Type 0 where
  pub id : PgUuid
  pub post_id : PgUuid
  pub author_id : PgUuid
  pub content : String
  pub created_at : PgTime
  pub updated_at : PgTime

pub record Post : Type 0 where
  pub id : PgUuid
  pub author_id : PgUuid
  pub title : String
  pub slug : String
  pub content : String
  pub excerpt : PgText
  pub status : PostStatus
  pub categories : List String
  pub tags : List String
  pub created_at : PgTime
  pub updated_at : PgTime

pub record User : Type 0 where
  pub id : PgUuid
  pub email : String
  pub password_hash : String
  pub password_salt : String
  pub first_name : String
  pub last_name : String
  pub avatar_url : PgText
  pub bio : PgText
  pub role_id : PgUuid
  pub created_at : PgTime
  pub updated_at : PgTime

pub record UserRole : Type 0 where
  pub id : PgUuid
  pub slug : String
  pub scopes : List String

-- `a = b` of SQL in a condition: NULL is equal to nothing.
infix 50 ◌=?◌
unfoldable pub ◌=?◌ : PgUuid → PgUuid → Bool
a =? b = a.valid && (b.valid && a.bytes == b.bytes)

-- The labels of the enum `post_status`.
unfoldable pub is_post_status : String → Bool
is_post_status s =
    s == post_status_draft || (s == post_status_published || s == post_status_archived)
