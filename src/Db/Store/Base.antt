-- ===== src/Db/Store/Base.antt =====
-- The tables, the values that the server supplies, and what several statements share.
use kube_extauth_demo.Prelude.{ℕ, suc, String, true, Option, none, some, List, if◌then◌else◌}
use kube_extauth_demo.Prelude.Lists.{take, drop}
use kube_extauth_demo.Prelude.Int.{ℤ, pos, pos_part, ltb_ℤ}
use kube_extauth_demo.Effect.{Err, no_rows, pg_error, Result, ok, err}
use kube_extauth_demo.Db.Models.{Uuid, Time, PgUuid, PgText, PgTime, User, Post, Comment, UserRole}

-- A table is the list of its rows, the newest version of a row first. SQL gives the order no
-- meaning.
pub record Tables : Type 0 where
  pub roles : List UserRole
  pub users : List User
  pub posts : List Post
  pub comments : List Comment

-- `ids n` is what gen_random_uuid() and `clock n` what now() returns in the n-th statement that
-- writes, and `statements` counts those.
pub record Database : Type 0 where
  pub tables : Tables
  pub open tables use *
  pub ids : ℕ → Uuid
  pub clock : ℕ → Time
  pub statements : ℕ

-- The SQLSTATE codes of the errors that the constraints and clauses can raise.
abbrev pub not_null_violation : Err
not_null_violation = pg_error "23502"

abbrev pub foreign_key_violation : Err
foreign_key_violation = pg_error "23503"

abbrev pub unique_violation : Err
unique_violation = pg_error "23505"

abbrev pub invalid_text_representation : Err
invalid_text_representation = pg_error "22P02"

abbrev pub invalid_row_count_in_limit_clause : Err
invalid_row_count_in_limit_clause = pg_error "2201W"

abbrev pub invalid_row_count_in_result_offset_clause : Err
invalid_row_count_in_result_offset_clause = pg_error "2201X"

abbrev pub pg_now : Database → PgTime
pg_now db = record { time = db.clock db.statements; valid = true }

abbrev pub pg_new_id : Database → PgUuid
pg_new_id db = record { bytes = db.ids db.statements; valid = true }

-- The state after a statement that writes: an error leaves the tables as they were.
abbrev pub written : Database → Tables → Database
written db t = record db { tables = t; statements = suc db.statements }

-- The end of a statement that stores a row: a violated constraint, or the row and the new tables.
abbrev pub store_row {ℓ} : {A : Type ℓ} → Database → Option Err → A → Tables → Result A × Database
store_row db none row t = (ok row, written db t)
store_row db (some e) row t = (err e, written db db.tables)

-- The only row of a statement, which `QueryRow(…).Scan` reads.
abbrev pub scan_one {ℓ} : {A : Type ℓ} → Option A → Result A
scan_one none = err no_rows
scan_one (some row) = ok row

-- LIMIT and OFFSET
unfoldable pub window {ℓ} : {A : Type ℓ} → ℤ → ℤ → List A → Result (List A)
window limit offset rows =
    if ltb_ℤ offset (pos 0)
    then err invalid_row_count_in_result_offset_clause
    else if ltb_ℤ limit (pos 0)
    then err invalid_row_count_in_limit_clause
    else ok (take (pos_part limit) (drop (pos_part offset) rows))

-- COALESCE($n, column)
abbrev pub coalesce_text : PgText → String → String
coalesce_text arg old = if arg.valid then arg.string else old

abbrev pub coalesce_nullable : PgText → PgText → PgText
coalesce_nullable arg old = if arg.valid then arg else old

abbrev pub coalesce_uuid : PgUuid → PgUuid → PgUuid
coalesce_uuid arg old = if arg.valid then arg else old
