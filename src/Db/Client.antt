-- ===== src/Db/Client.antt =====
-- sample-api/pkg/db/db.go and the methods of sample-api/pkg/db/query.sql.go as Go runs them: a
-- statement goes to a DBTX with its arguments, and the rows that come back are scanned column by
-- column. pgx, which fills DBTX, is a parameter.
pub mod Scan
pub mod Methods
pub mod Laws
pub mod Lost
use kube_extauth_demo.Prelude.{ℕ, String, Option, none, some, List, [], ◌∷◌, ◌++◌}
use kube_extauth_demo.Prelude.Int.{ℤ}
use kube_extauth_demo.Effect.{Err, Result, ok, err, Exec, lift, ◌>>=◌}
use kube_extauth_demo.Db.Models.{PgUuid, PgText, PgTime, PostStatus, NullPostStatus}

-- The Go values that go to a DBTX as arguments, and those that a column is scanned into.
pub data Value : Type 0 where
  uuid : PgUuid → Value
  text : PgText → Value
  string : String → Value
  strings : List String → Value
  timestamptz : PgTime → Value
  post_status : PostStatus → Value
  null_post_status : NullPostStatus → Value
  int32 : ℤ → Value
  int64 : ℕ → Value

-- The constants that hold the text of the statements.
pub data Statement : Type 0 where
  count_comments count_posts count_users : Statement
  create_comment create_post create_user : Statement
  delete_comment delete_post delete_user : Statement
  get_comment get_post get_role get_role_by_slug get_user get_user_by_email : Statement
  list_comments list_posts list_roles list_users : Statement
  replace_post replace_user : Statement
  update_comment update_user : Statement

-- pgx.Rows: the columns of each row, and what rows.Err() returns after the last.
pub record Rows : Type 0 where
  pub rows : List (List Value)
  pub last_err : Option Err

-- The error of QueryRow is the one that Scan returns, pgx.ErrNoRows if there is no row.
pub record Dbtx : Type 1 where
  pub State : Type 0
  pub exec : Statement → List Value → Exec State (Unit {0})
  pub query : Statement → List Value → Exec State Rows
  pub query_row : Statement → List Value → Exec State (List Value)

module _ {A : Type 0} (scan : List Value → Result A) where
  abbrev pub after_rows : Option Err → List A → Result (List A)
  after_rows none items = ok items
  after_rows (some e) items = err e

  -- `for rows.Next()` and what follows it, with the items so far.
  unfoldable pub scan_rows : List A → List (List Value) → Option Err → Result (List A)
  scan_rows items [] last_err = after_rows last_err items
  scan_rows items (row ∷ rows) last_err = elim (scan row) [
    | err e ↦ err e
    | ok i ↦ scan_rows (items ++ (i ∷ [])) rows last_err
  ]

module _ (db : Dbtx) {A : Type 0} (scan : List Value → Result A) where
  -- The body of the methods that QueryRow: `:one`.
  unfoldable pub one : Statement → List Value → Exec db.State A
  one statement args = do row ← db.query_row statement args; lift (scan row)

  -- The body of the methods that Query: `:many`.
  unfoldable pub many : Statement → List Value → Exec db.State (List A)
  unfolding scan_rows
  many statement args = do
    rows ← db.query statement args
    lift (scan_rows scan [] rows.rows rows.last_err)
