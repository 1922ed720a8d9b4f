-- ===== src/Api/Store/Merges.antt =====
-- The row that an update of a profile makes of a user's row (the query UpdateUser of
-- sample-api/pkg/db/query.sql.go).
use kube_extauth_demo.Prelude.{◌≡◌, refl, sym, ap, ◌∙◌, none, some, Option, ◌∷◌, String}
use kube_extauth_demo.Prelude.Tables.{find_row, rows_except}
use kube_extauth_demo.Effect.{ok}
use kube_extauth_demo.Effect.Outcomes.{pair-eq}
use kube_extauth_demo.Db.Models
use kube_extauth_demo.Db.Models.{Uuid, PgUuid, PgText, UserRole, ◌=?◌}
use kube_extauth_demo.Db.Store.Base.{Database, written, pg_now, coalesce_text, coalesce_nullable}
use kube_extauth_demo.Db.Store.Accounts.{store_row-eq-ok}
use kube_extauth_demo.Db.Store.Users as UserRows
use kube_extauth_demo.Api.Types.{UserUpdate}
use kube_extauth_demo.Api.Mapping.{pg_uuid, pg_text}
use kube_extauth_demo.Api.Requests.{UpdateUserRequestObject}
use kube_extauth_demo.Api.Users.{update_params}

-- A field of the request, or the column as it was.
abbrev pub or_old : Option String → String → String
or_old none old = old
or_old (some new) old = new

abbrev pub or_null : Option String → PgText → PgText
or_null none old = old
or_null (some new) old = pg_text (some new)

-- The row after an update of a profile.
abbrev pub merged : UserUpdate → Database → Models.User → Models.User
merged body db old = record old {
  email = or_old body.email old.email;
  first_name = or_old body.first_name old.first_name;
  last_name = or_old body.last_name old.last_name;
  avatar_url = or_null body.avatar_url old.avatar_url;
  bio = or_null body.bio old.bio;
  updated_at = pg_now db;
}

-- The end of an update statement on users that returns a row.
update_row-eq-ok :
    (db : Database) (id : PgUuid) (o : Option Models.User) (change : Models.User → Models.User)
    {row : Models.User}
    → (UserRows.update_row db id o change).0 ≡ ok row
    → (old : Models.User) × (o ≡ some old)
      × (row ≡ change old)
      × ((UserRows.update_row db id o change).1
          ≡ written db
              (record (db.tables) { users = row ∷ rows_except (λ u. u.id =? id) db.users }))
update_row-eq-ok db id none change h = cc
update_row-eq-ok db id (some old) change h =
    let (_, is_row, is_db) = store_row-eq-ok db _ _ _ (pair-eq _ h refl) in
    (
      old,
      refl,
      is_row,
      is_db
          ∙ ap
              (λ r.
                written db
                  (record (db.tables) { users = r ∷ rows_except (λ u. u.id =? id) db.users }))
              (sym is_row),
    )

coalesce-text : (o : Option String) (old : String) → coalesce_text (pg_text o) old ≡ or_old o old
coalesce-text none old = refl
coalesce-text (some new) old = refl

coalesce-nullable :
    (o : Option String) (old : PgText) → coalesce_nullable (pg_text o) old ≡ or_null o old
coalesce-nullable none old = refl
coalesce-nullable (some new) old = refl

-- The query UpdateUser returns the row that it found by the id, with the columns given.
pub stored_update :
    (request : UpdateUserRequestObject) (body : UserUpdate) (db : Database) {row : Models.User}
    → (UserRows.update_user (update_params request body) db).0 ≡ ok row
    → (old : Models.User) × (find_row (λ u. u.id =? pg_uuid request.user_id) db.users ≡ some old)
      × (row ≡ merged body db old)
      × ((UserRows.update_user (update_params request body) db).1
          ≡ written db (record (db.tables) {
            users = row ∷ rows_except (λ u. u.id =? pg_uuid request.user_id) db.users;
          }))
unfolding UserRows.update_user
stored_update request body db {row} h =
    let (old, found, is_row, is_db) = update_row-eq-ok db (pg_uuid request.user_id) _ _ h in
    (
      old,
      found,
      is_row
          ∙ (rw
              (
                coalesce-text body.email old.email,
                coalesce-text body.first_name old.first_name,
                coalesce-text body.last_name old.last_name,
                coalesce-nullable body.avatar_url old.avatar_url,
                coalesce-nullable body.bio old.bio,
              )
              refl),
      is_db,
    )
