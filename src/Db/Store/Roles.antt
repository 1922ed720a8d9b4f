-- ===== src/Db/Store/Roles.antt =====
-- The statements on user_roles: GetRole, GetRoleBySlug, ListRoles.
use kube_extauth_demo.Prelude.{String, ◌==◌, string_eq, List}
use kube_extauth_demo.Prelude.Tables.{find_row}
use kube_extauth_demo.Effect.{Exec, ok}
use kube_extauth_demo.Db.Models.{PgUuid, UserRole, ◌=?◌}
use kube_extauth_demo.Db.Store.Base.{Database, scan_one}

unfoldable pub get_role : PgUuid → Exec Database UserRole
unfolding find_row
get_role id db = (scan_one (find_row (λ r. r.id =? id) db.roles), db)

unfoldable pub get_role_by_slug : String → Exec Database UserRole
unfolding find_row
get_role_by_slug slug db = (scan_one (find_row (λ r. r.slug == slug) db.roles), db)

-- `order` is the order of the database's collation, by which the slugs are sorted.
unfoldable pub list_roles : (List UserRole → List UserRole) → Exec Database (List UserRole)
list_roles order db = (ok (order db.roles), db)
