-- ===== src/Tests/Connection.antt =====
-- The methods of `*Queries` over a connection to the small database.
use kube_extauth_demo.Prelude.{◌≡◌, refl, ◌∷◌, [], List}
use kube_extauth_demo.Effect.{ok}
use kube_extauth_demo.Db.Models.{UserRole}
use kube_extauth_demo.Db.Client
use kube_extauth_demo.Db.Client.{many}
use kube_extauth_demo.Db.Client.Scan.{scan_role}
use kube_extauth_demo.Db.Client.Laws.{many_iff}
use kube_extauth_demo.Db.Client.Methods.{new}
use kube_extauth_demo.Db.Store.Roles.{list_roles}
use kube_extauth_demo.Db.Store.Connection.{store}
use kube_extauth_demo.Db.Store.Wire.{tables_dbtx, query, all_rows}
use kube_extauth_demo.Db.Store.Wire.Arguments.{no_args}
use kube_extauth_demo.Db.Store.Wire.Columns.{role_columns}
use kube_extauth_demo.Db.Store.Wire.Reads.{scan-role_columns}
use kube_extauth_demo.Db.Store.Wire.Refines.{new-store}
use kube_extauth_demo.Tests.Fixtures.{admin_role, reader_role, database}

abbrev as_stored : List UserRole → List UserRole
as_stored roles = roles

new-store_example : new (tables_dbtx as_stored) ≡ store as_stored
new-store_example = new-store as_stored

many_iff_example :
    (many (tables_dbtx as_stored) scan_role Client.list_roles [] database).0
    ≡ ok (admin_role ∷ reader_role ∷ [])
unfolding query no_args list_roles
many_iff_example =
    (many_iff (tables_dbtx as_stored) scan_role Client.list_roles [] database
        (admin_role ∷ reader_role ∷ [])).1
      (
        all_rows role_columns (admin_role ∷ reader_role ∷ []),
        refl,
        refl,
        λ i. scan-role_columns admin_role i ∷ scan-role_columns reader_role i ∷ [],
      )
