-- ===== src/Db/Store/Accounts.antt =====
-- What CreateUser stores, and the rows that GetUser and GetUserByEmail find.
use kube_extauth_demo.Prelude.{
  ◌≡◌, refl, Bool, true, Option, none, some, List, [], ◌∷◌, ◌==◌, nat_eq, string_eq, eq_iff, arith,
  Bool-cases, inl, inr,
}
use kube_extauth_demo.Prelude.Tables.{find_row, has_row}
use kube_extauth_demo.Effect.{Err, ok}
use kube_extauth_demo.Db.Models.{User, UserRole, ◌=?◌}
use kube_extauth_demo.Db.Params.{CreateUserParams}
use kube_extauth_demo.Db.Store.Base.{Database, Tables, store_row, written}
use kube_extauth_demo.Db.Store.Users.{
  user_violation, new_user, create_user, get_user, get_user_by_email, role_of, joined,
}

pub store_row-eq-ok {ℓ} :
    {A : Type ℓ} (db : Database) (violation : Option Err) (row : A) (t : Tables) {a : A}
    {db' : Database}
    → store_row db violation row t ≡ (ok a, db')
    → (violation ≡ none) × (a ≡ row) × (db' ≡ written db t)
store_row-eq-ok db none row t h = (refl, cc, cc)
store_row-eq-ok db (some e) row t h = cc

-- A condition that some row meets selects one.
pub find_row_complete {ℓ} :
    {A : Type ℓ} (p : A → Bool) (xs : List A)
    → has_row p xs ≡ true
    → (x : A) × (find_row p xs ≡ some x)
unfolding has_row find_row
find_row_complete p [] h = cc
find_row_complete p (x ∷ xs) h = elim (Bool-cases (p x)) [
  | inl here ↦ (x, rw here refl)
  | inr gone ↦ rw gone (find_row_complete p xs (rw gone at h))
]

module _ (t : Tables) (rest : List User) (row : User) where
  accepted-role : user_violation t rest row ≡ none → (r : UserRole) × (role_of t row ≡ some r)
  unfolding user_violation
  accepted-role fine = find_row_complete _ t.roles (ground arith)

  accepted-id : user_violation t rest row ≡ none → row.id =? row.id ≡ true
  unfolding user_violation ◌=?◌
  accepted-id fine = ground arith

pub joined-some :
    (t : Tables) (u : User) {r : UserRole} → role_of t u ≡ some r → joined (some u) t ≡ some (u, r)
joined-some t u found = rw (found, joined) refl

-- What CreateUser returns is the row that it stored, with the columns given and a role that is
-- there. GetUser by its id and GetUserByEmail by its email find that row, joined with its role.
pub create_user-get :
    (arg : CreateUserParams) (db : Database) {row : User} {db' : Database}
    → create_user arg db ≡ (ok row, db')
    → (row ≡ new_user arg db)
      × (db'.tables ≡ record (db.tables) { users = row ∷ db.users })
      × ((role : UserRole) × (role_of db.tables row ≡ some role)
          × (get_user row.id db' ≡ (ok (record { user = row; user_role = role }), db'))
          × (get_user_by_email arg.email db' ≡ (ok (record { user = row; user_role = role }), db')))
unfolding create_user get_user get_user_by_email find_row
create_user-get arg db {row} {db'} h =
    let (fine, is_row, is_db) = store_row-eq-ok db _ _ _ h in
    let (role, found) = accepted-role db.tables db.users (new_user arg db) fine in
    let here = accepted-id db.tables db.users (new_user arg db) fine in
    let named : arg.email == arg.email ≡ true = (eq_iff arg.email arg.email).1 refl in
    let t = record (db.tables) { users = new_user arg db ∷ db.users } in
    rw (is_row, is_db)
      (
        refl,
        refl,
        (
          role,
          found,
          rw here (rw (joined-some t (new_user arg db) found) refl),
          rw named (rw (joined-some t (new_user arg db) found) refl),
        ),
      )
