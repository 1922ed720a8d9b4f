-- ===== src/Api/Store/Lists.antt =====
-- Pages of a list, and what ListUsers answers.
use kube_extauth_demo.Prelude.{
  ℕ, suc, ◌+◌, ◌-◌, ◌^◌, ◌<◌, min, String, ◌≡◌, refl, ap, ◌∙◌, Option, some, List, [], ◌∷◌, map,
  arith,
}
use mathlib.Core.List.{reverse, reverse_aux}
use kube_extauth_demo.Prelude.Int.{pos}
use kube_extauth_demo.Prelude.Lists.{length, take, drop, length-map, length-take, length-drop}
use kube_extauth_demo.Prelude.Tables.{insert_by, order_by, All}
use kube_extauth_demo.Effect.{ok, pure, check}
use kube_extauth_demo.Db.Models.{User, UserRole}
use kube_extauth_demo.Db.Params.{ListUsersRow}
use kube_extauth_demo.Db.Store.Base.{Database, Tables, window}
use kube_extauth_demo.Db.Store.Users as UserRows
use kube_extauth_demo.Db.Store.Users.{role_of, join_roles, with_role}
use kube_extauth_demo.Db.Store.Accounts.{find_row_complete}
use kube_extauth_demo.Db.Store.Invariant.{IsConsistent, UserRefs}
use kube_extauth_demo.External.{Crypto, Env}
use kube_extauth_demo.Auth.{Signer}
use kube_extauth_demo.Api.Types as Types
use kube_extauth_demo.Api.Mapping.{Page, paginate, to_api_user, meta}
use kube_extauth_demo.Api.Mapping.Pages.{rows_before, paginate_exact}
use kube_extauth_demo.Api.Requests.{ListUsersRequestObject}
use kube_extauth_demo.Api.Responses.Users.{list_users_200_json}
use kube_extauth_demo.Api.Users.{list_users}
use kube_extauth_demo.Api.Store.Consistency.{store_server}

module _ {ℓ} {A : Type ℓ} where
  length-insert_by :
      (key : A → ℕ) (x : A) (xs : List A) → length (insert_by key x xs) ≡ suc (length xs)
  unfolding insert_by
  length-insert_by key x [] = refl
  length-insert_by key x (y ∷ ys) = ground (arith, length-insert_by key x ys)

  pub length-order_by : (key : A → ℕ) (xs : List A) → length (order_by key xs) ≡ length xs
  unfolding order_by
  length-order_by key [] = refl
  length-order_by key (x ∷ xs) =
      length-insert_by key x (order_by key xs) ∙ ap suc (length-order_by key xs)

  length-reverse_aux : (xs ys : List A) → length (reverse_aux xs ys) ≡ length xs + length ys
  length-reverse_aux [] ys = omega arith
  length-reverse_aux (x ∷ xs) ys = omega (arith, length-reverse_aux xs (x ∷ ys))

  length-reverse : (xs : List A) → length (reverse xs) ≡ length xs
  length-reverse xs = omega (arith, length-reverse_aux xs [])

-- Every user has a role, so the join loses none.
length-join_roles :
    (t : Tables) (us : List User) → All (UserRefs t.roles) us → length (join_roles t us) ≡ length us
unfolding join_roles
length-join_roles t [] h = refl
length-join_roles t (u ∷ us) h =
    let (role, found) = find_row_complete _ t.roles h.0.1 in
    rw (found, role_of) (ap suc (length-join_roles t us h.1))

-- All users as ListUsers lists them, the newest first.
abbrev pub listed : Tables → List ListUsersRow
listed t = reverse (order_by (λ row. row.user.created_at.time) (join_roles t t.users))

pub window-pos {ℓ} :
    {A : Type ℓ} (limit offset : ℕ) (xs : List A)
    → window (pos limit) (pos offset) xs ≡ ok (take limit (drop offset xs))
unfolding window
window-pos limit offset xs = ground arith

module _ (collate : List UserRole → List UserRole) (c : Crypto) (signer : Signer c)
    (env : Env) where
  -- ListUsers with the values that `paginate` returns and the rows of the window.
  list_users-window :
      (request : ListUsersRequestObject) (db : Database) (p : Page) {rows : List ListUsersRow}
      → paginate request.params.page request.params.per_page ≡ p
      → window p.limit p.offset (listed db.tables) ≡ ok rows
      → list_users (store_server collate c signer) env request db ≡ (
        ok (
            list_users_200_json (record {
              items = map (λ row. to_api_user row.user row.user_role) rows;
              meta = meta (length db.users) p.page p.per_page;
            })),
        db,
      )
  unfolding list_users UserRows.list_users UserRows.count_users check pure
  list_users-window request db p is_p in_window =
      let w = rw (← is_p) at in_window in rw (← is_p) (rw w refl)

-- ListUsers answers a positive page of a positive size, where the page and the number of rows before
-- it fit int32, with the rows of that page, as many as a page has or as are left of the list, and
-- with the length of the whole list as total, when the tables meet the constraints of the schema.
pub list_users-page :
    (collate : List UserRole → List UserRole) (c : Crypto) (signer : Signer c) (env : Env)
    (page size : ℕ) (sort : Option String) (db : Database)
    → IsConsistent db.tables
    → 0 < page
    → 0 < size
    → page < 2 ^ 31
    → rows_before page (min size 100) < 2 ^ 31
    → (items : List Types.User) × (items
        ≡ map
            (λ row. to_api_user row.user row.user_role)
            (take (min size 100) (drop (rows_before page (min size 100)) (listed db.tables))))
      × (length items
          ≡ min (min size 100) (length (listed db.tables) - rows_before page (min size 100)))
      × (list_users
            (store_server collate c signer)
            env
            (record {
              params = record { page = some (pos page); per_page = some (pos size); sort = sort };
            })
            db
          ≡ (
            ok (
                list_users_200_json (record {
                  items = items;
                  meta = meta (length (listed db.tables)) (pos page) (pos (min size 100));
                })),
            db,
          ))
list_users-page collate c signer env page size sort db cons hp hs p32 fits =
    let total : length (listed db.tables) ≡ length db.users =
      length-reverse _ ∙ (length-order_by _ _ ∙ length-join_roles db.tables db.users cons.users) in
    (
      _,
      refl,
      length-map _ _
          ∙ (length-take _ _ ∙ ap (min (min size 100)) (length-drop _ (listed db.tables))),
      rw total (
          list_users-window collate c signer env _ db _ (paginate_exact page size hp hs fits p32)
            (window-pos (min size 100) (rows_before page (min size 100)) _)),
    )
