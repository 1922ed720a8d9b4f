-- ===== src/Tests/Accounts.antt =====
-- Handlers over the small database.
use kube_extauth_demo.Prelude.{
  ◌<>◌, ℕ, ◌≡◌, refl, String, len, List, string_eq, eq_iff, none, some, ◌-◌, min, map, arith,
  Bool-cases, inl, inr, ltb,
}
use kube_extauth_demo.Prelude.Int.{pos}
use kube_extauth_demo.Prelude.Tables.{find_row, has_row}
use kube_extauth_demo.Prelude.Lists.{length, take, drop}
use kube_extauth_demo.Effect.{other, ok, err}
use kube_extauth_demo.Db.Models.{◌=?◌}
use kube_extauth_demo.Db.Store.Base.{
  written, foreign_key_violation, invalid_text_representation,
  invalid_row_count_in_result_offset_clause,
}
use kube_extauth_demo.External.{IsBcrypt}
use kube_extauth_demo.Api.Types as Types
use kube_extauth_demo.Api.Types.{UserCreate, CommentCreate, is_valid_post_status}
use kube_extauth_demo.Api.Mapping.{meta, to_api_user, conflict}
use kube_extauth_demo.Api.Mapping.Pages.{rows_before}
use kube_extauth_demo.Api.Requests.{CreateUserRequestObject, ListPostsRequestObject}
use kube_extauth_demo.Api.Responses.Users.{list_users_200_json, create_user_409_json}
use kube_extauth_demo.Api.Server.{generate_salt, hash_password}
use kube_extauth_demo.Api.Users.{body_with_password, create_user, list_users}
use kube_extauth_demo.Api.Posts.{list_posts}
use kube_extauth_demo.Api.Comments.{create_comment}
use kube_extauth_demo.Api.Store.Failures.{
  create_comment-missing_post, create_user-long_password, create_user-conflict, list_users-overflow,
  list_posts-unknown_status,
}
use kube_extauth_demo.Api.Store.Lists.{listed, list_users-page}
use kube_extauth_demo.Tests.Fixtures.{database, toy_crypto, toy_hash, env, admin_role}
use kube_extauth_demo.Tests.Database.{tables-IsConsistent}
use kube_extauth_demo.Tests.Requests.{server}

toy_hash-of :
    (draw : ℕ) (password : String) (cost : ℕ) (hash : String)
    → toy_crypto.generate_from_password draw password cost ≡ ok hash
    → toy_hash password ≡ hash
toy_hash-of draw password cost hash h = elim (Bool-cases (ltb 72 (len password))) [
  | inl long ↦ cc (rw long at h)
  | inr short ↦ cc (rw short at h)
]

len-toy_hash : (password : String) → len (toy_hash password) ≡ 60
len-toy_hash password = elim (Bool-cases (ltb (len password) 65)) [
  | inl short ↦ rw short refl
  | inr long ↦ rw long refl
]

pub toy_crypto-IsBcrypt : IsBcrypt toy_crypto
toy_crypto-IsBcrypt = record {
  compare_generated = λ draw password cost hash h.
      rw ((eq_iff (toy_hash password) hash).1 (toy_hash-of draw password cost hash h)) refl;
  len-hash = λ draw password cost hash h.
      rw (← toy_hash-of draw password cost hash h) (len-toy_hash password);
  too_long = λ draw password cost h. ground arith;
}

create_comment-missing_post_example :
    create_comment server
      (record { sub = some 7 })
      (record { post_id = 99; body = some (record { content = "hi" }) })
      database
    ≡ (err foreign_key_violation, written database database.tables)
unfolding has_row ◌=?◌
create_comment-missing_post_example =
    create_comment-missing_post (λ roles. roles) toy_crypto (record { key = "key" }) 7 99
      (record { content = "hi" }) database refl refl

abbrev pub eve : String → UserCreate
eve password = record {
  avatar_url = none;
  bio = none;
  email = "eve@example.com";
  first_name = "Eve";
  last_name = "E";
  password = some password;
  role = "admin";
}

abbrev pub new_eve : String → CreateUserRequestObject
new_eve password = record { body = some (eve password) }

create_user-long_password_example :
    create_user server env (new_eve "correct horse battery") database
    ≡ (err (other "bcrypt: password length exceeds 72 bytes"), database)
unfolding body_with_password find_row generate_salt
create_user-long_password_example =
    create_user-long_password (λ roles. roles) toy_crypto (record { key = "key" }) env
      (new_eve "correct horse battery") (eve "correct horse battery") "correct horse battery"
      (toy_hash "2026-01-01") admin_role database toy_crypto-IsBcrypt refl refl refl (omega arith)

list_users-overflow_example :
    list_users server env
      (record {
        params = record { page = some (pos 30_000_000); per_page = some (pos 100); sort = none };
      })
      database
    ≡ (err invalid_row_count_in_result_offset_clause, database)
list_users-overflow_example =
    list_users-overflow (λ roles. roles) toy_crypto (record { key = "key" }) env 30_000_000 100 none
      database (omega arith) (omega arith) (omega arith) (omega arith)

abbrev hidden_posts : ListPostsRequestObject
hidden_posts = record {
  params = record {
    page = none;
    per_page = none;
    sort = none;
    status = some "hidden";
    tag = none;
    category = none;
  };
}

list_posts-unknown_status_example :
    list_posts server env hidden_posts database ≡ (err invalid_text_representation, database)
unfolding is_valid_post_status
list_posts-unknown_status_example =
    list_posts-unknown_status (λ roles. roles) toy_crypto (record { key = "key" }) env hidden_posts
      "hidden" database refl refl

list_users-page_example :
    (items : List Types.User) × (items
      ≡ map
          (λ row. to_api_user row.user row.user_role)
          (take (min 1 100) (drop (rows_before 2 (min 1 100)) (listed database.tables))))
    × (length items ≡ min (min 1 100) (length (listed database.tables) - rows_before 2 (min 1 100)))
    × (list_users server env
          (record { params = record { page = some (pos 2); per_page = some (pos 1); sort = none } })
          database
        ≡ (
          ok (
              list_users_200_json (record {
                items = items;
                meta = meta (length (listed database.tables)) (pos 2) (pos (min 1 100));
              })),
          database,
        ))
list_users-page_example =
    list_users-page (λ roles. roles) toy_crypto (record { key = "key" }) env 2 1 none database
      tables-IsConsistent (omega arith) (omega arith) (omega arith) (omega arith)

-- The email of a new user is Ada's.
abbrev second_ada : UserCreate
second_ada = record (eve "secret") { email = "ada@example.com" }

create_user-conflict_example :
    create_user server env (record { body = some second_ada }) database ≡ (
      ok (create_user_409_json (conflict "email already exists")),
      written database database.tables,
    )
unfolding body_with_password find_row generate_salt hash_password has_row
create_user-conflict_example =
    create_user-conflict (λ roles. roles) toy_crypto (record { key = "key" }) env
      (record { body = some second_ada }) second_ada "secret" (toy_hash "2026-01-01")
      (toy_hash ("secret" <> toy_hash "2026-01-01")) admin_role database refl refl refl refl refl
      refl
