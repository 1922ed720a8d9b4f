-- ===== src/Tests/Logins.antt =====
-- A created user logs in; a comment has an author.
use kube_extauth_demo.Prelude.{◌≡◌, refl, String, string_eq, ◌∷◌, ◌<>◌, some, true, ◌+◌}
use kube_extauth_demo.Prelude.Tables.{find_row, has_row}
use kube_extauth_demo.Effect.{ok, pure, lift, check}
use kube_extauth_demo.Db.Models
use kube_extauth_demo.Db.Models.{Uuid, UserRole, ◌=?◌}
use kube_extauth_demo.Db.Store.Base.{Database}
use kube_extauth_demo.Db.Store.Users as Rows
use kube_extauth_demo.Db.Store.Users.{user_violation}
use kube_extauth_demo.Db.Store.Roles.{get_role_by_slug}
use kube_extauth_demo.Db.Store.Comments as CommentRows
use kube_extauth_demo.Db.Store.Comments.{comment_violation}
use kube_extauth_demo.Db.Store.Invariant.{has_post}
use kube_extauth_demo.External.{Claims}
use kube_extauth_demo.Auth.{hour}
use kube_extauth_demo.Auth.Laws.{Describes}
use kube_extauth_demo.Api.Types as Types
use kube_extauth_demo.Api.Types.{bearer}
use kube_extauth_demo.Api.Mapping.{to_api_user, to_api_role, to_api_comment, pg_uuid}
use kube_extauth_demo.Api.Requests.{CreateCommentRequestObject}
use kube_extauth_demo.Api.Responses.Login.{login_200_json}
use kube_extauth_demo.Api.Server.{generate_salt, hash_password}
use kube_extauth_demo.Api.Users.{body_with_password, create_user}
use kube_extauth_demo.Api.Comments.{create_comment}
use kube_extauth_demo.Api.Login.{login}
use kube_extauth_demo.Api.Store.Accounts.{row_params}
use kube_extauth_demo.Api.Store.Logins.{credentials_of, create_user-login, login-same_refusal}
use kube_extauth_demo.Api.Store.Ownership.{create_comment-author}
use kube_extauth_demo.Tests.Fixtures.{id, database, toy_crypto, toy_hash, env, admin_role}
use kube_extauth_demo.Tests.Requests.{server}
use kube_extauth_demo.Tests.Accounts.{eve, new_eve, toy_crypto-IsBcrypt}

abbrev eves_row : Models.User
eves_row =
    Rows.new_user
      (row_params server env (eve "secret") (toy_hash "2026-01-01")
        (toy_hash ("secret" <> toy_hash "2026-01-01")) admin_role)
      database

abbrev eves_user : Types.User
eves_user = to_api_user eves_row admin_role

abbrev eves_database : Database
eves_database = (create_user server env (new_eve "secret") database).1

create_user-login_example :
    (id : Uuid) × (role : UserRole) × (token : String) × (t : Claims) × (eves_user.id ≡ some id)
    × (eves_user.role ≡ to_api_role role)
    × (toy_crypto.signed_string t "key" ≡ ok token)
    × Describes toy_crypto env id role.slug role.scopes 3600 t
    × (login server env (credentials_of (eve "secret") "secret") eves_database ≡ (
      ok (
          login_200_json (record {
            token = token;
            token_type = bearer;
            expires_at = env.now + hour;
            user = eves_user;
          })),
      eves_database,
    ))
unfolding create_user check lift pure get_role_by_slug Rows.create_user user_violation has_row ◌=?◌
    generate_salt hash_password body_with_password find_row to_api_user to_api_role
create_user-login_example =
    create_user-login (λ roles. roles) toy_crypto (record { key = "key" }) env env
      (new_eve "secret") (eve "secret") "secret" database toy_crypto-IsBcrypt (refl, (refl, tt))
      refl refl refl (λ t. (_, refl))

abbrev reply : CreateCommentRequestObject
reply = record { post_id = 20; body = some (record { content = "hi" }) }

abbrev replied : Models.Comment
replied =
    CommentRows.new_comment (record { post_id = id 20; author_id = id 7; content = "hi" }) database

abbrev after_reply : Database
after_reply = (create_comment server (record { sub = some 7 }) reply database).1

create_comment-author_example :
    (author : Uuid) × (row : Models.Comment) × (some 7 ≡ some author)
    × (row.author_id ≡ pg_uuid author)
    × (row.post_id ≡ pg_uuid 20)
    × (has_post database.posts (pg_uuid 20) ≡ true)
    × (to_api_comment replied ≡ to_api_comment row)
    × (after_reply.tables ≡ record (database.tables) { comments = row ∷ database.comments })
unfolding create_comment check pure CommentRows.create_comment comment_violation has_row ◌=?◌
    to_api_comment
create_comment-author_example =
    create_comment-author (λ roles. roles) toy_crypto (record { key = "key" })
      (record { sub = some 7 }) reply database refl

abbrev wrong : String
wrong = toy_hash "0123456789" <> "!!"

login-same_refusal_example :
    login server env
      (record { body = some (record { email = "nobody"; password = some wrong }) })
      database
    ≡ login server env
        (record { body = some (record { email = "ada@example.com"; password = some wrong }) })
        database
unfolding Rows.get_user_by_email find_row ◌=?◌
login-same_refusal_example =
    login-same_refusal server env "nobody" "ada@example.com" wrong database refl refl refl
