-- ===== src/Tests/Requests.antt =====
-- Requests to the server over the small database.
use kube_extauth_demo.Prelude.{◌≡◌, refl, List, [], ◌∷◌, string_eq, none}
use kube_extauth_demo.External.{Env}
use kube_extauth_demo.Prelude.Text.{cut_prefix}
use kube_extauth_demo.Effect.{Err, ok}
use kube_extauth_demo.Db.Store.Invariant.{IsConsistent}
use kube_extauth_demo.Db.Store.Wire.{tables_dbtx}
use kube_extauth_demo.Api.Mapping.{Context}
use kube_extauth_demo.Api.Codec.{HttpRequest}
use kube_extauth_demo.Api.Identity.{identity}
use kube_extauth_demo.Api.Server.{Server, new_server}
use kube_extauth_demo.Api.Wrapper.{invalid_format}
use kube_extauth_demo.Api.Router.{Operation, operate, serve_all}
use kube_extauth_demo.Api.Refusals.{operate-anonymous}
use kube_extauth_demo.Api.Refusals.MalformedIds.{path_params, first_malformed, operate-malformed_id}
use kube_extauth_demo.Prelude.{String, some, ◌==◌, if◌then◌else◌}
use kube_extauth_demo.Prelude.Tables.{has_row}
use kube_extauth_demo.Api.Store.Consistency.{store_server}
use kube_extauth_demo.Api.Store.Connected.{connected-IsConsistent}
use kube_extauth_demo.Api.Store.Interleaved.{shared_server, shared-IsConsistent}
use kube_extauth_demo.Tests.Writes.{day}
use kube_extauth_demo.Api.Store.Reads.{operate_read-eq}
use kube_extauth_demo.Tests.Fixtures.{database, toy_crypto, codec, parser, router, env, ask}
use kube_extauth_demo.Tests.Database.{tables-IsConsistent}

abbrev pub server : Server
server = store_server (λ roles. roles) toy_crypto (record { key = "key" })

abbrev delete_ada : List (Env × HttpRequest)
delete_ada =
    (env, ask "GET" "/v1/users/{userId}" "seven")
    ∷ (env, ask "DELETE" "/v1/users/{userId}" "seven")
    ∷ []

connected-IsConsistent_example :
    IsConsistent
      (serve_all
        (new_server (tables_dbtx (λ roles. roles)) toy_crypto (record { key = "key" }))
        codec
        parser
        router
        delete_ada
        database).tables
connected-IsConsistent_example =
    connected-IsConsistent (λ roles. roles) toy_crypto (record { key = "key" }) codec parser router
      delete_ada database tables-IsConsistent

-- Between the statements of these requests others comment and delete too.
shared-IsConsistent_example :
    IsConsistent
      (serve_all
        (shared_server (λ roles. roles) toy_crypto (record { key = "key" }) (λ n. day))
        codec
        parser
        router
        delete_ada
        (database, 0)).0.tables
shared-IsConsistent_example =
    shared-IsConsistent (λ roles. roles) toy_crypto (record { key = "key" }) (λ n. day) codec parser
      router delete_ada database tables-IsConsistent

abbrev nobody : Context
nobody = record { sub = none }

operate_read-eq_example :
    (operate server codec env nobody Operation.get_user
      (ask "GET" "/v1/users/{userId}" "seven")
      database).1
    ≡ database
operate_read-eq_example =
    operate_read-eq (λ roles. roles) toy_crypto (record { key = "key" }) codec env nobody
      Operation.get_user (ask "GET" "/v1/users/{userId}" "seven") database refl

-- The id of the post is well formed, that of the comment is not.
abbrev bad_comment : HttpRequest
bad_comment = record (ask "DELETE" "/v1/posts/{postId}/comments/{commentId}" "twenty") {
  url_param = λ name. if name == "postId" then "twenty" else "not-an-id";
}

operate-malformed_id_example :
    (first : String) × (x : Err) × (first_malformed codec bad_comment
        (path_params Operation.delete_comment)
      ≡ some (first, x))
    × (operate server codec env nobody Operation.delete_comment bad_comment database
        ≡ (ok (invalid_format codec first x), database))
unfolding has_row
operate-malformed_id_example =
    operate-malformed_id server codec env nobody Operation.delete_comment bad_comment database
      {name = "commentId"} refl refl

abbrev unsigned : HttpRequest
unsigned = record (ask "POST" "/v1/posts/{postId}/comments" "twenty") { authorization = "Basic x" }

operate-anonymous_example :
    (operate server codec env
      (identity parser unsigned.authorization)
      Operation.create_comment
      unsigned
      database).1
    ≡ database
unfolding cut_prefix
operate-anonymous_example =
    operate-anonymous server codec parser env Operation.create_comment unsigned database refl refl
