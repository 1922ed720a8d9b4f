-- ===== src/Tests/Statuses.antt =====
-- Requests to servers over the small database and over a connection that is lost.
use kube_extauth_demo.Prelude.{◌≡◌, refl, ◌⊎◌, ◌≤◌, true, string_eq}
use kube_extauth_demo.Effect.{Err, other, err}
use kube_extauth_demo.Db.Client.{Dbtx}
use kube_extauth_demo.Db.Client.Lost.{IsLost}
use kube_extauth_demo.Api.Codec.{HttpRequest}
use kube_extauth_demo.Api.Server.{new_server}
use kube_extauth_demo.Api.Router.{Operation, Route, routes, serve}
use kube_extauth_demo.Api.Statuses.{is_failure}
use kube_extauth_demo.Api.Statuses.Served.{serve-status, serve-lost}
use kube_extauth_demo.Tests.Fixtures.{database, toy_crypto, codec, parser, router, env, ask}
use kube_extauth_demo.Tests.Requests.{server}

abbrev user_route : Route
user_route = record {
  method = "GET";
  pattern = "/v1/users/{userId}";
  operation = Operation.get_user;
}

abbrev get_ada : HttpRequest
get_ada = ask "GET" "/v1/users/{userId}" "seven"

serve-status_example :
    ((serve server codec parser router env get_ada database).0.status ≡ 200)
    ⊎ (is_failure Operation.get_user
          (serve server codec parser router env get_ada database).0.status
        ≡ true)
unfolding routes
serve-status_example =
    serve-status parser router codec env get_ada user_route (λ name. "seven") refl server database

abbrev broken_pipe : Err
broken_pipe = other "broken pipe"

abbrev lost_connection : Dbtx
lost_connection = record {
  State = Unit {0};
  exec = λ statement args s. (err broken_pipe, s);
  query = λ statement args s. (err broken_pipe, s);
  query_row = λ statement args s. (err broken_pipe, s);
}

lost_connection-IsLost : IsLost lost_connection
lost_connection-IsLost = record {
  exec = λ statement args s. (broken_pipe, refl);
  query = λ statement args s. (broken_pipe, refl);
  query_row = λ statement args s. (broken_pipe, refl);
}

serve-lost_example :
    (is_failure Operation.get_user
        (serve
          (new_server lost_connection toy_crypto (record { key = "key" }))
          codec
          parser
          router
          env
          get_ada
          tt).0.status
      ≡ true)
    × (400
        ≤ (serve
            (new_server lost_connection toy_crypto (record { key = "key" }))
            codec
            parser
            router
            env
            get_ada
            tt).0.status)
unfolding routes
serve-lost_example =
    serve-lost parser router codec env get_ada user_route (λ name. "seven") refl lost_connection
      toy_crypto (record { key = "key" }) tt lost_connection-IsLost
