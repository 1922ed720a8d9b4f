-- ===== src/Api/Router.antt =====
-- The routes of HandlerWithOptions (sample-api/pkg/openapi/gen.go), and the handler that
-- `(s *Server) Handler` (sample-api/pkg/openapi/server.go) puts together: identity, the router, and the
-- operation, with a panic answered by 500. What picks the route is github.com/go-chi/chi, a parameter.
use kube_extauth_demo.Prelude.{String, ◌<>◌, List, [], ◌∷◌, none}
use kube_extauth_demo.Effect.{Result, ok, err, Exec}
use kube_extauth_demo.External.{Env}
use kube_extauth_demo.Api.Mapping.{Context}
use kube_extauth_demo.Api.Http.{HttpResponse, no_content}
use kube_extauth_demo.Api.Codec.{Codec, HttpRequest}
use kube_extauth_demo.Api.Identity.{TokenParser, identity}
use kube_extauth_demo.Api.Server.{Server, State}
use kube_extauth_demo.Api.Wrapper

-- The methods of ServerInterface.
pub data Operation : Type 0 where
  login : Operation
  list_posts : Operation
  create_post : Operation
  delete_post : Operation
  get_post : Operation
  replace_post : Operation
  list_comments : Operation
  create_comment : Operation
  delete_comment : Operation
  update_comment : Operation
  list_users : Operation
  create_user : Operation
  delete_user : Operation
  get_user : Operation
  update_user : Operation
  replace_user : Operation

pub record Route : Type 0 where
  pub method : String
  pub pattern : String
  pub operation : Operation

abbrev route : String → String → String → Operation → Route
route base_url method pattern operation = record {
  method = method;
  pattern = base_url <> pattern;
  operation = operation;
}

-- HandlerWithOptions with options.BaseURL, in the order of registration.
unfoldable pub handler_with_options : String → List Route
handler_with_options base_url =
    route base_url "POST" "/v1/login" login
    ∷ route base_url "GET" "/v1/posts" list_posts
    ∷ route base_url "POST" "/v1/posts" create_post
    ∷ route base_url "DELETE" "/v1/posts/{postId}" delete_post
    ∷ route base_url "GET" "/v1/posts/{postId}" get_post
    ∷ route base_url "PUT" "/v1/posts/{postId}" replace_post
    ∷ route base_url "GET" "/v1/posts/{postId}/comments" list_comments
    ∷ route base_url "POST" "/v1/posts/{postId}/comments" create_comment
    ∷ route base_url "DELETE" "/v1/posts/{postId}/comments/{commentId}" delete_comment
    ∷ route base_url "PUT" "/v1/posts/{postId}/comments/{commentId}" update_comment
    ∷ route base_url "GET" "/v1/users" list_users
    ∷ route base_url "POST" "/v1/users" create_user
    ∷ route base_url "DELETE" "/v1/users/{userId}" delete_user
    ∷ route base_url "GET" "/v1/users/{userId}" get_user
    ∷ route base_url "PATCH" "/v1/users/{userId}" update_user
    ∷ route base_url "PUT" "/v1/users/{userId}" replace_user
    ∷ []

-- Handler, and HandlerFromMux over the program's router: the options are empty.
unfoldable pub routes : List Route
unfolding handler_with_options
routes = handler_with_options ""

unfoldable pub handler_from_mux_with_base_url : String → List Route
unfolding handler_with_options
handler_from_mux_with_base_url base_url = handler_with_options base_url

-- What the router makes of a request: a registered route with the values of the parameters in its
-- pattern, or an answer of its own.
pub data Routed : Type 0 where
  found : Route → (String → String) → Routed
  unrouted : HttpResponse → Routed

abbrev pub Router : Type 0
Router = List Route → HttpRequest → Routed

module _ (s : Server) (codec : Codec) where
  unfoldable pub operate : Env → Context → Operation → HttpRequest → Exec (State s) HttpResponse
  unfolding Wrapper.login Wrapper.list_posts Wrapper.create_post Wrapper.delete_post
      Wrapper.get_post Wrapper.replace_post Wrapper.list_comments Wrapper.create_comment
      Wrapper.delete_comment Wrapper.update_comment Wrapper.list_users Wrapper.create_user
      Wrapper.delete_user Wrapper.get_user Wrapper.update_user Wrapper.replace_user
  operate env ctx login r = Wrapper.login s codec env ctx r
  operate env ctx list_posts r = Wrapper.list_posts s codec env ctx r
  operate env ctx create_post r = Wrapper.create_post s codec env ctx r
  operate env ctx delete_post r = Wrapper.delete_post s codec env ctx r
  operate env ctx get_post r = Wrapper.get_post s codec env ctx r
  operate env ctx replace_post r = Wrapper.replace_post s codec env ctx r
  operate env ctx list_comments r = Wrapper.list_comments s codec env ctx r
  operate env ctx create_comment r = Wrapper.create_comment s codec env ctx r
  operate env ctx delete_comment r = Wrapper.delete_comment s codec env ctx r
  operate env ctx update_comment r = Wrapper.update_comment s codec env ctx r
  operate env ctx list_users r = Wrapper.list_users s codec env ctx r
  operate env ctx create_user r = Wrapper.create_user s codec env ctx r
  operate env ctx delete_user r = Wrapper.delete_user s codec env ctx r
  operate env ctx get_user r = Wrapper.get_user s codec env ctx r
  operate env ctx update_user r = Wrapper.update_user s codec env ctx r
  operate env ctx replace_user r = Wrapper.replace_user s codec env ctx r

  -- middleware.Recoverer: a panic is answered by a bare 500. It writes no status for a request with
  -- `Connection: Upgrade`, which is left out.
  abbrev pub recovered : Result HttpResponse × State s → HttpResponse × State s
  recovered (ok response, st) = (response, st)
  recovered (err e, st) = (record { status = 500; content_type = none; body = "" }, st)

  abbrev pub serve_routed : Env → Context → HttpRequest → Routed → State s → HttpResponse × State s
  serve_routed env ctx r (found route params) st =
      recovered (operate env ctx route.operation (record r { url_param = params }) st)
  serve_routed env ctx r (unrouted response) st = (response, st)

  -- One request.
  unfoldable pub serve : TokenParser → Router → Env → HttpRequest → State s → HttpResponse × State s
  serve parser router env r st =
      serve_routed env (identity parser r.authorization) r (router routes r) st

  -- Requests one after the other: the state after the last.
  unfoldable pub serve_all : TokenParser → Router → List (Env × HttpRequest) → State s → State s
  serve_all parser router [] st = st
  serve_all parser router ((env, r) ∷ rest) st =
      serve_all parser router rest (serve parser router env r st).1

-- The methods of Unimplemented, which answer every operation alike.
unfoldable pub unimplemented : Operation → HttpResponse
unimplemented _ = no_content 501
