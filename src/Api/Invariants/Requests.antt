-- ===== src/Api/Invariants/Requests.antt =====
-- Every request keeps an invariant of the database that the queries keep, through the generated
-- server, whatever the codec, the router and the token parser.
use kube_extauth_demo.Prelude.{Bool, true, false, List, [], ◌∷◌, ◌≡◌}
use kube_extauth_demo.Effect.{Err, Result, ok, err, Exec}
use kube_extauth_demo.Effect.Keeps.{Keeps, keeps_rules, Keeps-pure}
use kube_extauth_demo.Db.Queries.Keeps.{ReadsKeep, QueriesKeep}
use kube_extauth_demo.External.{Env}
use kube_extauth_demo.Api.Mapping.{Context}
use kube_extauth_demo.Api.Http.{HttpResponse}
use kube_extauth_demo.Api.Codec.{Codec, HttpRequest}
use kube_extauth_demo.Api.Identity.{TokenParser, identity}
use kube_extauth_demo.Api.Server.{Server, State}
use kube_extauth_demo.Api.Strict.{respond, with_body}
use kube_extauth_demo.Api.Wrapper.{bound}
use kube_extauth_demo.Api.Router.{
  Operation, Routed, found, unrouted, Router, routes, operate, recovered, serve_routed, serve,
  serve_all,
}
use kube_extauth_demo.Api.Invariants.Handlers.{
  login-Keeps, list_posts-Keeps, create_post-Keeps, delete_post-Keeps, get_post-Keeps,
  replace_post-Keeps, list_comments-Keeps, create_comment-Keeps, delete_comment-Keeps,
  update_comment-Keeps, list_users-Keeps, create_user-Keeps, delete_user-Keeps, get_user-Keeps,
  update_user-Keeps, replace_user-Keeps,
}

module _ {κ} {S : Type 0} {P : S → Type κ} where
  pub Keeps-respond :
      {R : Type 0} (codec : Codec) (visit : R → Result HttpResponse) (m : Exec S R)
      → Keeps P m
      → Keeps P (respond codec visit m)
  unfolding respond
  Keeps-respond codec visit m km = search keeps_rules depth 8

  pub Keeps-with_body :
      {B : Type 0} (codec : Codec) (r : Result B) (k : B → Exec S HttpResponse)
      → ((b : B) → Keeps P (k b))
      → Keeps P (with_body codec r k)
  unfolding with_body
  Keeps-with_body codec (ok b) k kk = kk b
  Keeps-with_body codec (err e) k kk = Keeps-pure _

  pub Keeps-bound :
      {A : Type 0} (answer : Err → HttpResponse) (r : Result A) (k : A → Exec S HttpResponse)
      → ((a : A) → Keeps P (k a))
      → Keeps P (bound answer r k)
  unfolding bound
  Keeps-bound answer (ok a) k kk = kk a
  Keeps-bound answer (err e) k kk = Keeps-pure _

pub ruleset request_rules = (Keeps-respond, Keeps-with_body, Keeps-bound)

-- The operations that only read: login and those of the GET routes.
abbrev pub reads : Operation → Bool
reads Operation.login = true
reads Operation.list_posts = true
reads Operation.create_post = false
reads Operation.delete_post = false
reads Operation.get_post = true
reads Operation.replace_post = false
reads Operation.list_comments = true
reads Operation.create_comment = false
reads Operation.delete_comment = false
reads Operation.update_comment = false
reads Operation.list_users = true
reads Operation.create_user = false
reads Operation.delete_user = false
reads Operation.get_user = true
reads Operation.update_user = false
reads Operation.replace_user = false

module _ {κ} (s : Server) (codec : Codec) {P : State s → Type κ} (k : ReadsKeep s.q P) where
  -- An operation that only reads keeps what the queries that read keep.
  pub operate_read-Keeps :
      (env : Env) (ctx : Context) (o : Operation) (r : HttpRequest)
      → reads o ≡ true
      → Keeps P (operate s codec env ctx o r)
  unfolding operate
  operate_read-Keeps env ctx Operation.login r h =
      search (request_rules, login-Keeps s env k) depth 12
  operate_read-Keeps env ctx Operation.list_posts r h =
      search (request_rules, list_posts-Keeps s env k) depth 12
  operate_read-Keeps env ctx Operation.create_post r h = cc
  operate_read-Keeps env ctx Operation.delete_post r h = cc
  operate_read-Keeps env ctx Operation.get_post r h =
      search (request_rules, get_post-Keeps s env k) depth 12
  operate_read-Keeps env ctx Operation.replace_post r h = cc
  operate_read-Keeps env ctx Operation.list_comments r h =
      search (request_rules, list_comments-Keeps s k) depth 12
  operate_read-Keeps env ctx Operation.create_comment r h = cc
  operate_read-Keeps env ctx Operation.delete_comment r h = cc
  operate_read-Keeps env ctx Operation.update_comment r h = cc
  operate_read-Keeps env ctx Operation.list_users r h =
      search (request_rules, list_users-Keeps s env k) depth 12
  operate_read-Keeps env ctx Operation.create_user r h = cc
  operate_read-Keeps env ctx Operation.delete_user r h = cc
  operate_read-Keeps env ctx Operation.get_user r h =
      search (request_rules, get_user-Keeps s env k) depth 12
  operate_read-Keeps env ctx Operation.update_user r h = cc
  operate_read-Keeps env ctx Operation.replace_user r h = cc

module _ {κ} (s : Server) (codec : Codec) {P : State s → Type κ} (k : QueriesKeep s.q P) where
  operate-Keeps :
      (env : Env) (ctx : Context) (o : Operation) (r : HttpRequest)
      → Keeps P (operate s codec env ctx o r)
  unfolding operate
  operate-Keeps env ctx Operation.login r =
      search (request_rules, login-Keeps s env k.reads) depth 12
  operate-Keeps env ctx Operation.list_posts r =
      search (request_rules, list_posts-Keeps s env k.reads) depth 12
  operate-Keeps env ctx Operation.create_post r =
      search (request_rules, create_post-Keeps s env k ctx) depth 12
  operate-Keeps env ctx Operation.delete_post r =
      search (request_rules, delete_post-Keeps s env k) depth 12
  operate-Keeps env ctx Operation.get_post r =
      search (request_rules, get_post-Keeps s env k.reads) depth 12
  operate-Keeps env ctx Operation.replace_post r =
      search (request_rules, replace_post-Keeps s env k) depth 12
  operate-Keeps env ctx Operation.list_comments r =
      search (request_rules, list_comments-Keeps s k.reads) depth 12
  operate-Keeps env ctx Operation.create_comment r =
      search (request_rules, create_comment-Keeps s k ctx) depth 12
  operate-Keeps env ctx Operation.delete_comment r =
      search (request_rules, delete_comment-Keeps s k) depth 12
  operate-Keeps env ctx Operation.update_comment r =
      search (request_rules, update_comment-Keeps s k) depth 12
  operate-Keeps env ctx Operation.list_users r =
      search (request_rules, list_users-Keeps s env k.reads) depth 12
  operate-Keeps env ctx Operation.create_user r =
      search (request_rules, create_user-Keeps s env k) depth 12
  operate-Keeps env ctx Operation.delete_user r =
      search (request_rules, delete_user-Keeps s env k) depth 12
  operate-Keeps env ctx Operation.get_user r =
      search (request_rules, get_user-Keeps s env k.reads) depth 12
  operate-Keeps env ctx Operation.update_user r =
      search (request_rules, update_user-Keeps s env k) depth 12
  operate-Keeps env ctx Operation.replace_user r =
      search (request_rules, replace_user-Keeps s env k) depth 12

  pub recovered-keeps :
      (result : Result HttpResponse × State s) → P result.1 → P (recovered s codec result).1
  recovered-keeps (ok response, st) h = h
  recovered-keeps (err e, st) h = h

  routed-keeps :
      (env : Env) (ctx : Context) (r : HttpRequest) (to : Routed) (st : State s)
      → P st
      → P (serve_routed s codec env ctx r to st).1
  routed-keeps env ctx r (found route params) st h =
      recovered-keeps _
        ((operate-Keeps env ctx route.operation (record r { url_param = params })).at st h)
  routed-keeps env ctx r (unrouted response) st h = h

  pub serve-keeps :
      (parser : TokenParser) (router : Router) (env : Env) (r : HttpRequest) (st : State s)
      → P st
      → P (serve s codec parser router env r st).1
  unfolding serve
  serve-keeps parser router env r st h =
      routed-keeps env (identity parser r.authorization) r (router routes r) st h

  -- Whatever requests are served, one after the other, an invariant that every query keeps holds
  -- after them if it held before.
  pub serve_all-keeps :
      (parser : TokenParser) (router : Router) (requests : List (Env × HttpRequest)) (st : State s)
      → P st
      → P (serve_all s codec parser router requests st)
  unfolding serve_all
  serve_all-keeps parser router [] st h = h
  serve_all-keeps parser router ((env, r) ∷ rest) st h =
      serve_all-keeps parser router rest _ (serve-keeps parser router env r st h)
