-- ===== src/Api/Statuses/Served.antt =====
-- The status codes of the answers of `Handler` of sample-api/pkg/openapi/server.go to requests that the
-- router hands to an operation.
use kube_extauth_demo.Prelude.{String, ◌≡◌, refl, ◌⊎◌, inl, inr, ℕ, ◌≤◌, true, arith, nat_eq}
use kube_extauth_demo.Prelude.Tables.{has_row}
use kube_extauth_demo.Effect.{Result, ok, err}
use kube_extauth_demo.Db.Queries.Answers.{QueriesAnswer, any-QueriesAnswer}
use kube_extauth_demo.Db.Client.{Dbtx}
use kube_extauth_demo.Db.Client.Lost.{IsLost, new-QueriesAnswer}
use kube_extauth_demo.External.{Crypto, Env}
use kube_extauth_demo.Auth.{Signer}
use kube_extauth_demo.Api.Http.{HttpResponse}
use kube_extauth_demo.Api.Codec.{Codec, HttpRequest}
use kube_extauth_demo.Api.Identity.{TokenParser, identity}
use kube_extauth_demo.Api.Server.{Server, State, new_server}
use kube_extauth_demo.Api.Router.{Operation, Route, Router, routes, found, recovered, serve}
use kube_extauth_demo.Api.Statuses.{IsAnswer, success, is_failure}
use kube_extauth_demo.Api.Statuses.Requests.{operate-Answers}

failure-status : (o : Operation) (status : ℕ) → is_failure o status ≡ true → 400 ≤ status
unfolding has_row
failure-status Operation.login status h = ground arith
failure-status Operation.list_posts status h = ground arith
failure-status Operation.create_post status h = ground arith
failure-status Operation.delete_post status h = ground arith
failure-status Operation.get_post status h = ground arith
failure-status Operation.replace_post status h = ground arith
failure-status Operation.list_comments status h = ground arith
failure-status Operation.create_comment status h = ground arith
failure-status Operation.delete_comment status h = ground arith
failure-status Operation.update_comment status h = ground arith
failure-status Operation.list_users status h = ground arith
failure-status Operation.create_user status h = ground arith
failure-status Operation.delete_user status h = ground arith
failure-status Operation.get_user status h = ground arith
failure-status Operation.update_user status h = ground arith
failure-status Operation.replace_user status h = ground arith

failed-500 : (o : Operation) → is_failure o 500 ≡ true
unfolding has_row
failed-500 Operation.login = refl
failed-500 Operation.list_posts = refl
failed-500 Operation.create_post = refl
failed-500 Operation.delete_post = refl
failed-500 Operation.get_post = refl
failed-500 Operation.replace_post = refl
failed-500 Operation.list_comments = refl
failed-500 Operation.create_comment = refl
failed-500 Operation.delete_comment = refl
failed-500 Operation.update_comment = refl
failed-500 Operation.list_users = refl
failed-500 Operation.create_user = refl
failed-500 Operation.delete_user = refl
failed-500 Operation.get_user = refl
failed-500 Operation.update_user = refl
failed-500 Operation.replace_user = refl

module _ (s : Server) (codec : Codec) where
  recovered-IsAnswer :
      {C : Type 0} (o : Operation) (result : Result HttpResponse × State s)
      → ((a : HttpResponse) → result.0 ≡ ok a → IsAnswer C o a.status)
      → is_failure o 500 ≡ true
      → IsAnswer C o (recovered s codec result).0.status
  recovered-IsAnswer o (ok response, st) answered h = answered response refl
  recovered-IsAnswer o (err e, st) answered h = record { expected = inr h }

  serve-IsAnswer :
      {C : Type 0}
      → QueriesAnswer s.q C
      → (parser : TokenParser) (router : Router) (env : Env) (r : HttpRequest) (route : Route)
        (params : String → String) (st : State s)
      → router routes r ≡ found route params
      → IsAnswer C route.operation (serve s codec parser router env r st).0.status
  unfolding serve
  serve-IsAnswer d parser router env r route params st h =
      rw (h, serve)
        (recovered-IsAnswer route.operation _
          ((operate-Answers s codec d env (identity parser r.authorization) route.operation
              (record r { url_param = params })).at
            st)
          (failed-500 route.operation))

module _ (parser : TokenParser) (router : Router) (codec : Codec) (env : Env) (r : HttpRequest)
    (route : Route) (params : String → String) (handed : router routes r ≡ found route params) where
  -- A request that the router hands to an operation is answered with the operation's status of success
  -- or with one of its statuses of failure, and no other: whatever the database does, panics and
  -- errors of the encoder included.
  pub serve-status :
      (s : Server) (st : State s)
      → ((serve s codec parser router env r st).0.status ≡ success route.operation)
        ⊎ (is_failure route.operation (serve s codec parser router env r st).0.status ≡ true)
  serve-status s st =
      elim (serve-IsAnswer s codec (any-QueriesAnswer s.q) parser router env r route params st
        handed).expected [ inl (same, _) ↦ inl same | inr failure ↦ inr failure ]

  -- While every call of the database connection fails, no request that the router hands to an
  -- operation is answered with success: the status is one of the operation's statuses of failure,
  -- and is 400 or more.
  pub serve-lost :
      (db : Dbtx) (crypto : Crypto) (signer : Signer crypto) (st : db.State)
      → IsLost db
      → (is_failure route.operation
            (serve (new_server db crypto signer) codec parser router env r st).0.status
          ≡ true)
        × (400 ≤ (serve (new_server db crypto signer) codec parser router env r st).0.status)
  serve-lost db crypto signer st lost =
      elim (serve-IsAnswer (new_server db crypto signer) codec (new-QueriesAnswer db lost) parser
        router env r route params st handed).expected [
          | inl (_, never) ↦ elim never [ ]
          | inr failure ↦ (failure, failure-status route.operation _ failure)
        ]
