-- ===== src/Api/Refusals.antt =====
-- Requests that are refused before a query is made, whatever the database.
pub mod MalformedIds
use kube_extauth_demo.Prelude.{
  ◌≡◌, refl, ap, ◌∙◌, ◌==◌, inl, inr, Bool-cases, eq_iff, List, [], ◌∷◌, String, string_eq, Bool,
  true, false, Option, none, some,
}
use kube_extauth_demo.Prelude.Tables.{has_row}
use kube_extauth_demo.Effect.Outcomes.{Result-cases}
use kube_extauth_demo.Prelude.Text.{cut_prefix}
use kube_extauth_demo.Effect.{Err, Result, ok, err, Exec, pure}
use kube_extauth_demo.Effect.Keeps.{Keeps, Keeps-pure}
use kube_extauth_demo.Db.Models.{Uuid}
use kube_extauth_demo.External.{Env}
use kube_extauth_demo.Api.Mapping.{Context}
use kube_extauth_demo.Api.Http.{HttpResponse}
use kube_extauth_demo.Api.Codec.{Codec, HttpRequest}
use kube_extauth_demo.Api.Identity.{TokenParser, bearer_token, identity}
use kube_extauth_demo.Api.Server.{Server, State}
use kube_extauth_demo.Api.Requests.{CreatePostRequestObject, CreateCommentRequestObject}
use kube_extauth_demo.Api.Posts as PostsH
use kube_extauth_demo.Api.Comments as CommentsH
use kube_extauth_demo.Api.Strict as Strict
use kube_extauth_demo.Api.Wrapper as Wrapper
use kube_extauth_demo.Api.Wrapper.{bound, invalid_format}
use kube_extauth_demo.Api.Router.{Operation, operate}
use kube_extauth_demo.Api.Invariants.Requests.{request_rules}

module _ {κ} (s : Server) (codec : Codec) (env : Env) {ctx : Context} {P : State s → Type κ}
    (h : ctx.sub ≡ none) where
  handler-create_post :
      (request : CreatePostRequestObject) → Keeps P (PostsH.create_post s env ctx request)
  unfolding PostsH.create_post
  handler-create_post request = rw h (Keeps-pure _)

  handler-create_comment :
      (request : CreateCommentRequestObject) → Keeps P (CommentsH.create_comment s ctx request)
  unfolding CommentsH.create_comment
  handler-create_comment request = rw h (Keeps-pure _)

  Keeps-create_post : (r : HttpRequest) → Keeps P (operate s codec env ctx Operation.create_post r)
  unfolding operate Wrapper.create_post Strict.create_post
  Keeps-create_post r = search (request_rules, handler-create_post) depth 8

  Keeps-create_comment :
      (r : HttpRequest) → Keeps P (operate s codec env ctx Operation.create_comment r)
  unfolding operate Wrapper.create_comment Strict.create_comment
  Keeps-create_comment r = search (request_rules, handler-create_comment) depth 8

identity-none :
    (parser : TokenParser) (header : String)
    → cut_prefix header "Bearer " ≡ none
    → (identity parser header).sub ≡ none
unfolding identity bearer_token
identity-none parser header h =
    let empty : bearer_token header ≡ "" = rw (h, bearer_token) refl in rw (empty, identity) refl

-- The operations that ask for an identity.
abbrev pub needs_identity : Operation → Bool
needs_identity Operation.create_post = true
needs_identity Operation.create_comment = true
needs_identity _ = false

-- Without a bearer token in the Authorization header, a request to create a post or a comment
-- changes nothing, whatever the database and the parser of tokens are and whatever the request
-- carries.
pub operate-anonymous :
    (s : Server) (codec : Codec) (parser : TokenParser) (env : Env) (o : Operation)
    (r : HttpRequest) (st : State s)
    → needs_identity o ≡ true
    → cut_prefix r.authorization "Bearer " ≡ none
    → (operate s codec env (identity parser r.authorization) o r st).1 ≡ st
unfolding operate
operate-anonymous s codec parser env Operation.create_post r st needs h =
    (Keeps-create_post s codec env {P = λ x. x ≡ st} (identity-none parser r.authorization h) r).at
      st refl
operate-anonymous s codec parser env Operation.create_comment r st needs h =
    (Keeps-create_comment s codec env {P = λ x. x ≡ st} (identity-none parser r.authorization h)
        r).at
      st refl
operate-anonymous s codec parser env Operation.login r st needs h = cc
operate-anonymous s codec parser env Operation.list_posts r st needs h = cc
operate-anonymous s codec parser env Operation.delete_post r st needs h = cc
operate-anonymous s codec parser env Operation.get_post r st needs h = cc
operate-anonymous s codec parser env Operation.replace_post r st needs h = cc
operate-anonymous s codec parser env Operation.list_comments r st needs h = cc
operate-anonymous s codec parser env Operation.delete_comment r st needs h = cc
operate-anonymous s codec parser env Operation.update_comment r st needs h = cc
operate-anonymous s codec parser env Operation.list_users r st needs h = cc
operate-anonymous s codec parser env Operation.create_user r st needs h = cc
operate-anonymous s codec parser env Operation.delete_user r st needs h = cc
operate-anonymous s codec parser env Operation.get_user r st needs h = cc
operate-anonymous s codec parser env Operation.update_user r st needs h = cc
operate-anonymous s codec parser env Operation.replace_user r st needs h = cc
