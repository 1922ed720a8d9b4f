-- ===== src/Api/Strict.antt =====
-- `strictHandler` of sample-api/pkg/openapi/gen.go, as NewStrictHandler makes it: no middleware, and
-- the two error handlers that answer 400 and 500. Each method decodes the body, calls the handler of
-- the server and writes its response; a panic goes on to the caller.
use kube_extauth_demo.Prelude.{◌<>◌, some}
use kube_extauth_demo.Effect.{Err, Result, ok, err, Exec, pure, check}
use kube_extauth_demo.Db.Models.{Uuid}
use kube_extauth_demo.External.{Env}
use kube_extauth_demo.Api.Types.{ListPostsParams, ListCommentsParams, ListUsersParams}
use kube_extauth_demo.Api.Mapping.{Context}
use kube_extauth_demo.Api.Http.{HttpResponse, http_error}
use kube_extauth_demo.Api.Codec.{Codec, HttpRequest}
use kube_extauth_demo.Api.Server.{Server, State}
use kube_extauth_demo.Api.Responses.Login as LoginR
use kube_extauth_demo.Api.Responses.Posts as PostsR
use kube_extauth_demo.Api.Responses.Comments as CommentsR
use kube_extauth_demo.Api.Responses.Users as UsersR
use kube_extauth_demo.Api.Login as LoginH
use kube_extauth_demo.Api.Posts as PostsH
use kube_extauth_demo.Api.Comments as CommentsH
use kube_extauth_demo.Api.Users as UsersH

-- options.RequestErrorHandlerFunc, for a body that does not decode
abbrev pub request_error : Codec → Err → HttpResponse
request_error codec e = http_error ("can't decode JSON body: " <> codec.error_text e) 400

-- options.ResponseErrorHandlerFunc
abbrev pub response_error : Codec → Err → HttpResponse
response_error codec e = http_error (codec.error_text e) 500

-- The response that a `Visit…Response` has written, or its error.
abbrev pub visited : Codec → Result HttpResponse → HttpResponse
visited codec (ok response) = response
visited codec (err e) = response_error codec e

-- The end of every method: the error of the handler, or its response, written.
unfoldable pub respond :
    {S R : Type 0} → Codec → (R → Result HttpResponse) → Exec S R → Exec S HttpResponse
respond codec visit m =
    check m (λ e. pure (response_error codec e)) (λ r. pure (visited codec (visit r)))

-- A body that decodes, passed on; or 400.
unfoldable pub with_body {κ} :
    {S : Type 0} {B : Type κ} → Codec → Result B → (B → Exec S HttpResponse) → Exec S HttpResponse
with_body codec (err e) k = pure (request_error codec e)
with_body codec (ok body) k = k body

module _ (s : Server) (codec : Codec) (env : Env) (ctx : Context) where
  unfoldable pub login : HttpRequest → Exec (State s) HttpResponse
  login r = with_body codec (codec.decode_login_request r.body) λ body.
      respond codec (LoginR.visit_login_response codec.encode)
        (LoginH.login s env (record { body = some body }))

  unfoldable pub list_posts : HttpRequest → ListPostsParams → Exec (State s) HttpResponse
  list_posts r params =
      respond codec (PostsR.visit_list_posts_response codec.encode)
        (PostsH.list_posts s env (record { params = params }))

  unfoldable pub create_post : HttpRequest → Exec (State s) HttpResponse
  create_post r = with_body codec (codec.decode_post_create r.body) λ body.
      respond codec (PostsR.visit_create_post_response codec.encode)
        (PostsH.create_post s env ctx (record { body = some body }))

  unfoldable pub delete_post : HttpRequest → Uuid → Exec (State s) HttpResponse
  delete_post r post_id =
      respond codec (PostsR.visit_delete_post_response codec.encode)
        (PostsH.delete_post s env (record { post_id = post_id }))

  unfoldable pub get_post : HttpRequest → Uuid → Exec (State s) HttpResponse
  get_post r post_id =
      respond codec (PostsR.visit_get_post_response codec.encode)
        (PostsH.get_post s env (record { post_id = post_id }))

  unfoldable pub replace_post : HttpRequest → Uuid → Exec (State s) HttpResponse
  replace_post r post_id = with_body codec (codec.decode_post_create r.body) λ body.
      respond codec (PostsR.visit_replace_post_response codec.encode)
        (PostsH.replace_post s env (record { post_id = post_id; body = some body }))

  unfoldable pub list_comments :
      HttpRequest → Uuid → ListCommentsParams → Exec (State s) HttpResponse
  list_comments r post_id params =
      respond codec (CommentsR.visit_list_comments_response codec.encode)
        (CommentsH.list_comments s (record { post_id = post_id; params = params }))

  unfoldable pub create_comment : HttpRequest → Uuid → Exec (State s) HttpResponse
  create_comment r post_id = with_body codec (codec.decode_comment_create r.body) λ body.
      respond codec (CommentsR.visit_create_comment_response codec.encode)
        (CommentsH.create_comment s ctx (record { post_id = post_id; body = some body }))

  unfoldable pub delete_comment : HttpRequest → Uuid → Uuid → Exec (State s) HttpResponse
  delete_comment r post_id comment_id =
      respond codec (CommentsR.visit_delete_comment_response codec.encode)
        (CommentsH.delete_comment s (record { post_id = post_id; comment_id = comment_id }))

  unfoldable pub update_comment : HttpRequest → Uuid → Uuid → Exec (State s) HttpResponse
  update_comment r post_id comment_id = with_body codec (codec.decode_comment_update r.body) λ body.
      respond codec (CommentsR.visit_update_comment_response codec.encode) (
        CommentsH.update_comment s
          (record { post_id = post_id; comment_id = comment_id; body = some body }))

  unfoldable pub list_users : HttpRequest → ListUsersParams → Exec (State s) HttpResponse
  list_users r params =
      respond codec (UsersR.visit_list_users_response codec.encode)
        (UsersH.list_users s env (record { params = params }))

  unfoldable pub create_user : HttpRequest → Exec (State s) HttpResponse
  create_user r = with_body codec (codec.decode_user_create r.body) λ body.
      respond codec (UsersR.visit_create_user_response codec.encode)
        (UsersH.create_user s env (record { body = some body }))

  unfoldable pub delete_user : HttpRequest → Uuid → Exec (State s) HttpResponse
  delete_user r user_id =
      respond codec (UsersR.visit_delete_user_response codec.encode)
        (UsersH.delete_user s env (record { user_id = user_id }))

  unfoldable pub get_user : HttpRequest → Uuid → Exec (State s) HttpResponse
  get_user r user_id =
      respond codec (UsersR.visit_get_user_response codec.encode)
        (UsersH.get_user s env (record { user_id = user_id }))

  unfoldable pub update_user : HttpRequest → Uuid → Exec (State s) HttpResponse
  update_user r user_id = with_body codec (codec.decode_user_update r.body) λ body.
      respond codec (UsersR.visit_update_user_response codec.encode)
        (UsersH.update_user s env (record { user_id = user_id; body = some body }))

  unfoldable pub replace_user : HttpRequest → Uuid → Exec (State s) HttpResponse
  replace_user r user_id = with_body codec (codec.decode_user_create r.body) λ body.
      respond codec (UsersR.visit_replace_user_response codec.encode)
        (UsersH.replace_user s env (record { user_id = user_id; body = some body }))
