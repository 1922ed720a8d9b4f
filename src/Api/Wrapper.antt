-- ===== src/Api/Wrapper.antt =====
-- `ServerInterfaceWrapper` of sample-api/pkg/openapi/gen.go, as HandlerFromMux makes it: no
-- middleware, and an error handler that answers 400. Each method binds the parameters of its
-- operation, in order, and calls the strict handler.
use kube_extauth_demo.Prelude.{String, Option, if◌then◌else◌}
use kube_extauth_demo.Prelude.Int.{ℤ}
use kube_extauth_demo.Effect.{Err, Result, ok, err, Exec, pure}
use kube_extauth_demo.Db.Models.{Uuid}
use kube_extauth_demo.External.{Env}
use kube_extauth_demo.Api.Mapping.{Context}
use kube_extauth_demo.Api.Http.{HttpResponse, http_error}
use kube_extauth_demo.Api.Codec.{
  Codec, HttpRequest, required_param_error, invalid_param_format_error,
}
use kube_extauth_demo.Api.Server.{Server, State}
use kube_extauth_demo.Api.Strict

module _ (codec : Codec) where
  -- siw.ErrorHandlerFunc with an InvalidParamFormatError
  abbrev pub invalid_format : String → Err → HttpResponse
  invalid_format name e = http_error (invalid_param_format_error name (codec.error_text e)) 400

  -- The answer to a query parameter that does not bind.
  abbrev pub query_error : String → Err → HttpResponse
  query_error name e =
      if codec.is_required_error e
      then http_error (required_param_error name) 400
      else invalid_format name e

module _ {κ} {S : Type 0} {A : Type κ} where
  -- A parameter that binds, passed on; or the answer to the error.
  unfoldable pub bound :
      (Err → HttpResponse) → Result A → (A → Exec S HttpResponse) → Exec S HttpResponse
  bound answer (err e) k = pure (answer e)
  bound answer (ok a) k = k a

module _ (s : Server) (codec : Codec) (env : Env) (ctx : Context) where
  abbrev path_uuid :
      HttpRequest → String → (Uuid → Exec (State s) HttpResponse) → Exec (State s) HttpResponse
  path_uuid r name = bound (invalid_format codec name) (codec.bind_uuid name (r.url_param name))

  abbrev query_int32 :
      HttpRequest → String → (Option ℤ → Exec (State s) HttpResponse) → Exec (State s) HttpResponse
  query_int32 r name = bound (query_error codec name) (codec.bind_int32 name r.query)

  abbrev query_string :
      HttpRequest
      → String
      → (Option String → Exec (State s) HttpResponse)
      → Exec (State s) HttpResponse
  query_string r name = bound (query_error codec name) (codec.bind_string name r.query)

  unfoldable pub login : HttpRequest → Exec (State s) HttpResponse
  unfolding Strict.login
  login r = Strict.login s codec env ctx r

  unfoldable pub list_posts : HttpRequest → Exec (State s) HttpResponse
  unfolding Strict.list_posts
  list_posts r = query_int32 r "page" λ page. query_int32 r "per_page" λ per_page.
      query_string r "sort" λ sort. query_string r "status" λ status. query_string r "tag" λ tag.
        query_string r "category" λ category. Strict.list_posts s codec env ctx r (record {
          page = page;
          per_page = per_page;
          sort = sort;
          status = status;
          tag = tag;
          category = category;
        })

  unfoldable pub create_post : HttpRequest → Exec (State s) HttpResponse
  unfolding Strict.create_post
  create_post r = Strict.create_post s codec env ctx r

  unfoldable pub delete_post : HttpRequest → Exec (State s) HttpResponse
  unfolding Strict.delete_post
  delete_post r = path_uuid r "postId" λ post_id. Strict.delete_post s codec env ctx r post_id

  unfoldable pub get_post : HttpRequest → Exec (State s) HttpResponse
  unfolding Strict.get_post
  get_post r = path_uuid r "postId" λ post_id. Strict.get_post s codec env ctx r post_id

  unfoldable pub replace_post : HttpRequest → Exec (State s) HttpResponse
  unfolding Strict.replace_post
  replace_post r = path_uuid r "postId" λ post_id. Strict.replace_post s codec env ctx r post_id

  unfoldable pub list_comments : HttpRequest → Exec (State s) HttpResponse
  unfolding Strict.list_comments
  list_comments r = path_uuid r "postId" λ post_id. query_int32 r "page" λ page.
      query_int32 r "per_page" λ per_page. query_string r "sort" λ sort.
        Strict.list_comments s codec env ctx r post_id
          (record { page = page; per_page = per_page; sort = sort })

  unfoldable pub create_comment : HttpRequest → Exec (State s) HttpResponse
  unfolding Strict.create_comment
  create_comment r = path_uuid r "postId" λ post_id. Strict.create_comment s codec env ctx r post_id

  unfoldable pub delete_comment : HttpRequest → Exec (State s) HttpResponse
  unfolding Strict.delete_comment
  delete_comment r = path_uuid r "postId" λ post_id.
      path_uuid r "commentId"
        λ comment_id. Strict.delete_comment s codec env ctx r post_id comment_id

  unfoldable pub update_comment : HttpRequest → Exec (State s) HttpResponse
  unfolding Strict.update_comment
  update_comment r = path_uuid r "postId" λ post_id.
      path_uuid r "commentId"
        λ comment_id. Strict.update_comment s codec env ctx r post_id comment_id

  unfoldable pub list_users : HttpRequest → Exec (State s) HttpResponse
  unfolding Strict.list_users
  list_users r = query_int32 r "page" λ page. query_int32 r "per_page" λ per_page.
      query_string r "sort" λ sort.
        Strict.list_users s codec env ctx r
          (record { page = page; per_page = per_page; sort = sort })

  unfoldable pub create_user : HttpRequest → Exec (State s) HttpResponse
  unfolding Strict.create_user
  create_user r = Strict.create_user s codec env ctx r

  unfoldable pub delete_user : HttpRequest → Exec (State s) HttpResponse
  unfolding Strict.delete_user
  delete_user r = path_uuid r "userId" λ user_id. Strict.delete_user s codec env ctx r user_id

  unfoldable pub get_user : HttpRequest → Exec (State s) HttpResponse
  unfolding Strict.get_user
  get_user r = path_uuid r "userId" λ user_id. Strict.get_user s codec env ctx r user_id

  unfoldable pub update_user : HttpRequest → Exec (State s) HttpResponse
  unfolding Strict.update_user
  update_user r = path_uuid r "userId" λ user_id. Strict.update_user s codec env ctx r user_id

  unfoldable pub replace_user : HttpRequest → Exec (State s) HttpResponse
  unfolding Strict.replace_user
  replace_user r = path_uuid r "userId" λ user_id. Strict.replace_user s codec env ctx r user_id
