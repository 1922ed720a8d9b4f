-- ===== src/Api/Statuses/Contents.antt =====
-- The status codes of what the handlers of sample-api/pkg/openapi/post.go and comment.go answer.
use kube_extauth_demo.Prelude.{ℕ, String, Option-cases, inl, inr}
use kube_extauth_demo.Effect.{Result}
use kube_extauth_demo.Effect.Answers.{Answers, Answers-check, Answers-raise}
use kube_extauth_demo.Db.Queries.Answers.{QueriesAnswer}
use kube_extauth_demo.External.{Env}
use kube_extauth_demo.Api.Http.{Payload}
use kube_extauth_demo.Api.Server.{Server}
use kube_extauth_demo.Api.Statuses.Written.{Written, handler_rules}
use kube_extauth_demo.Api.Mapping.{Context, identity_from_ctx}
use kube_extauth_demo.Api.Posts.{list_posts, create_post, get_post, replace_post, delete_post}
use kube_extauth_demo.Api.Comments.{list_comments, create_comment, update_comment, delete_comment}
use kube_extauth_demo.Api.Responses.Posts.{
  visit_list_posts_response, visit_create_post_response, visit_delete_post_response,
  visit_get_post_response, visit_replace_post_response,
}
use kube_extauth_demo.Api.Responses.Comments.{
  visit_list_comments_response, visit_create_comment_response, visit_delete_comment_response,
  visit_update_comment_response,
}
use kube_extauth_demo.Api.Requests.{
  ListPostsRequestObject, CreatePostRequestObject, DeletePostRequestObject, GetPostRequestObject,
  ReplacePostRequestObject, ListCommentsRequestObject, CreateCommentRequestObject,
  DeleteCommentRequestObject, UpdateCommentRequestObject,
}

module _ (s : Server) (env : Env) (encode : Payload → Result String) {C : Type 0} {P : ℕ → Type 0}
    (d : QueriesAnswer s.q C) where
  pub list_posts-Answers :
      (request : ListPostsRequestObject)
      → (C → P 200)
      → Answers (λ r. Written P (visit_list_posts_response encode r)) (list_posts s env request)
  unfolding list_posts visit_list_posts_response
  list_posts-Answers request p200 =
      Answers-check C _ _ _ (d.list_posts _) (λ e. Answers-raise e)
        λ rows c.
          Answers-check C _ _ _ (d.count_posts _) (λ e. Answers-raise e)
            λ total _. search handler_rules

  pub create_post-Answers :
      (ctx : Context) (request : CreatePostRequestObject)
      → P 400
      → P 401
      → (C → P 201)
      → Answers
          (λ r. Written P (visit_create_post_response encode r))
          (create_post s env ctx request)
  unfolding create_post visit_create_post_response
  create_post-Answers ctx request p400 p401 p201 = elim (Option-cases (identity_from_ctx ctx)) [
    | inl e ↦ rw (e, create_post) (search handler_rules)
    | inr (author, e) ↦ elim (Option-cases request.body) [
      | inl f ↦ rw (e, f, create_post) (search handler_rules)
      | inr (body, f) ↦
          rw (e, f, create_post)
            (search (handler_rules, Answers-check {0, 0, 0} C, d.create_post) depth 12)
    ]
  ]

  pub delete_post-Answers :
      (request : DeletePostRequestObject)
      → (C → P 204)
      → Answers (λ r. Written P (visit_delete_post_response encode r)) (delete_post s env request)
  unfolding delete_post visit_delete_post_response
  delete_post-Answers request p204 =
      search (handler_rules, Answers-check {0, 0, 0} C, d.delete_post) depth 12

  pub get_post-Answers :
      (request : GetPostRequestObject)
      → P 404
      → (C → P 200)
      → Answers (λ r. Written P (visit_get_post_response encode r)) (get_post s env request)
  unfolding get_post visit_get_post_response
  get_post-Answers request p404 p200 =
      search (handler_rules, Answers-check {0, 0, 0} C, d.get_post) depth 12

  pub replace_post-Answers :
      (request : ReplacePostRequestObject)
      → P 400
      → P 404
      → (C → P 200)
      → Answers (λ r. Written P (visit_replace_post_response encode r)) (replace_post s env request)
  unfolding replace_post visit_replace_post_response
  replace_post-Answers request p400 p404 p200 = elim (Option-cases request.body) [
    | inl e ↦ rw (e, replace_post) (search handler_rules)
    | inr (body, e) ↦
        rw (e, replace_post)
          (search (handler_rules, Answers-check {0, 0, 0} C, d.replace_post) depth 12)
  ]

  pub list_comments-Answers :
      (request : ListCommentsRequestObject)
      → P 404
      → (C → P 200)
      → Answers (λ r. Written P (visit_list_comments_response encode r)) (list_comments s request)
  unfolding list_comments visit_list_comments_response
  list_comments-Answers request p404 p200 =
      search
        (handler_rules, Answers-check {0, 0, 0} C, d.get_post, d.list_comments, d.count_comments)
        depth 12

  pub create_comment-Answers :
      (ctx : Context) (request : CreateCommentRequestObject)
      → P 400
      → P 401
      → P 404
      → (C → P 201)
      → Answers
          (λ r. Written P (visit_create_comment_response encode r))
          (create_comment s ctx request)
  unfolding create_comment visit_create_comment_response
  create_comment-Answers ctx request p400 p401 p404 p201 =
      elim (Option-cases (identity_from_ctx ctx)) [
        | inl e ↦ rw (e, create_comment) (search handler_rules)
        | inr (author, e) ↦ elim (Option-cases request.body) [
          | inl f ↦ rw (e, f, create_comment) (search handler_rules)
          | inr (body, f) ↦
              rw (e, f, create_comment)
                (search (handler_rules, Answers-check {0, 0, 0} C, d.create_comment) depth 12)
        ]
      ]

  pub delete_comment-Answers :
      (request : DeleteCommentRequestObject)
      → (C → P 204)
      → Answers (λ r. Written P (visit_delete_comment_response encode r)) (delete_comment s request)
  unfolding delete_comment visit_delete_comment_response
  delete_comment-Answers request p204 =
      search (handler_rules, Answers-check {0, 0, 0} C, d.delete_comment) depth 12

  pub update_comment-Answers :
      (request : UpdateCommentRequestObject)
      → P 400
      → P 404
      → (C → P 200)
      → Answers (λ r. Written P (visit_update_comment_response encode r)) (update_comment s request)
  unfolding update_comment visit_update_comment_response
  update_comment-Answers request p400 p404 p200 = elim (Option-cases request.body) [
    | inl e ↦ rw (e, update_comment) (search handler_rules)
    | inr (body, e) ↦
        rw (e, update_comment)
          (search (handler_rules, Answers-check {0, 0, 0} C, d.update_comment) depth 12)
  ]
