-- ===== src/Api/Comments.antt =====
-- sample-api/pkg/openapi/comment.go
use kube_extauth_demo.Prelude.{none, some, map, if◌then◌else◌}
use kube_extauth_demo.Effect.{Exec, pure, check, raise, ◌>>=◌}
use kube_extauth_demo.Api.Mapping.{
  Context, identity_from_ctx, paginate, meta, pg_uuid, to_api_comment, is_not_found,
  is_unique_violation, not_found, bad_request, unauthorized,
}
use kube_extauth_demo.Api.Requests.{
  ListCommentsRequestObject, CreateCommentRequestObject, DeleteCommentRequestObject,
  UpdateCommentRequestObject,
}
use kube_extauth_demo.Api.Responses.Comments.{
  ListCommentsResponseObject, list_comments_200_json, list_comments_404_json,
  CreateCommentResponseObject, create_comment_201_json, create_comment_400_json,
  create_comment_401_json, create_comment_404_json, DeleteCommentResponseObject, delete_comment_204,
  UpdateCommentResponseObject, update_comment_200_json, update_comment_400_json,
  update_comment_404_json,
}
use kube_extauth_demo.Api.Server.{Server, State, on_not_found}

module _ (s : Server) where
  open s use {q}

  unfoldable pub list_comments :
      ListCommentsRequestObject → Exec (State s) ListCommentsResponseObject
  unfolding paginate to_api_comment is_not_found
  list_comments request =
      check (q.get_post (pg_uuid request.post_id))
        (on_not_found (list_comments_404_json (not_found "post not found")))
        λ _. do
          let p = paginate request.params.page request.params.per_page
          rows ←
              q.list_comments
                (record { post_id = pg_uuid request.post_id; limit = p.limit; offset = p.offset })
          total ← q.count_comments (pg_uuid request.post_id)
          pure (
              list_comments_200_json
                (record { items = map to_api_comment rows; meta = meta total p.page p.per_page }))

  unfoldable pub create_comment :
      Context → CreateCommentRequestObject → Exec (State s) CreateCommentResponseObject
  unfolding to_api_comment is_unique_violation
  create_comment ctx request = elim (identity_from_ctx ctx) [
    | none ↦ pure (create_comment_401_json (unauthorized "authentication required"))
    | some author ↦ elim request.body [
      | none ↦ pure (create_comment_400_json (bad_request "empty body"))
      | some body ↦
          check
            (q.create_comment (record {
              post_id = pg_uuid request.post_id;
              author_id = pg_uuid author;
              content = body.content;
            }))
            (λ e.
              if is_unique_violation e
              then pure (create_comment_404_json (not_found "post not found"))
              else raise e)
            (λ created. pure (create_comment_201_json (to_api_comment created)))
    ]
  ]

  unfoldable pub update_comment :
      UpdateCommentRequestObject → Exec (State s) UpdateCommentResponseObject
  unfolding to_api_comment is_not_found
  update_comment request = elim request.body [
    | none ↦ pure (update_comment_400_json (bad_request "empty body"))
    | some body ↦
        check
          (q.update_comment (record { id = pg_uuid request.comment_id; content = body.content }))
          (on_not_found (update_comment_404_json (not_found "comment not found")))
          (λ updated. pure (update_comment_200_json (to_api_comment updated)))
  ]

  unfoldable pub delete_comment :
      DeleteCommentRequestObject → Exec (State s) DeleteCommentResponseObject
  delete_comment request = do
    _ ← q.delete_comment (pg_uuid request.comment_id)
    pure delete_comment_204
