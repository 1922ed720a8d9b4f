-- ===== src/Api/Responses/Comments.antt =====
-- The response objects of the operations on comments and how they are written (sample-api/pkg/openapi/gen.go).
use kube_extauth_demo.Prelude.{String}
use kube_extauth_demo.Effect.{Result, ok}
use kube_extauth_demo.Api.Types.{Error, Comment, CommentList}
use kube_extauth_demo.Api.Http.{
  HttpResponse, Payload, error, comment, comment_list, write_json, no_content,
}

pub data ListCommentsResponseObject : Type 0 where
  list_comments_200_json : CommentList → ListCommentsResponseObject
  list_comments_400_json list_comments_401_json list_comments_404_json :
      Error → ListCommentsResponseObject

pub data CreateCommentResponseObject : Type 0 where
  create_comment_201_json : Comment → CreateCommentResponseObject
  create_comment_400_json create_comment_401_json create_comment_404_json create_comment_422_json :
      Error → CreateCommentResponseObject

pub data DeleteCommentResponseObject : Type 0 where
  delete_comment_204 : DeleteCommentResponseObject
  delete_comment_401_json delete_comment_403_json delete_comment_404_json :
      Error → DeleteCommentResponseObject

pub data UpdateCommentResponseObject : Type 0 where
  update_comment_200_json : Comment → UpdateCommentResponseObject
  update_comment_400_json update_comment_401_json update_comment_403_json update_comment_404_json
        update_comment_422_json :
      Error → UpdateCommentResponseObject

module _ (encode : Payload → Result String) where
  unfoldable pub visit_list_comments_response : ListCommentsResponseObject → Result HttpResponse
  unfolding write_json
  visit_list_comments_response (list_comments_200_json r) = write_json encode 200 (comment_list r)
  visit_list_comments_response (list_comments_400_json e) = write_json encode 400 (error e)
  visit_list_comments_response (list_comments_401_json e) = write_json encode 401 (error e)
  visit_list_comments_response (list_comments_404_json e) = write_json encode 404 (error e)

  unfoldable pub visit_create_comment_response : CreateCommentResponseObject → Result HttpResponse
  unfolding write_json
  visit_create_comment_response (create_comment_201_json r) = write_json encode 201 (comment r)
  visit_create_comment_response (create_comment_400_json e) = write_json encode 400 (error e)
  visit_create_comment_response (create_comment_401_json e) = write_json encode 401 (error e)
  visit_create_comment_response (create_comment_404_json e) = write_json encode 404 (error e)
  visit_create_comment_response (create_comment_422_json e) = write_json encode 422 (error e)

  unfoldable pub visit_delete_comment_response : DeleteCommentResponseObject → Result HttpResponse
  unfolding write_json
  visit_delete_comment_response delete_comment_204 = ok (no_content 204)
  visit_delete_comment_response (delete_comment_401_json e) = write_json encode 401 (error e)
  visit_delete_comment_response (delete_comment_403_json e) = write_json encode 403 (error e)
  visit_delete_comment_response (delete_comment_404_json e) = write_json encode 404 (error e)

  unfoldable pub visit_update_comment_response : UpdateCommentResponseObject → Result HttpResponse
  unfolding write_json
  visit_update_comment_response (update_comment_200_json r) = write_json encode 200 (comment r)
  visit_update_comment_response (update_comment_400_json e) = write_json encode 400 (error e)
  visit_update_comment_response (update_comment_401_json e) = write_json encode 401 (error e)
  visit_update_comment_response (update_comment_403_json e) = write_json encode 403 (error e)
  visit_update_comment_response (update_comment_404_json e) = write_json encode 404 (error e)
  visit_update_comment_response (update_comment_422_json e) = write_json encode 422 (error e)
