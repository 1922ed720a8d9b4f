-- ===== src/Api/Responses/Posts.antt =====
-- The response objects of the operations on posts and how they are written (sample-api/pkg/openapi/gen.go).
use kube_extauth_demo.Prelude.{String}
use kube_extauth_demo.Effect.{Result, ok}
use kube_extauth_demo.Api.Types.{Error, Post, PostList}
use kube_extauth_demo.Api.Http.{
  HttpResponse, Payload, error, post, post_list, write_json, no_content,
}

pub data ListPostsResponseObject : Type 0 where
  list_posts_200_json : PostList → ListPostsResponseObject
  list_posts_400_json list_posts_401_json : Error → ListPostsResponseObject

pub data CreatePostResponseObject : Type 0 where
  create_post_201_json : Post → CreatePostResponseObject
  create_post_400_json create_post_401_json create_post_403_json create_post_422_json :
      Error → CreatePostResponseObject

pub data DeletePostResponseObject : Type 0 where
  delete_post_204 : DeletePostResponseObject
  delete_post_401_json delete_post_403_json delete_post_404_json : Error → DeletePostResponseObject

pub data GetPostResponseObject : Type 0 where
  get_post_200_json : Post → GetPostResponseObject
  get_post_401_json get_post_404_json : Error → GetPostResponseObject

pub data ReplacePostResponseObject : Type 0 where
  replace_post_200_json : Post → ReplacePostResponseObject
  replace_post_400_json replace_post_401_json replace_post_403_json replace_post_404_json
        replace_post_422_json :
      Error → ReplacePostResponseObject

module _ (encode : Payload → Result String) where
  unfoldable pub visit_list_posts_response : ListPostsResponseObject → Result HttpResponse
  unfolding write_json
  visit_list_posts_response (list_posts_200_json r) = write_json encode 200 (post_list r)
  visit_list_posts_response (list_posts_400_json e) = write_json encode 400 (error e)
  visit_list_posts_response (list_posts_401_json e) = write_json encode 401 (error e)

  unfoldable pub visit_create_post_response : CreatePostResponseObject → Result HttpResponse
  unfolding write_json
  visit_create_post_response (create_post_201_json r) = write_json encode 201 (post r)
  visit_create_post_response (create_post_400_json e) = write_json encode 400 (error e)
  visit_create_post_response (create_post_401_json e) = write_json encode 401 (error e)
  visit_create_post_response (create_post_403_json e) = write_json encode 403 (error e)
  visit_create_post_response (create_post_422_json e) = write_json encode 422 (error e)

  unfoldable pub visit_delete_post_response : DeletePostResponseObject → Result HttpResponse
  unfolding write_json
  visit_delete_post_response delete_post_204 = ok (no_content 204)
  visit_delete_post_response (delete_post_401_json e) = write_json encode 401 (error e)
  visit_delete_post_response (delete_post_403_json e) = write_json encode 403 (error e)
  visit_delete_post_response (delete_post_404_json e) = write_json encode 404 (error e)

  unfoldable pub visit_get_post_response : GetPostResponseObject → Result HttpResponse
  unfolding write_json
  visit_get_post_response (get_post_200_json r) = write_json encode 200 (post r)
  visit_get_post_response (get_post_401_json e) = write_json encode 401 (error e)
  visit_get_post_response (get_post_404_json e) = write_json encode 404 (error e)

  unfoldable pub visit_replace_post_response : ReplacePostResponseObject → Result HttpResponse
  unfolding write_json
  visit_replace_post_response (replace_post_200_json r) = write_json encode 200 (post r)
  visit_replace_post_response (replace_post_400_json e) = write_json encode 400 (error e)
  visit_replace_post_response (replace_post_401_json e) = write_json encode 401 (error e)
  visit_replace_post_response (replace_post_403_json e) = write_json encode 403 (error e)
  visit_replace_post_response (replace_post_404_json e) = write_json encode 404 (error e)
  visit_replace_post_response (replace_post_422_json e) = write_json encode 422 (error e)
