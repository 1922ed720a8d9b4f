-- ===== src/Api/Responses/Users.antt =====
-- The response objects of the operations on users and how they are written (sample-api/pkg/openapi/gen.go).
use kube_extauth_demo.Prelude.{String}
use kube_extauth_demo.Effect.{Result, ok}
use kube_extauth_demo.Api.Types.{Error, User, UserList}
use kube_extauth_demo.Api.Http.{
  HttpResponse, Payload, error, user, user_list, write_json, no_content,
}

pub data ListUsersResponseObject : Type 0 where
  list_users_200_json : UserList → ListUsersResponseObject
  list_users_400_json list_users_401_json list_users_403_json : Error → ListUsersResponseObject

pub data CreateUserResponseObject : Type 0 where
  create_user_201_json : User → CreateUserResponseObject
  create_user_400_json create_user_401_json create_user_403_json create_user_409_json
        create_user_422_json :
      Error → CreateUserResponseObject

pub data DeleteUserResponseObject : Type 0 where
  delete_user_204 : DeleteUserResponseObject
  delete_user_401_json delete_user_403_json delete_user_404_json : Error → DeleteUserResponseObject

pub data GetUserResponseObject : Type 0 where
  get_user_200_json : User → GetUserResponseObject
  get_user_401_json get_user_403_json get_user_404_json : Error → GetUserResponseObject

pub data UpdateUserResponseObject : Type 0 where
  update_user_200_json : User → UpdateUserResponseObject
  update_user_400_json update_user_401_json update_user_403_json update_user_404_json
        update_user_409_json update_user_422_json :
      Error → UpdateUserResponseObject

pub data ReplaceUserResponseObject : Type 0 where
  replace_user_200_json : User → ReplaceUserResponseObject
  replace_user_400_json replace_user_401_json replace_user_403_json replace_user_404_json
        replace_user_409_json replace_user_422_json :
      Error → ReplaceUserResponseObject

module _ (encode : Payload → Result String) where
  unfoldable pub visit_list_users_response : ListUsersResponseObject → Result HttpResponse
  unfolding write_json
  visit_list_users_response (list_users_200_json r) = write_json encode 200 (user_list r)
  visit_list_users_response (list_users_400_json e) = write_json encode 400 (error e)
  visit_list_users_response (list_users_401_json e) = write_json encode 401 (error e)
  visit_list_users_response (list_users_403_json e) = write_json encode 403 (error e)

  unfoldable pub visit_create_user_response : CreateUserResponseObject → Result HttpResponse
  unfolding write_json
  visit_create_user_response (create_user_201_json r) = write_json encode 201 (user r)
  visit_create_user_response (create_user_400_json e) = write_json encode 400 (error e)
  visit_create_user_response (create_user_401_json e) = write_json encode 401 (error e)
  visit_create_user_response (create_user_403_json e) = write_json encode 403 (error e)
  visit_create_user_response (create_user_409_json e) = write_json encode 409 (error e)
  visit_create_user_response (create_user_422_json e) = write_json encode 422 (error e)

  unfoldable pub visit_delete_user_response : DeleteUserResponseObject → Result HttpResponse
  unfolding write_json
  visit_delete_user_response delete_user_204 = ok (no_content 204)
  visit_delete_user_response (delete_user_401_json e) = write_json encode 401 (error e)
  visit_delete_user_response (delete_user_403_json e) = write_json encode 403 (error e)
  visit_delete_user_response (delete_user_404_json e) = write_json encode 404 (error e)

  unfoldable pub visit_get_user_response : GetUserResponseObject → Result HttpResponse
  unfolding write_json
  visit_get_user_response (get_user_200_json r) = write_json encode 200 (user r)
  visit_get_user_response (get_user_401_json e) = write_json encode 401 (error e)
  visit_get_user_response (get_user_403_json e) = write_json encode 403 (error e)
  visit_get_user_response (get_user_404_json e) = write_json encode 404 (error e)

  unfoldable pub visit_update_user_response : UpdateUserResponseObject → Result HttpResponse
  unfolding write_json
  visit_update_user_response (update_user_200_json r) = write_json encode 200 (user r)
  visit_update_user_response (update_user_400_json e) = write_json encode 400 (error e)
  visit_update_user_response (update_user_401_json e) = write_json encode 401 (error e)
  visit_update_user_response (update_user_403_json e) = write_json encode 403 (error e)
  visit_update_user_response (update_user_404_json e) = write_json encode 404 (error e)
  visit_update_user_response (update_user_409_json e) = write_json encode 409 (error e)
  visit_update_user_response (update_user_422_json e) = write_json encode 422 (error e)

  unfoldable pub visit_replace_user_response : ReplaceUserResponseObject → Result HttpResponse
  unfolding write_json
  visit_replace_user_response (replace_user_200_json r) = write_json encode 200 (user r)
  visit_replace_user_response (replace_user_400_json e) = write_json encode 400 (error e)
  visit_replace_user_response (replace_user_401_json e) = write_json encode 401 (error e)
  visit_replace_user_response (replace_user_403_json e) = write_json encode 403 (error e)
  visit_replace_user_response (replace_user_404_json e) = write_json encode 404 (error e)
  visit_replace_user_response (replace_user_409_json e) = write_json encode 409 (error e)
  visit_replace_user_response (replace_user_422_json e) = write_json encode 422 (error e)
