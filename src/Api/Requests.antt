-- ===== src/Api/Requests.antt =====
-- The request objects of sample-api/pkg/openapi/gen.go. A nil body is none.
use kube_extauth_demo.Prelude.{Option}
use kube_extauth_demo.Db.Models.{Uuid}
use kube_extauth_demo.Api.Types.{
  LoginRequest, PostCreate, CommentCreate, CommentUpdate, UserCreate, UserUpdate, ListPostsParams,
  ListCommentsParams, ListUsersParams,
}

pub record LoginRequestObject : Type 0 where
  pub body : Option LoginRequest

pub record ListPostsRequestObject : Type 0 where
  pub params : ListPostsParams

pub record CreatePostRequestObject : Type 0 where
  pub body : Option PostCreate

pub record DeletePostRequestObject : Type 0 where
  pub post_id : Uuid

pub record GetPostRequestObject : Type 0 where
  pub post_id : Uuid

pub record ReplacePostRequestObject : Type 0 where
  pub post_id : Uuid
  pub body : Option PostCreate

pub record ListCommentsRequestObject : Type 0 where
  pub post_id : Uuid
  pub params : ListCommentsParams

pub record CreateCommentRequestObject : Type 0 where
  pub post_id : Uuid
  pub body : Option CommentCreate

pub record DeleteCommentRequestObject : Type 0 where
  pub post_id : Uuid
  pub comment_id : Uuid

pub record UpdateCommentRequestObject : Type 0 where
  pub post_id : Uuid
  pub comment_id : Uuid
  pub body : Option CommentUpdate

pub record ListUsersRequestObject : Type 0 where
  pub params : ListUsersParams

pub record CreateUserRequestObject : Type 0 where
  pub body : Option UserCreate

pub record DeleteUserRequestObject : Type 0 where
  pub user_id : Uuid

pub record GetUserRequestObject : Type 0 where
  pub user_id : Uuid

pub record UpdateUserRequestObject : Type 0 where
  pub user_id : Uuid
  pub body : Option UserUpdate

pub record ReplaceUserRequestObject : Type 0 where
  pub user_id : Uuid
  pub body : Option UserCreate
