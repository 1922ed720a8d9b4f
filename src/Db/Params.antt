-- ===== src/Db/Params.antt =====
-- The parameter and row types of sample-api/pkg/db/query.sql.go.
use kube_extauth_demo.Prelude.{ℕ, String, List}
use kube_extauth_demo.Prelude.Int.{ℤ}
use kube_extauth_demo.Db.Models.{PgUuid, PgText, PostStatus, NullPostStatus, Post, User, UserRole}

pub record CountPostsParams : Type 0 where
  pub status : NullPostStatus
  pub tag : PgText
  pub category : PgText

pub record CreateCommentParams : Type 0 where
  pub post_id : PgUuid
  pub author_id : PgUuid
  pub content : String

pub record CreatePostParams : Type 0 where
  pub author_id : PgUuid
  pub title : String
  pub slug : String
  pub content : String
  pub excerpt : PgText
  pub status : PostStatus
  pub categories : List String
  pub tags : List String

pub record CreateUserParams : Type 0 where
  pub email : String
  pub password_hash : String
  pub password_salt : String
  pub first_name : String
  pub last_name : String
  pub avatar_url : PgText
  pub bio : PgText
  pub role_id : PgUuid

pub record GetPostRow : Type 0 where
  pub post : Post
  pub comment_count : ℕ

pub record GetUserRow : Type 0 where
  pub user : User
  pub user_role : UserRole

pub record GetUserByEmailRow : Type 0 where
  pub user : User
  pub user_role : UserRole

pub record ListCommentsParams : Type 0 where
  pub post_id : PgUuid
  pub limit : ℤ
  pub offset : ℤ

pub record ListPostsParams : Type 0 where
  pub status : NullPostStatus
  pub tag : PgText
  pub category : PgText
  pub offset : ℤ
  pub limit : ℤ

pub record ListPostsRow : Type 0 where
  pub post : Post
  pub comment_count : ℕ

pub record ListUsersParams : Type 0 where
  pub limit : ℤ
  pub offset : ℤ

pub record ListUsersRow : Type 0 where
  pub user : User
  pub user_role : UserRole

pub record ReplacePostParams : Type 0 where
  pub id : PgUuid
  pub title : String
  pub slug : String
  pub content : String
  pub excerpt : PgText
  pub status : PostStatus
  pub categories : List String
  pub tags : List String

pub record ReplaceUserParams : Type 0 where
  pub id : PgUuid
  pub email : String
  pub password_hash : String
  pub password_salt : String
  pub first_name : String
  pub last_name : String
  pub avatar_url : PgText
  pub bio : PgText
  pub role_id : PgUuid

pub record UpdateCommentParams : Type 0 where
  pub id : PgUuid
  pub content : String

pub record UpdateUserParams : Type 0 where
  pub email : PgText
  pub password_hash : PgText
  pub password_salt : PgText
  pub first_name : PgText
  pub last_name : PgText
  pub avatar_url : PgText
  pub bio : PgText
  pub role_id : PgUuid
  pub id : PgUuid
