-- ===== src/Db/Store/Wire/Arguments.antt =====
-- The parameters `$1`, `$2`, … of the statements of sample-api/pkg/db/query.sql.go, by the place at
-- which the text of a statement reads them.
use kube_extauth_demo.Prelude.{String, Option, none, some, List, [], ◌∷◌}
use kube_extauth_demo.Db.Models.{PgUuid}
use kube_extauth_demo.Db.Params.{
  CountPostsParams, CreateCommentParams, CreatePostParams, CreateUserParams, ListCommentsParams,
  ListPostsParams, ListUsersParams, ReplacePostParams, ReplaceUserParams, UpdateCommentParams,
  UpdateUserParams,
}
use kube_extauth_demo.Db.Client.{
  Value, uuid, text, string, strings, post_status, null_post_status, int32,
}

unfoldable pub create_user_args : List Value → Option CreateUserParams
create_user_args
      (string email
        ∷ string password_hash
        ∷ string password_salt
        ∷ string first_name
        ∷ string last_name
        ∷ text avatar_url
        ∷ text bio
        ∷ uuid role_id
        ∷ []) =
    some (record {
      email = email;
      password_hash = password_hash;
      password_salt = password_salt;
      first_name = first_name;
      last_name = last_name;
      avatar_url = avatar_url;
      bio = bio;
      role_id = role_id;
    })
create_user_args _ = none

unfoldable pub replace_user_args : List Value → Option ReplaceUserParams
replace_user_args
      (uuid id
        ∷ string email
        ∷ string password_hash
        ∷ string password_salt
        ∷ string first_name
        ∷ string last_name
        ∷ text avatar_url
        ∷ text bio
        ∷ uuid role_id
        ∷ []) =
    some (record {
      id = id;
      email = email;
      password_hash = password_hash;
      password_salt = password_salt;
      first_name = first_name;
      last_name = last_name;
      avatar_url = avatar_url;
      bio = bio;
      role_id = role_id;
    })
replace_user_args _ = none

unfoldable pub update_user_args : List Value → Option UpdateUserParams
update_user_args
      (text email
        ∷ text password_hash
        ∷ text password_salt
        ∷ text first_name
        ∷ text last_name
        ∷ text avatar_url
        ∷ text bio
        ∷ uuid role_id
        ∷ uuid id
        ∷ []) =
    some (record {
      email = email;
      password_hash = password_hash;
      password_salt = password_salt;
      first_name = first_name;
      last_name = last_name;
      avatar_url = avatar_url;
      bio = bio;
      role_id = role_id;
      id = id;
    })
update_user_args _ = none

unfoldable pub list_users_args : List Value → Option ListUsersParams
list_users_args (int32 limit ∷ int32 offset ∷ []) = some (record { limit = limit; offset = offset })
list_users_args _ = none

unfoldable pub create_post_args : List Value → Option CreatePostParams
create_post_args
      (uuid author_id
        ∷ string title
        ∷ string slug
        ∷ string content
        ∷ text excerpt
        ∷ post_status status
        ∷ strings categories
        ∷ strings tags
        ∷ []) =
    some (record {
      author_id = author_id;
      title = title;
      slug = slug;
      content = content;
      excerpt = excerpt;
      status = status;
      categories = categories;
      tags = tags;
    })
create_post_args _ = none

unfoldable pub replace_post_args : List Value → Option ReplacePostParams
replace_post_args
      (uuid id
        ∷ string title
        ∷ string slug
        ∷ string content
        ∷ text excerpt
        ∷ post_status status
        ∷ strings categories
        ∷ strings tags
        ∷ []) =
    some (record {
      id = id;
      title = title;
      slug = slug;
      content = content;
      excerpt = excerpt;
      status = status;
      categories = categories;
      tags = tags;
    })
replace_post_args _ = none

unfoldable pub count_posts_args : List Value → Option CountPostsParams
count_posts_args (null_post_status status ∷ text tag ∷ text category ∷ []) =
    some (record { status = status; tag = tag; category = category })
count_posts_args _ = none

unfoldable pub list_posts_args : List Value → Option ListPostsParams
list_posts_args
      (null_post_status status ∷ text tag ∷ text category ∷ int32 offset ∷ int32 limit ∷ []) =
    some
      (record { status = status; tag = tag; category = category; offset = offset; limit = limit })
list_posts_args _ = none

unfoldable pub create_comment_args : List Value → Option CreateCommentParams
create_comment_args (uuid post_id ∷ uuid author_id ∷ string content ∷ []) =
    some (record { post_id = post_id; author_id = author_id; content = content })
create_comment_args _ = none

unfoldable pub update_comment_args : List Value → Option UpdateCommentParams
update_comment_args (uuid id ∷ string content ∷ []) = some (record { id = id; content = content })
update_comment_args _ = none

unfoldable pub list_comments_args : List Value → Option ListCommentsParams
list_comments_args (uuid post_id ∷ int32 limit ∷ int32 offset ∷ []) =
    some (record { post_id = post_id; limit = limit; offset = offset })
list_comments_args _ = none

unfoldable pub id_arg : List Value → Option PgUuid
id_arg (uuid id ∷ []) = some id
id_arg _ = none

unfoldable pub string_arg : List Value → Option String
string_arg (string s ∷ []) = some s
string_arg _ = none

unfoldable pub no_args : List Value → Option (Unit {0})
no_args [] = some tt
no_args _ = none
