-- ===== src/Api/Posts.antt =====
-- sample-api/pkg/openapi/post.go, but for `slugify` (Api.Slug).
use kube_extauth_demo.Prelude.{String, true, false, Option, none, some, List, [], map}
use kube_extauth_demo.Effect.{Exec, pure, check, ◌>>=◌}
use kube_extauth_demo.Db.Models
use kube_extauth_demo.Db.Models.{Uuid, NullPostStatus, post_status_draft}
use kube_extauth_demo.Db.Params.{CreatePostParams}
use kube_extauth_demo.External.{Env}
use kube_extauth_demo.Api.Types.{PostStatus, PostCreate}
use kube_extauth_demo.Api.Mapping.{
  Context, identity_from_ctx, paginate, meta, pg_uuid, pg_text, to_api_post, is_not_found,
  not_found, bad_request, unauthorized,
}
use kube_extauth_demo.Api.Slug.{slugify}
use kube_extauth_demo.Api.Requests.{
  ListPostsRequestObject, CreatePostRequestObject, DeletePostRequestObject, GetPostRequestObject,
  ReplacePostRequestObject,
}
use kube_extauth_demo.Api.Responses.Posts.{
  ListPostsResponseObject, list_posts_200_json, CreatePostResponseObject, create_post_201_json,
  create_post_400_json, create_post_401_json, DeletePostResponseObject, delete_post_204,
  GetPostResponseObject, get_post_200_json, get_post_404_json, ReplacePostResponseObject,
  replace_post_200_json, replace_post_400_json, replace_post_404_json,
}
use kube_extauth_demo.Api.Server.{Server, State, on_not_found}

unfoldable pub null_status : Option PostStatus → NullPostStatus
null_status none = record { post_status = ""; valid = false }
null_status (some s) = record { post_status = s; valid = true }

unfoldable pub post_status : Option PostStatus → Models.PostStatus
post_status none = post_status_draft
post_status (some s) = s

unfoldable pub deref : Option (List String) → List String
deref none = []
deref (some xs) = xs

module _ (s : Server) (env : Env) where
  open s use {q}

  unfoldable pub list_posts : ListPostsRequestObject → Exec (State s) ListPostsResponseObject
  unfolding paginate null_status to_api_post
  list_posts request = do
    let p = paginate request.params.page request.params.per_page
    let status = null_status request.params.status
    let tag = pg_text request.params.tag
    let category = pg_text request.params.category
    rows ← q.list_posts (record {
      status = status;
      tag = tag;
      category = category;
      limit = p.limit;
      offset = p.offset;
    })
    total ← q.count_posts (record { status = status; tag = tag; category = category })
    pure (
        list_posts_200_json (record {
          items = map (λ row. to_api_post row.post row.comment_count) rows;
          meta = meta total p.page p.per_page;
        }))

  -- The arguments of the query of CreatePost.
  unfoldable pub create_params : Uuid → PostCreate → CreatePostParams
  unfolding slugify post_status deref
  create_params author body = record {
    author_id = pg_uuid author;
    title = body.title;
    slug = slugify body.title env.new_string;
    content = body.content;
    excerpt = pg_text body.excerpt;
    status = post_status body.status;
    categories = deref body.categories;
    tags = deref body.tags;
  }

  unfoldable pub create_post :
      Context → CreatePostRequestObject → Exec (State s) CreatePostResponseObject
  create_post ctx request = elim (identity_from_ctx ctx) [
    | none ↦ pure (create_post_401_json (unauthorized "authentication required"))
    | some author ↦ elim request.body [
      | none ↦ pure (create_post_400_json (bad_request "empty body"))
      | some body ↦ do
        created ← q.create_post (create_params author body)
        pure (create_post_201_json (to_api_post created 0))
    ]
  ]

  unfoldable pub get_post : GetPostRequestObject → Exec (State s) GetPostResponseObject
  unfolding to_api_post is_not_found
  get_post request =
      check (q.get_post (pg_uuid request.post_id))
        (on_not_found (get_post_404_json (not_found "post not found")))
        (λ row. pure (get_post_200_json (to_api_post row.post row.comment_count)))

  unfoldable pub replace_post : ReplacePostRequestObject → Exec (State s) ReplacePostResponseObject
  unfolding slugify post_status deref to_api_post is_not_found
  replace_post request = elim request.body [
    | none ↦ pure (replace_post_400_json (bad_request "empty body"))
    | some body ↦
        check
          (q.replace_post (record {
            id = pg_uuid request.post_id;
            title = body.title;
            slug = slugify body.title env.new_string;
            content = body.content;
            excerpt = pg_text body.excerpt;
            status = post_status body.status;
            categories = deref body.categories;
            tags = deref body.tags;
          }))
          (on_not_found (replace_post_404_json (not_found "post not found")))
          (λ updated. pure (replace_post_200_json (to_api_post updated 0)))
  ]

  unfoldable pub delete_post : DeletePostRequestObject → Exec (State s) DeletePostResponseObject
  delete_post request = do _ ← q.delete_post (pg_uuid request.post_id); pure delete_post_204
