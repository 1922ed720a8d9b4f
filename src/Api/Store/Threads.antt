-- ===== src/Api/Store/Threads.antt =====
-- The comments on a post, page by page (ListComments of sample-api/pkg/openapi/comment.go over the
-- queries of pkg/db).
use kube_extauth_demo.Prelude.{
  ℕ, zero, suc, ◌+◌, ◌-◌, ◌*◌, ◌^◌, ◌<◌, ◌≤◌, min, true, ◌≡◌, refl, ap, sym, ◌∙◌, some, none, List,
  [], ◌++◌, map, arith,
}
use mathlib.Core.List.{map-append}
use kube_extauth_demo.Prelude.Int.{pos}
use kube_extauth_demo.Prelude.Lists.{length, take, drop, take-drop-add, take_all}
use kube_extauth_demo.Prelude.Tables.{rows_where, order_by}
use kube_extauth_demo.Prelude.Tables.Order.{
  DistinctKeys, StrictlyAscending, SameRows, order_by-StrictlyAscending, order_by-SameRows,
}
use kube_extauth_demo.Effect.{Result, ok, pure, check}
use kube_extauth_demo.Db.Models
use kube_extauth_demo.Db.Models.{Uuid, PgUuid, UserRole, ◌=?◌}
use kube_extauth_demo.Db.Store.Base.{Database, Tables, window}
use kube_extauth_demo.Db.Store.Posts as PostRows
use kube_extauth_demo.Db.Store.Comments as CommentRows
use kube_extauth_demo.Db.Store.Accounts.{find_row_complete}
use kube_extauth_demo.Db.Store.Invariant.{has_post}
use kube_extauth_demo.External.{Crypto}
use kube_extauth_demo.Auth.{Signer}
use kube_extauth_demo.Api.Types.{Comment}
use kube_extauth_demo.Api.Mapping.{Page, paginate, meta, pg_uuid, to_api_comment}
use kube_extauth_demo.Api.Mapping.Pages.{rows_before, paginate_exact}
use kube_extauth_demo.Api.Requests.{ListCommentsRequestObject}
use kube_extauth_demo.Api.Responses.Comments.{ListCommentsResponseObject, list_comments_200_json}
use kube_extauth_demo.Api.Server.{Server, State}
use kube_extauth_demo.Api.Comments.{list_comments}
use kube_extauth_demo.Api.Store.Consistency.{store_server}
use kube_extauth_demo.Api.Store.Lists.{window-pos, length-order_by}

abbrev pub on_post : Tables → PgUuid → List Models.Comment
on_post t post = rows_where (λ c. c.post_id =? post) t.comments

-- The comments on a post in the order of ListComments.
abbrev pub thread : Tables → PgUuid → List Models.Comment
thread t post = order_by (λ c. c.created_at.time) (on_post t post)

abbrev pub items_of : Result ListCommentsResponseObject → List Comment
items_of (ok (list_comments_200_json r)) = r.items
items_of _ = []

abbrev pub page_request : Uuid → ℕ → ℕ → ListCommentsRequestObject
page_request post page size = record {
  post_id = post;
  params = record { page = some (pos page); per_page = some (pos size); sort = none };
}

-- What a client has read after the first pages.
unfoldable pub read_pages : (s : Server) → Uuid → ℕ → State s → ℕ → List Comment
read_pages s post size st zero = []
read_pages s post size st (suc n) =
    read_pages s post size st n ++ items_of (list_comments s (page_request post (suc n) size) st).0

module _ (collate : List UserRole → List UserRole) (c : Crypto) (signer : Signer c) where
  list_comments-window :
      (request : ListCommentsRequestObject) (db : Database) (p : Page) {rows : List Models.Comment}
      → has_post db.posts (pg_uuid request.post_id) ≡ true
      → paginate request.params.page request.params.per_page ≡ p
      → window p.limit p.offset (thread db.tables (pg_uuid request.post_id)) ≡ ok rows
      → list_comments (store_server collate c signer) request db ≡ (
        ok (
            list_comments_200_json (record {
              items = map to_api_comment rows;
              meta = meta (length (on_post db.tables (pg_uuid request.post_id))) p.page p.per_page;
            })),
        db,
      )
  unfolding list_comments PostRows.get_post CommentRows.list_comments CommentRows.count_comments
      check pure
  list_comments-window request db p there is_p in_window =
      let (post, found) = find_row_complete _ db.posts there in
      let w = rw (← is_p) at in_window in rw found (rw (← is_p) (rw w refl))

  page_items :
      (post : Uuid) (page size : ℕ) (db : Database)
      → has_post db.posts (pg_uuid post) ≡ true
      → 0 < page
      → 0 < size
      → page < 2 ^ 31
      → rows_before page (min size 100) < 2 ^ 31
      → items_of (list_comments (store_server collate c signer) (page_request post page size) db).0
        ≡ map to_api_comment (
            take
              (min size 100)
              (drop (rows_before page (min size 100)) (thread db.tables (pg_uuid post))))
  page_items post page size db there hp hs p32 fits =
      ap (λ r. items_of r.0)
        (list_comments-window (page_request post page size) db _ there
          (paginate_exact page size hp hs fits p32)
          (window-pos (min size 100) (rows_before page (min size 100)) _))

  read_pages-take :
      (post : Uuid) (n size : ℕ) (db : Database)
      → has_post db.posts (pg_uuid post) ≡ true
      → 0 < size
      → n < 2 ^ 31
      → n * min size 100 ≤ 2 ^ 31
      → read_pages (store_server collate c signer) post size db n
        ≡ map to_api_comment (take (n * min size 100) (thread db.tables (pg_uuid post)))
  unfolding read_pages
  read_pages-take post zero size db there hs n32 fits =
      let none_yet : 0 ≡ 0 * min size 100 = omega arith in
      ap (λ k. map to_api_comment (take k (thread db.tables (pg_uuid post)))) none_yet
  read_pages-take post (suc n) size db there hs n32 fits =
      let one_more : n * min size 100 + min size 100 ≡ suc n * min size 100 = omega arith in
      let back : suc n - 1 ≡ n = omega arith in
      let before : rows_before (suc n) (min size 100) < 2 ^ 31 =
        rw back (omega (arith, one_more)) in
      let rows = thread db.tables (pg_uuid post) in
      let first = read_pages-take post n size db there hs (omega arith) (omega arith) in
      let next =
        page_items post (suc n) size db there (omega arith) hs n32 before
        ∙ ap (λ k. map to_api_comment (take (min size 100) (drop (k * min size 100) rows))) back in
      rw (first, next)
        (sym (
            map-append to_api_comment (take (n * min size 100) rows)
              (take (min size 100) (drop (n * min size 100) rows)))
          ∙ ap (map to_api_comment) (take-drop-add (n * min size 100) (min size 100) rows)
          ∙ ap (λ k. map to_api_comment (take k rows)) one_more)

  -- If no two comments on a post have the same time of creation, then a client that reads the pages
  -- of the comments on it, one of positive size after the other, from the first until it has asked for
  -- as many as there are comments, has read every comment on the post as often as it is stored, each
  -- before all later ones, whatever the page size, as long as the number of rows asked for fits int32
  -- and the tables do not change between the requests.
  pub read_pages_all :
      (post : Uuid) (n size : ℕ) (db : Database)
      → has_post db.posts (pg_uuid post) ≡ true
      → 0 < size
      → n < 2 ^ 31
      → n * min size 100 ≤ 2 ^ 31
      → length (on_post db.tables (pg_uuid post)) ≤ n * min size 100
      → DistinctKeys (λ x. x.created_at.time) (on_post db.tables (pg_uuid post))
      → (rows : List Models.Comment) × (read_pages (store_server collate c signer) post size db n
          ≡ map to_api_comment rows)
        × StrictlyAscending (λ x. x.created_at.time) rows
        × SameRows rows (on_post db.tables (pg_uuid post))
  read_pages_all post n size db there hs n32 fits enough distinct =
      let all = on_post db.tables (pg_uuid post) in
      let same = length-order_by (λ x. x.created_at.time) all in
      (
        thread db.tables (pg_uuid post),
        read_pages-take post n size db there hs n32 fits
            ∙ ap (map to_api_comment)
                (take_all (n * min size 100) (thread db.tables (pg_uuid post)) (omega arith)),
        order_by-StrictlyAscending _ all distinct,
        order_by-SameRows _ all,
      )
