-- ===== src/Api/Store/Ownership.antt =====
-- Who the author of a stored row is.
use kube_extauth_demo.Prelude.{
  ◌≡◌, refl, sym, ap, ◌∙◌, true, none, some, List, ◌∷◌, if◌then◌else◌, Option-cases, inl, inr,
  arith,
}
use kube_extauth_demo.Effect.{Err, ok, pure, raise}
use kube_extauth_demo.Effect.Outcomes.{pair-eq, check-eq-ok}
use kube_extauth_demo.Db.Models
use kube_extauth_demo.Db.Models.{Uuid, UserRole, ◌=?◌}
use kube_extauth_demo.Db.Params.{CreateCommentParams}
use kube_extauth_demo.Db.Store.Base.{Database, Tables}
use kube_extauth_demo.Db.Store.Accounts.{store_row-eq-ok}
use kube_extauth_demo.Db.Store.Comments as CommentRows
use kube_extauth_demo.Db.Store.Comments.{comment_violation}
use kube_extauth_demo.Db.Store.Invariant.{has_post}
use kube_extauth_demo.External.{Crypto}
use kube_extauth_demo.Auth.{Signer}
use kube_extauth_demo.Api.Types.{Comment, Error}
use kube_extauth_demo.Api.Mapping.{Context, pg_uuid, to_api_comment, is_unique_violation}
use kube_extauth_demo.Api.Requests.{CreateCommentRequestObject}
use kube_extauth_demo.Api.Responses.Comments.{create_comment_201_json, create_comment_404_json}
use kube_extauth_demo.Api.Comments.{create_comment}
use kube_extauth_demo.Api.Store.Consistency.{store_server}

missing_post-neq :
    {S : Type 0} {comment : Comment} {st' : S} (m : Error) (e : Err) (st : S)
    → (if is_unique_violation e then pure (create_comment_404_json m) else raise e) st
      ≡ (ok (create_comment_201_json comment), st')
    → ⊥
unfolding pure raise
missing_post-neq m e st h = ground arith

on_a_post :
    (t : Tables) (rest : List Models.Comment) (row : Models.Comment)
    → comment_violation t rest row ≡ none
    → has_post t.posts row.post_id ≡ true
unfolding comment_violation
on_a_post t rest row fine = ground arith

comment_stored :
    (arg : CreateCommentParams) (db : Database) {row : Models.Comment}
    → (CommentRows.create_comment arg db).0 ≡ ok row
    → (row.author_id ≡ arg.author_id)
      × (row.post_id ≡ arg.post_id)
      × (has_post db.posts arg.post_id ≡ true)
      × ((CommentRows.create_comment arg db).1.tables
          ≡ record (db.tables) { comments = row ∷ db.comments })
unfolding CommentRows.create_comment
comment_stored arg db {row} read =
    let (fine, is_row, is_db) =
      store_row-eq-ok db _ _ _ (pair-eq (CommentRows.create_comment arg db) read refl) in
    (
      ap (λ p. p.author_id) is_row,
      ap (λ p. p.post_id) is_row,
      on_a_post db.tables db.comments (CommentRows.new_comment arg db) fine,
      ap (λ d. d.tables) is_db
          ∙ ap (λ r. record (db.tables) { comments = r ∷ db.comments }) (sym is_row),
    )

module _ (collate : List UserRole → List UserRole) (c : Crypto) (signer : Signer c) where
  -- A comment for which CreateComment answers 201 was stored, as the one change to the tables, with
  -- the caller's identity as its author, on the post of the path, which is there.
  pub create_comment-author :
      (ctx : Context) (request : CreateCommentRequestObject) (db : Database) {comment : Comment}
      {db' : Database}
      → create_comment (store_server collate c signer) ctx request db
        ≡ (ok (create_comment_201_json comment), db')
      → (author : Uuid) × (row : Models.Comment) × (ctx.sub ≡ some author)
        × (row.author_id ≡ pg_uuid author)
        × (row.post_id ≡ pg_uuid request.post_id)
        × (has_post db.posts (pg_uuid request.post_id) ≡ true)
        × (comment ≡ to_api_comment row)
        × (db'.tables ≡ record (db.tables) { comments = row ∷ db.comments })
  unfolding create_comment pure
  create_comment-author ctx request db {comment} {db'} h = elim (Option-cases ctx.sub) [
    | inl anonymous ↦ cc (rw (anonymous, create_comment) at h)
    | inr (author, known) ↦ elim (Option-cases request.body) [
      | inl empty ↦ cc (rw (empty, create_comment) at (rw (known, create_comment) at h))
      | inr (body, given) ↦
          elim (check-eq-ok _ _ _ db
            (rw (given, create_comment) at (rw (known, create_comment) at h))) [
              | inl (row, read, returned) ↦
                  let (written_by, written_on, there, stored) = comment_stored _ db read in
                  (
                    author,
                    row,
                    known,
                    written_by,
                    written_on,
                    there,
                    cc (ap (λ r. r.0) returned),
                    sym (ap (λ r. r.1.tables) returned) ∙ stored,
                  )
              | inr (e, failed, answered) ↦ elim (missing_post-neq _ e _ answered) [ ]
            ]
    ]
  ]
