-- ===== src/Api/Statuses/Requests.antt =====
-- The status codes of the answers of sample-api/pkg/openapi through the generated server, whatever the
-- codec, the router and the database.
use kube_extauth_demo.Prelude.{◌≡◌, refl, ℕ, true, String, inl, inr, Bool-cases}
use kube_extauth_demo.Prelude.Tables.{has_row}
use kube_extauth_demo.Effect.{Err, Result, ok, err, Exec}
use kube_extauth_demo.Effect.Answers.{Answers, Answers-check_with, Answers-pure}
use kube_extauth_demo.Db.Queries.Answers.{QueriesAnswer}
use kube_extauth_demo.External.{Env}
use kube_extauth_demo.Api.Mapping.{Context}
use kube_extauth_demo.Api.Http.{HttpResponse}
use kube_extauth_demo.Api.Codec.{Codec, HttpRequest}
use kube_extauth_demo.Api.Server.{Server}
use kube_extauth_demo.Api.Strict.{respond, with_body, visited}
use kube_extauth_demo.Api.Wrapper.{bound, query_error}
use kube_extauth_demo.Api.Router.{Operation, operate}
use kube_extauth_demo.Api.Statuses.{IsAnswer, success, is_failure}
use kube_extauth_demo.Api.Statuses.Written.{Written}
use kube_extauth_demo.Api.Statuses.Accounts.{
  login-Answers, list_users-Answers, create_user-Answers, delete_user-Answers, get_user-Answers,
  update_user-Answers, replace_user-Answers,
}
use kube_extauth_demo.Api.Statuses.Contents.{
  list_posts-Answers, create_post-Answers, delete_post-Answers, get_post-Answers,
  replace_post-Answers, list_comments-Answers, create_comment-Answers, delete_comment-Answers,
  update_comment-Answers,
}

visited-status :
    (P : ℕ → Type 0) (codec : Codec) (written : Result HttpResponse)
    → P 500
    → Written P written
    → P (visited codec written).status
visited-status P codec (ok response) p500 w = w.status response refl
visited-status P codec (err e) p500 w = p500

-- Every response that an action returns has a status of the operation.
abbrev IsAnswered : (C : Type 0) {S : Type 0} → Operation → Exec S HttpResponse → Type 0
IsAnswered C o m = Answers (λ response. IsAnswer C o response.status) m

module _ {C : Type 0} (o : Operation) where
  failed : (status : ℕ) → is_failure o status ≡ true → IsAnswer C o status
  failed status h = record { expected = inr h }

  succeeded : (status : ℕ) → status ≡ success o → C → IsAnswer C o status
  succeeded status h c = record { expected = inl (h, c) }

  query_failed :
      (codec : Codec) (name : String) (e : Err)
      → is_failure o 400 ≡ true
      → IsAnswer C o (query_error codec name e).status
  query_failed codec name e h = elim (Bool-cases (codec.is_required_error e)) [
    | inl required ↦ rw required (failed 400 h)
    | inr other ↦ rw other (failed 400 h)
  ]

  module _ {S : Type 0} where
    responds :
        {R : Type 0} (codec : Codec) (visit : R → Result HttpResponse) (m : Exec S R)
        → IsAnswer C o 500
        → Answers (λ r. Written (IsAnswer C o) (visit r)) m
        → IsAnswered C o (respond codec visit m)
    unfolding respond
    responds codec visit m a500 am =
        Answers-check_with _ _ _ am (λ e. Answers-pure _ a500)
          λ r w. Answers-pure _ (visited-status (IsAnswer C o) codec (visit r) a500 w)

    reads_body :
        {B : Type 0} (codec : Codec) (r : Result B) (k : B → Exec S HttpResponse)
        → IsAnswer C o 400
        → ((b : B) → IsAnswered C o (k b))
        → IsAnswered C o (with_body codec r k)
    unfolding with_body
    reads_body codec (ok b) k a400 ak = ak b
    reads_body codec (err e) k a400 ak = Answers-pure _ a400

    binds :
        {A : Type 0} (answer : Err → HttpResponse) (r : Result A) (k : A → Exec S HttpResponse)
        → ((e : Err) → IsAnswer C o (answer e).status)
        → ((a : A) → IsAnswered C o (k a))
        → IsAnswered C o (bound answer r k)
    unfolding bound
    binds answer (ok a) k ae ak = ak a
    binds answer (err e) k ae ak = Answers-pure _ (ae e)

ruleset status_rules = (failed, succeeded, query_failed, responds, reads_body, binds)

module _ (s : Server) (codec : Codec) {C : Type 0} (d : QueriesAnswer s.q C) where
  pub operate-Answers :
      (env : Env) (ctx : Context) (o : Operation) (r : HttpRequest)
      → IsAnswered C o (operate s codec env ctx o r)
  unfolding operate has_row
  operate-Answers env ctx Operation.login r =
      search (status_rules, login-Answers s env codec.encode d) depth 20
  operate-Answers env ctx Operation.list_posts r =
      search (status_rules, list_posts-Answers s env codec.encode d) depth 20
  operate-Answers env ctx Operation.create_post r =
      search (status_rules, create_post-Answers s env codec.encode d ctx) depth 20
  operate-Answers env ctx Operation.delete_post r =
      search (status_rules, delete_post-Answers s env codec.encode d) depth 20
  operate-Answers env ctx Operation.get_post r =
      search (status_rules, get_post-Answers s env codec.encode d) depth 20
  operate-Answers env ctx Operation.replace_post r =
      search (status_rules, replace_post-Answers s env codec.encode d) depth 20
  operate-Answers env ctx Operation.list_comments r =
      search (status_rules, list_comments-Answers s env codec.encode d) depth 20
  operate-Answers env ctx Operation.create_comment r =
      search (status_rules, create_comment-Answers s env codec.encode d ctx) depth 20
  operate-Answers env ctx Operation.delete_comment r =
      search (status_rules, delete_comment-Answers s env codec.encode d) depth 20
  operate-Answers env ctx Operation.update_comment r =
      search (status_rules, update_comment-Answers s env codec.encode d) depth 20
  operate-Answers env ctx Operation.list_users r =
      search (status_rules, list_users-Answers s env codec.encode d) depth 20
  operate-Answers env ctx Operation.create_user r =
      search (status_rules, create_user-Answers s env codec.encode d) depth 20
  operate-Answers env ctx Operation.delete_user r =
      search (status_rules, delete_user-Answers s env codec.encode d) depth 20
  operate-Answers env ctx Operation.get_user r =
      search (status_rules, get_user-Answers s env codec.encode d) depth 20
  operate-Answers env ctx Operation.update_user r =
      search (status_rules, update_user-Answers s env codec.encode d) depth 20
  operate-Answers env ctx Operation.replace_user r =
      search (status_rules, replace_user-Answers s env codec.encode d) depth 20
