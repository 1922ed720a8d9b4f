-- ===== src/Api/Refusals/MalformedIds.antt =====
-- Requests with a malformed id in their path, which the wrappers of sample-api/pkg/openapi/gen.go refuse
-- whatever the database.
use kube_extauth_demo.Prelude.{
  ◌≡◌, refl, ap, ◌∙◌, ◌==◌, inl, inr, Bool-cases, eq_iff, List, [], ◌∷◌, String, string_eq, true,
  Option, none, some,
}
use kube_extauth_demo.Prelude.Tables.{has_row}
use kube_extauth_demo.Effect.Outcomes.{Result-cases}
use kube_extauth_demo.Effect.{Err, Result, ok, err, Exec, pure}
use kube_extauth_demo.Db.Models.{Uuid}
use kube_extauth_demo.External.{Env}
use kube_extauth_demo.Api.Mapping.{Context}
use kube_extauth_demo.Api.Http.{HttpResponse}
use kube_extauth_demo.Api.Codec.{Codec, HttpRequest}
use kube_extauth_demo.Api.Server.{Server, State}
use kube_extauth_demo.Api.Wrapper as Wrapper
use kube_extauth_demo.Api.Wrapper.{bound, invalid_format}
use kube_extauth_demo.Api.Router.{Operation, operate}

-- The parameters in the path of an operation, in their order.
abbrev pub path_params : Operation → List String
path_params Operation.login = []
path_params Operation.list_posts = []
path_params Operation.create_post = []
path_params Operation.delete_post = "postId" ∷ []
path_params Operation.get_post = "postId" ∷ []
path_params Operation.replace_post = "postId" ∷ []
path_params Operation.list_comments = "postId" ∷ []
path_params Operation.create_comment = "postId" ∷ []
path_params Operation.delete_comment = "postId" ∷ "commentId" ∷ []
path_params Operation.update_comment = "postId" ∷ "commentId" ∷ []
path_params Operation.list_users = []
path_params Operation.create_user = []
path_params Operation.delete_user = "userId" ∷ []
path_params Operation.get_user = "userId" ∷ []
path_params Operation.update_user = "userId" ∷ []
path_params Operation.replace_user = "userId" ∷ []

-- The first of some parameters that is no id, with the error.
abbrev pub first_malformed : Codec → HttpRequest → List String → Option (String × Err)
first_malformed codec r [] = none
first_malformed codec r (name ∷ names) = elim (codec.bind_uuid name (r.url_param name)) [
  | err e ↦ some (name, e)
  | ok id ↦ first_malformed codec r names
]

-- A parameter that is no id, or one before it, is the first.
malformed-first :
    (codec : Codec) (r : HttpRequest) (names : List String) {name : String} {e : Err}
    → has_row (λ n. n == name) names ≡ true
    → codec.bind_uuid name (r.url_param name) ≡ err e
    → (first : String) × (x : Err) × (first_malformed codec r names ≡ some (first, x))
unfolding has_row
malformed-first codec r [] m h = cc
malformed-first codec r (n ∷ names) {name} {e} m h =
    elim (Result-cases (codec.bind_uuid n (r.url_param n))) [
      | inr (x, bad) ↦ (n, x, rw (bad, first_malformed) refl)
      | inl (id, good) ↦ elim (Bool-cases (n == name)) [
        | inl here ↦
            let same : n ≡ name = (eq_iff n name).0 here in
            let bad : codec.bind_uuid n (r.url_param n) ≡ err e = cc in absurd cc
        | inr apart ↦
            let (first, x, found) = malformed-first codec r names (rw apart at m) h in
            (first, x, rw (good, first_malformed) found)
      ]
    ]

module _ (s : Server) (codec : Codec) (env : Env) (ctx : Context) where
  bound-err :
      {A : Type 0} (answer : Err → HttpResponse) (m : Result A)
      (k : A → Exec (State s) HttpResponse) (st : State s) {e : Err}
      → m ≡ err e
      → bound answer m k st ≡ (ok (answer e), st)
  unfolding bound pure
  bound-err answer m k st h = rw h refl

  bound-ok :
      {A : Type 0} (answer : Err → HttpResponse) (m : Result A)
      (k : A → Exec (State s) HttpResponse) (st : State s) {a : A}
      → m ≡ ok a
      → bound answer m k st ≡ k a st
  unfolding bound
  bound-ok answer m k st h = rw h refl

  -- A parameter of the path, with those after it.
  path-err :
      (expected : String) (later : List String) (r : HttpRequest)
      (k : Uuid → Exec (State s) HttpResponse) (st : State s) {name : String} {e : Err}
      → first_malformed codec r (expected ∷ later) ≡ some (name, e)
      → ((id : Uuid)
          → first_malformed codec r later ≡ some (name, e)
          → k id st ≡ (ok (invalid_format codec name e), st))
      → bound (invalid_format codec expected) (codec.bind_uuid expected (r.url_param expected)) k st
        ≡ (ok (invalid_format codec name e), st)
  path-err expected later r k st {name} {e} m next =
      elim (Result-cases (codec.bind_uuid expected (r.url_param expected))) [
        | inr (x, bad) ↦
            let at : some (expected, x) ≡ some (name, e) = rw (bad, first_malformed) at m in
            let here : invalid_format codec expected x ≡ invalid_format codec name e = cc in
            bound-err _ _ k st bad ∙ ap (λ response. (ok response, st)) here
        | inl (id, good) ↦ bound-ok _ _ k st good ∙ next id (rw (good, first_malformed) at m)
      ]

  last-err :
      (expected : String) (r : HttpRequest) (k : Uuid → Exec (State s) HttpResponse) (st : State s)
      {name : String} {e : Err}
      → first_malformed codec r (expected ∷ []) ≡ some (name, e)
      → bound (invalid_format codec expected) (codec.bind_uuid expected (r.url_param expected)) k st
        ≡ (ok (invalid_format codec name e), st)
  last-err expected r k st m = path-err expected [] r k st m (λ id none_left. cc)

  operate-first_malformed :
      (o : Operation) (r : HttpRequest) (st : State s) {name : String} {e : Err}
      → first_malformed codec r (path_params o) ≡ some (name, e)
      → operate s codec env ctx o r st ≡ (ok (invalid_format codec name e), st)
  unfolding operate Wrapper.delete_post Wrapper.get_post Wrapper.replace_post Wrapper.list_comments
      Wrapper.create_comment Wrapper.delete_comment Wrapper.update_comment Wrapper.delete_user
      Wrapper.get_user Wrapper.update_user Wrapper.replace_user
  operate-first_malformed Operation.login r st m = cc
  operate-first_malformed Operation.list_posts r st m = cc
  operate-first_malformed Operation.create_post r st m = cc
  operate-first_malformed Operation.delete_post r st m = last-err "postId" r _ st m
  operate-first_malformed Operation.get_post r st m = last-err "postId" r _ st m
  operate-first_malformed Operation.replace_post r st m = last-err "postId" r _ st m
  operate-first_malformed Operation.list_comments r st m = last-err "postId" r _ st m
  operate-first_malformed Operation.create_comment r st m = last-err "postId" r _ st m
  operate-first_malformed Operation.delete_comment r st m =
      path-err "postId" ("commentId" ∷ []) r _ st m (λ id later. last-err "commentId" r _ st later)
  operate-first_malformed Operation.update_comment r st m =
      path-err "postId" ("commentId" ∷ []) r _ st m (λ id later. last-err "commentId" r _ st later)
  operate-first_malformed Operation.list_users r st m = cc
  operate-first_malformed Operation.create_user r st m = cc
  operate-first_malformed Operation.delete_user r st m = last-err "userId" r _ st m
  operate-first_malformed Operation.get_user r st m = last-err "userId" r _ st m
  operate-first_malformed Operation.update_user r st m = last-err "userId" r _ st m
  operate-first_malformed Operation.replace_user r st m = last-err "userId" r _ st m

  -- A request whose path carries a malformed id, be it the first or the second, changes nothing and
  -- is answered by the 400 of the generated wrapper, which names the first malformed one, for every
  -- operation whose path has ids.
  pub operate-malformed_id :
      (o : Operation) (r : HttpRequest) (st : State s) {name : String} {e : Err}
      → has_row (λ n. n == name) (path_params o) ≡ true
      → codec.bind_uuid name (r.url_param name) ≡ err e
      → (first : String) × (x : Err) × (first_malformed codec r (path_params o) ≡ some (first, x))
        × (operate s codec env ctx o r st ≡ (ok (invalid_format codec first x), st))
  operate-malformed_id o r st there bad =
      let (first, x, found) = malformed-first codec r (path_params o) there bad in
      (first, x, found, operate-first_malformed o r st found)
