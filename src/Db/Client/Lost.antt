-- ===== src/Db/Client/Lost.antt =====
-- A connection that is lost, below the methods of sample-api/pkg/db/query.sql.go.
use kube_extauth_demo.Prelude.{◌≡◌, List}
use kube_extauth_demo.Effect.{Err, Result, err, Exec, check, raise}
use kube_extauth_demo.Effect.Answers.{Answers, Answers-check_with, Answers-raise}
use kube_extauth_demo.Db.Queries.Answers.{QueriesAnswer}
use kube_extauth_demo.Db.Client.{Value, Statement, Dbtx, one, many}
use kube_extauth_demo.Db.Client.Methods.{new}

-- Every call returns some error.
pub record IsLost (db : Dbtx) : Type 0 where
  pub exec :
      (t : Statement) (args : List Value) (s : db.State)
      → (e : Err) × ((db.exec t args s).0 ≡ err e)
  pub query :
      (t : Statement) (args : List Value) (s : db.State)
      → (e : Err) × ((db.query t args s).0 ≡ err e)
  pub query_row :
      (t : Statement) (args : List Value) (s : db.State)
      → (e : Err) × ((db.query_row t args s).0 ≡ err e)

fails-Answers :
    {S A : Type 0} (m : Exec S A) → ((s : S) → (e : Err) × ((m s).0 ≡ err e)) → Answers (λ _. ⊥) m
fails-Answers m fails = record { at = λ s a h. let (e, failed) = fails s in cc }

sequence-Answers :
    {S A B : Type 0} (m : Exec S A) (k : A → Exec S B)
    → Answers (λ _. ⊥) m
    → Answers {A = B} (λ _. ⊥) (check m raise k)
sequence-Answers m k am =
    Answers-check_with m raise k am (λ e. Answers-raise e) (λ a never. elim never [ ])

module _ (db : Dbtx) (lost : IsLost db) where
  one-Answers :
      {A : Type 0} (scan : List Value → Result A) (t : Statement) (args : List Value)
      → Answers (λ _. ⊥) (one db scan t args)
  unfolding one
  one-Answers scan t args =
      sequence-Answers (db.query_row t args) _ (fails-Answers _ (lost.query_row t args))

  many-Answers :
      {A : Type 0} (scan : List Value → Result A) (t : Statement) (args : List Value)
      → Answers (λ _. ⊥) (many db scan t args)
  unfolding many
  many-Answers scan t args =
      sequence-Answers (db.query t args) _ (fails-Answers _ (lost.query t args))

  exec-Answers : (t : Statement) (args : List Value) → Answers (λ _. ⊥) (db.exec t args)
  exec-Answers t args = fails-Answers _ (lost.exec t args)

  pub new-QueriesAnswer : QueriesAnswer (new db) ⊥
  new-QueriesAnswer = record {
    count_comments = λ _. one-Answers _ _ _;
    count_posts = λ _. one-Answers _ _ _;
    count_users = one-Answers _ _ _;
    get_comment = λ _. one-Answers _ _ _;
    get_post = λ _. one-Answers _ _ _;
    get_role = λ _. one-Answers _ _ _;
    get_role_by_slug = λ _. one-Answers _ _ _;
    get_user = λ _. one-Answers _ _ _;
    get_user_by_email = λ _. one-Answers _ _ _;
    list_comments = λ _. many-Answers _ _ _;
    list_posts = λ _. many-Answers _ _ _;
    list_roles = many-Answers _ _ _;
    list_users = λ _. many-Answers _ _ _;
    create_comment = λ _. one-Answers _ _ _;
    create_post = λ _. one-Answers _ _ _;
    create_user = λ _. one-Answers _ _ _;
    delete_comment = λ _. exec-Answers _ _;
    delete_post = λ _. exec-Answers _ _;
    delete_user = λ _. exec-Answers _ _;
    replace_post = λ _. one-Answers _ _ _;
    replace_user = λ _. one-Answers _ _ _;
    update_comment = λ _. one-Answers _ _ _;
    update_user = λ _. one-Answers _ _ _;
  }
