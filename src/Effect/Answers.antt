-- ===== src/Effect/Answers.antt =====
-- What the results of actions satisfy, one rule for each way to build an action.
use kube_extauth_demo.Prelude.{◌≡◌, refl, subst, Bool, true, false, if◌then◌else◌}
use kube_extauth_demo.Effect.{
  Err, panic, no_rows, pg_error, other, wrapped, Result, ok, err, Exec, pure, raise, after_call,
  check,
}

-- What `m` returns, if it returns, satisfies `P`.
pub record Answers {ℓ κ} {S A : Type ℓ} (P : A → Type κ) (m : Exec S A) : Type (ℓ ⊔ κ) where
  pub at : (s : S) (a : A) → (m s).0 ≡ ok a → P a

module _ {ℓ κ} {S A : Type ℓ} {P : A → Type κ} where
  pub Answers-pure : (a : A) → P a → Answers {S = S} P (pure a)
  unfolding pure
  Answers-pure a p = record { at = λ s b e. let same : a ≡ b = cc in subst P same p }

  pub Answers-raise : (e : Err) → Answers {S = S} P (raise e)
  unfolding raise
  Answers-raise e = record { at = λ s b f. cc }

  pub Answers-if :
      (b : Bool) (m n : Exec S A) → Answers P m → Answers P n → Answers P (if b then m else n)
  Answers-if true m n am an = am
  Answers-if false m n am an = an

module _ {ℓ κ μ} {S A B : Type ℓ} {Q : A → Type μ} {P : B → Type κ} where
  after_call-Answers :
      (r : Result A) (h : Err → Exec S B) (k : A → Exec S B)
      → ((a : A) → r ≡ ok a → Q a)
      → ((e : Err) → Answers P (h e))
      → ((a : A) → Q a → Answers P (k a))
      → (s : S) (b : B) → (after_call r h k s).0 ≡ ok b
      → P b
  after_call-Answers (ok a) h k q ah ak s b e = (ak a (q a refl)).at s b e
  after_call-Answers (err (panic m)) h k q ah ak s b e = cc
  after_call-Answers (err no_rows) h k q ah ak s b e = (ah no_rows).at s b e
  after_call-Answers (err (pg_error c)) h k q ah ak s b e = (ah (pg_error c)).at s b e
  after_call-Answers (err (other m)) h k q ah ak s b e = (ah (other m)).at s b e
  after_call-Answers (err (wrapped m x)) h k q ah ak s b e = (ah (wrapped m x)).at s b e

  -- What is known of a value that a call returns is known where it goes on.
  pub Answers-check_with :
      (m : Exec S A) (h : Err → Exec S B) (k : A → Exec S B)
      → Answers Q m
      → ((e : Err) → Answers P (h e))
      → ((a : A) → Q a → Answers P (k a))
      → Answers P (check m h k)
  unfolding check
  Answers-check_with m h k am ah ak = record {
    at = λ s b e. after_call-Answers (m s).0 h k (λ a. am.at s a) ah ak (m s).1 b e;
  }

-- The same with what is known whenever a call returns, whatever the value.
pub Answers-check {ℓ κ μ} :
    (C : Type μ) {S A B : Type ℓ} {P : B → Type κ} (m : Exec S A) (h : Err → Exec S B)
    (k : A → Exec S B)
    → Answers (λ _. C) m
    → ((e : Err) → Answers P (h e))
    → ((a : A) → C → Answers P (k a))
    → Answers P (check m h k)
Answers-check C m h k am ah ak = Answers-check_with m h k am ah ak

module _ {ℓ κ} {S A B : Type ℓ} {P : B → Type κ} where
  pub Answers-check_any :
      (m : Exec S A) (h : Err → Exec S B) (k : A → Exec S B)
      → ((e : Err) → Answers P (h e))
      → ((a : A) → Answers P (k a))
      → Answers P (check m h k)
  Answers-check_any m h k ah ak =
      Answers-check (Unit {0}) m h k (record { at = λ s a e. tt }) ah (λ a _. ak a)

pub ruleset answer_rules = (Answers-pure, Answers-raise, Answers-if)
