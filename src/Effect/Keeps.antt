-- ===== src/Effect/Keeps.antt =====
-- Invariants of actions, one rule for each way to build an action.
use kube_extauth_demo.Prelude.{Bool, true, false, if◌then◌else◌}
use kube_extauth_demo.Effect.{
  Err, panic, no_rows, pg_error, other, wrapped, Result, ok, err, Exec, pure, raise, lift,
  after_call, check,
}

-- `m` keeps `P`, whether it returns or fails.
pub record Keeps {ℓ κ} {S A : Type ℓ} (P : S → Type κ) (m : Exec S A) : Type (ℓ ⊔ κ) where
  pub at : (s : S) → P s → P (m s).1

module _ {ℓ κ} {S A : Type ℓ} {P : S → Type κ} where
  pub Keeps-lift : (result : Result A) → Keeps P (lift result)
  unfolding lift
  Keeps-lift result = record { at = λ st holds. holds }

  pub Keeps-if : (b : Bool) (m n : Exec S A) → Keeps P m → Keeps P n → Keeps P (if b then m else n)
  Keeps-if true m n km kn = km
  Keeps-if false m n km kn = kn

  pub Keeps-raise : (e : Err) → Keeps P (raise {A = A} e)
  unfolding raise
  Keeps-raise e = record { at = λ st holds. holds }

  pub Keeps-pure : (a : A) → Keeps P (pure a)
  unfolding pure
  Keeps-pure a = record { at = λ st holds. holds }

module _ {ℓ κ} {S A B : Type ℓ} {P : S → Type κ} where
  after_call-Keeps :
      (r : Result A) (h : Err → Exec S B) (k : A → Exec S B)
      → ((e : Err) → Keeps P (h e))
      → ((a : A) → Keeps P (k a))
      → (s : S) → P s
      → P (after_call r h k s).1
  after_call-Keeps (ok a) h k kh kk s p = (kk a).at s p
  after_call-Keeps (err (panic m)) h k kh kk s p = p
  after_call-Keeps (err no_rows) h k kh kk s p = (kh no_rows).at s p
  after_call-Keeps (err (pg_error c)) h k kh kk s p = (kh (pg_error c)).at s p
  after_call-Keeps (err (other m)) h k kh kk s p = (kh (other m)).at s p
  after_call-Keeps (err (wrapped m e)) h k kh kk s p = (kh (wrapped m e)).at s p

  pub Keeps-check :
      (m : Exec S A) (h : Err → Exec S B) (k : A → Exec S B)
      → Keeps P m
      → ((e : Err) → Keeps P (h e))
      → ((a : A) → Keeps P (k a))
      → Keeps P (check m h k)
  unfolding check
  Keeps-check m h k km kh kk = record {
    at = λ s p. after_call-Keeps (m s).0 h k kh kk (m s).1 (km.at s p);
  }

pub ruleset keeps_rules = (Keeps-pure, Keeps-raise, Keeps-lift, Keeps-if, Keeps-check)
