-- ===== src/Effect/Outcomes.antt =====
-- From the outcome of a sequence of calls to the outcomes of its calls.
use kube_extauth_demo.Prelude.{◌≡◌, refl, ap, ◌⊎◌, inl, inr}
use kube_extauth_demo.Effect.{
  Err, no_rows, pg_error, other, wrapped, panic, Result, ok, err, Exec, raise, lift, after_call,
  check, ◌>>=◌,
}

-- To split on a result and keep the equation.
pub Result-cases {ℓ} :
    {A : Type ℓ} (r : Result A) → ((a : A) × (r ≡ ok a)) ⊎ ((e : Err) × (r ≡ err e))
Result-cases (ok a) = inl (a, refl)
Result-cases (err e) = inr (e, refl)

pub pair-eq {ℓ} : {A B : Type ℓ} (p : A × B) {a : A} {b : B} → p.0 ≡ a → p.1 ≡ b → p ≡ (a, b)
pair-eq (x, y) h k = cc

module _ {ℓ} {S B : Type ℓ} where
  -- An error that is passed on is no result.
  pub raise-neq-ok : (e : Err) (s : S) {b : B} {s' : S} → raise e s ≡ (ok b, s') → ⊥
  unfolding raise
  raise-neq-ok e s h = cc

module _ {ℓ} {S A B : Type ℓ} where
  after_call-eq-ok :
      (r : Result A) (h : Err → Exec S B) (k : A → Exec S B) (s1 : S) {b : B} {s' : S}
      → after_call r h k s1 ≡ (ok b, s')
      → ((a : A) × (r ≡ ok a) × (k a s1 ≡ (ok b, s')))
        ⊎ ((e : Err) × (r ≡ err e) × (h e s1 ≡ (ok b, s')))
  after_call-eq-ok (ok a) h k s1 e = inl (a, refl, e)
  after_call-eq-ok (err (panic m)) h k s1 e = cc
  after_call-eq-ok (err no_rows) h k s1 e = inr (no_rows, refl, e)
  after_call-eq-ok (err (pg_error c)) h k s1 e = inr (pg_error c, refl, e)
  after_call-eq-ok (err (other m)) h k s1 e = inr (other m, refl, e)
  after_call-eq-ok (err (wrapped m x)) h k s1 e = inr (wrapped m x, refl, e)

  -- A checked call returns by its continuation or by its error handler.
  pub check-eq-ok :
      (m : Exec S A) (h : Err → Exec S B) (k : A → Exec S B) (s : S) {b : B} {s' : S}
      → check m h k s ≡ (ok b, s')
      → ((a : A) × ((m s).0 ≡ ok a) × (k a (m s).1 ≡ (ok b, s')))
        ⊎ ((e : Err) × ((m s).0 ≡ err e) × (h e (m s).1 ≡ (ok b, s')))
  unfolding check
  check-eq-ok m h k s e = after_call-eq-ok (m s).0 h k (m s).1 e

  -- If the error goes on to the caller, a sequence that returns is one whose call returned.
  pub bind-eq-ok :
      (m : Exec S A) (k : A → Exec S B) (s : S) {b : B} {s' : S}
      → (m >>= k) s ≡ (ok b, s')
      → (a : A) × ((m s).0 ≡ ok a) × (k a (m s).1 ≡ (ok b, s'))
  bind-eq-ok m k s h = elim (check-eq-ok m raise k s h) [
    | inl called ↦ called
    | inr (e, _, raised) ↦ elim (raise-neq-ok e (m s).1 raised) [ ]
  ]

  -- A call that fails ends the sequence, and one that returns is followed by the rest.
  pub bind_err :
      (m : Exec S A) (k : A → Exec S B) (s : S) {e : Err}
      → (m s).0 ≡ err e
      → (m >>= k) s ≡ (err e, (m s).1)
  unfolding check raise
  bind_err m k s {e = no_rows} h = rw h refl
  bind_err m k s {e = pg_error c} h = rw h refl
  bind_err m k s {e = other c} h = rw h refl
  bind_err m k s {e = wrapped c x} h = rw h refl
  bind_err m k s {e = panic c} h = rw h refl

  pub bind_ok :
      (m : Exec S A) (k : A → Exec S B) (s : S) {a : A} → (m s).0 ≡ ok a → (m >>= k) s ≡ k a (m s).1
  unfolding check
  bind_ok m k s h = rw h refl

  -- The same with a call that changes no state.
  pub bind_lift_err :
      {r : Result A} (k : A → Exec S B) (s : S) {e : Err}
      → r ≡ err e
      → (lift r >>= k) s ≡ (err e, s)
  unfolding check lift raise
  bind_lift_err {r} k s h = bind_err (lift r) k s h

  pub bind_lift_ok :
      {r : Result A} (k : A → Exec S B) (s : S) {a : A} → r ≡ ok a → (lift r >>= k) s ≡ k a s
  unfolding check lift
  bind_lift_ok {r} k s h = bind_ok (lift r) k s h

  pub bind_lift-eq-ok :
      (r : Result A) (k : A → Exec S B) (s : S) {b : B}
      → ((lift r >>= k) s).0 ≡ ok b
      → (a : A) × (r ≡ ok a) × ((k a s).0 ≡ ok b)
  unfolding lift
  bind_lift-eq-ok r k s h =
      let (a, called, rest) = bind-eq-ok (lift r) k s (pair-eq ((lift r >>= k) s) h refl) in
      (a, called, ap (λ p. p.0) rest)
