-- ===== src/Effect.antt =====
-- Go's `(value, error)` results, and functions that also change a state or panic.
pub mod Keeps
pub mod Results
pub mod Answers
pub mod Outcomes
use kube_extauth_demo.Prelude.{String}

-- The errors that the program tells apart: `pgx.ErrNoRows`, a `pgconn.PgError` with its SQLSTATE,
-- any other error by its message, and a panic, which unwinds through every handler.
pub data Err : Type 0 where
  no_rows : Err
  pg_error : String → Err
  other : String → Err
  -- `fmt.Errorf("…: %w", err)`, by the text before the error
  wrapped : String → Err → Err
  panic : String → Err

pub data Result {ℓ} (A : Type ℓ) : Type ℓ where
  ok : A → Result A
  err : Err → Result A

-- The state stays what it became when a call fails.
abbrev pub Exec {ℓ} : Type ℓ → Type ℓ → Type ℓ
Exec S A = S → Result A × S

module _ {ℓ} {S A : Type ℓ} where
  unfoldable pub pure : A → Exec S A
  pure a s = (ok a, s)

  unfoldable pub raise : Err → Exec S A
  raise e s = (err e, s)

  unfoldable pub lift : Result A → Exec S A
  lift r s = (r, s)

module _ {ℓ} {S A B : Type ℓ} where
  abbrev pub after_call : Result A → (Err → Exec S B) → (A → Exec S B) → Exec S B
  after_call (ok a) h k s = k a s
  after_call (err (panic m)) h k s = (err (panic m), s)
  after_call (err e) h k s = h e s

  -- `x, err := m; if err != nil { h }; k`: a panic passes by the handler.
  -- Opening this opens `pure`, `raise` and `lift` too.
  unfoldable pub check : Exec S A → (Err → Exec S B) → (A → Exec S B) → Exec S B
  unfolding pure raise lift
  check m h k s = let (r, s') = m s in after_call r h k s'

  infixl 5 ◌>>=◌
  -- `x, err := m; if err != nil { return err }; k`
  abbrev pub ◌>>=◌ : Exec S A → (A → Exec S B) → Exec S B
  m >>= k = check m raise k

-- The value of a call that succeeds, in another form.
abbrev pub map_ok {ℓ κ μ} :
    {A : Type ℓ} {B : Type κ} {S : Type μ} → (A → B) → Result A × S → Result B × S
map_ok f (ok a, s) = (ok (f a), s)
map_ok f (err e, s) = (err e, s)
