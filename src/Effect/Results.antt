-- ===== src/Effect/Results.antt =====
-- Calls that fail and change nothing, one after the other.
use kube_extauth_demo.Prelude.{String}
use kube_extauth_demo.Effect.{Result, ok, err, wrapped}

-- `if err != nil { return fmt.Errorf("…: %w", err) }`
abbrev pub wrap {ℓ} : {A : Type ℓ} → String → Result A → Result A
wrap text (ok a) = ok a
wrap text (err e) = err (wrapped text e)

infixl 5 ◌>>=◌
abbrev pub ◌>>=◌ {ℓ κ} : {A : Type ℓ} {B : Type κ} → Result A → (A → Result B) → Result B
ok a >>= k = k a
err e >>= k = err e

-- The value of a call that succeeds, in another form.
abbrev pub embed {ℓ κ} : {A : Type ℓ} {B : Type κ} → (A → B) → Result A → Result B
embed f (ok a) = ok (f a)
embed f (err e) = err e
