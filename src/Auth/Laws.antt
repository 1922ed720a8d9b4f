-- ===== src/Auth/Laws.antt =====
-- What a token says about its user.
use kube_extauth_demo.Prelude.{ℕ, String, List, ◌≡◌, refl, ◌+◌, ◌*◌, arith}
use kube_extauth_demo.Effect.{Result, ok, err}
use kube_extauth_demo.Db.Models.{Uuid, Time}
use kube_extauth_demo.External.{Claims, Crypto, Env}
use kube_extauth_demo.Effect.Results.{wrap, ◌>>=◌}
use kube_extauth_demo.Auth.{Signer, sign, second, issuer, claims}

-- What `sign` signs: `user` and its role and scopes, from now until `ttl` seconds later.
pub record Describes (c : Crypto) (env : Env) (user : Uuid) (slug : String) (granted : List String)
    (ttl : ℕ) (t : Claims) : Type 0 where
  pub iss : t.iss ≡ issuer
  pub sub : t.sub ≡ c.uuid_string user
  pub role : t.role ≡ slug
  pub scopes : t.scopes ≡ granted
  pub lifetime : t.exp ≡ t.iat + ttl

pub wrap-eq-ok {ℓ} :
    {A : Type ℓ} {a : A} (text : String) (r : Result A) → wrap text r ≡ ok a → r ≡ ok a
wrap-eq-ok text (ok a) h = h
wrap-eq-ok text (err e) h = cc

pub bind-eq-ok {ℓ κ} :
    {A : Type ℓ} {B : Type κ} {b : B} (m : Result A) (k : A → Result B)
    → (m >>= k) ≡ ok b
    → (a : A) × (m ≡ ok a) × (k a ≡ ok b)
bind-eq-ok (ok a) k h = (a, refl, h)
bind-eq-ok (err e) k h = cc

-- A token that `sign` returns for a lifetime of whole seconds is the signature, by the signer's
-- key, of claims that name the issuer, the user, its role and its scopes and expire that much after
-- they were issued. The expiry that is returned with it is that much after the current time.
pub sign_lem :
    (c : Crypto) (s : Signer c) (env : Env) (user : Uuid) (role : String) (scopes : List String)
    (ttl : ℕ) {token : String} {expires_at : Time}
    → sign c s env user role scopes (ttl * second) ≡ ok (token, expires_at)
    → (t : Claims) × (c.signed_string t s.key ≡ ok token)
      × Describes c env user role scopes ttl t
      × (expires_at ≡ env.now + ttl * second)
unfolding sign
sign_lem c s env user role scopes ttl {token} {expires_at} h =
    let (jti, _, rest) = bind-eq-ok (wrap "generate jti" env.new_v7) _ h in
    let t = claims c env jti user role scopes (env.now + ttl * second) in
    let (signed, made, returned) =
      bind-eq-ok (wrap "sign token" (c.signed_string t s.key)) (λ x. ok (x, env.now + ttl * second))
        rest in
    let same : signed ≡ token = cc returned in
    (
      t,
      rw (← same) (wrap-eq-ok "sign token" _ made),
      record { iss = refl; sub = refl; role = refl; scopes = refl; lifetime = omega arith },
      ground arith,
    )
