-- ===== src/Auth.antt =====
-- sample-api/pkg/auth/jwt.go: the private key and the claims of a token.
pub mod Laws
use kube_extauth_demo.Prelude.{ℕ, String, ◌<>◌, List, ◌+◌, ◌*◌, ◌/◌, ◌^◌}
use kube_extauth_demo.Effect.{Result, ok, err}
use kube_extauth_demo.Effect.Results.{wrap, ◌>>=◌}
use kube_extauth_demo.Db.Models.{Uuid, Time}
use kube_extauth_demo.External.{Claims, Crypto, Env}

abbrev pub issuer : String
issuer = "sample-api"

-- time.Duration, in nanoseconds
abbrev pub second : ℕ
second = 10 ^ 9

abbrev pub hour : ℕ
hour = 3600 * second

-- Time.Unix
abbrev pub unix : Time → ℕ
unix t = t / second

module _ (c : Crypto) where
  pub record Signer : Type 0 where
    pub key : c.PrivateKey

  abbrev pub new_signer : c.PrivateKey → Signer
  new_signer key = record { key = key }

  -- `read_file` is os.ReadFile, `parse_key` is jwt.ParseRSAPrivateKeyFromPEM and `quote` the verb %q.
  unfoldable pub load_private_key :
      (String → Result String)
      → (String → Result c.PrivateKey)
      → (String → String)
      → String
      → Result c.PrivateKey
  load_private_key read_file parse_key quote path = do
    pem ← wrap ("read private key " <> quote path) (read_file path)
    wrap ("parse private key " <> quote path) (parse_key pem)

  abbrev pub claims : Env → Uuid → Uuid → String → List String → Time → Claims
  claims env jti sub role scopes expires_at = record {
    iss = issuer;
    sub = c.uuid_string sub;
    role = role;
    scopes = scopes;
    iat = unix env.now;
    exp = unix expires_at;
    jti = c.uuid_string jti;
  }

  -- (s *Signer) Sign: the token and its expiry.
  unfoldable pub sign : Signer → Env → Uuid → String → List String → ℕ → Result (String × Time)
  sign s env sub role scopes ttl = do
    jti ← wrap "generate jti" env.new_v7
    token ←
        wrap "sign token" (c.signed_string (claims env jti sub role scopes (env.now + ttl)) s.key)
    ok (token, env.now + ttl)
