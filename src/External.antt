-- ===== src/External.antt =====
-- What the handlers call outside the repository: the password hashes of golang.org/x/crypto/bcrypt
-- and the token signature of github.com/golang-jwt/jwt. Each is a parameter of the model, with the
-- documented behaviour that a property needs as a hypothesis of its own.
use kube_extauth_demo.Prelude.{ℕ, String, List, ◌≡◌, ◌<◌, len}
use kube_extauth_demo.Effect.{Result, ok, err, other}
use kube_extauth_demo.Db.Models.{Uuid, Time}

-- The claims of a token (the map that auth.Signer.Sign builds).
pub record Claims : Type 0 where
  pub iss : String
  pub sub : String
  pub role : String
  pub scopes : List String
  pub iat : ℕ
  pub exp : ℕ
  pub jti : String

pub record Crypto : Type 1 where
  -- bcrypt.GenerateFromPassword, with the random salt that it draws, the password and the cost.
  pub generate_from_password : ℕ → String → ℕ → Result String
  -- bcrypt.CompareHashAndPassword: nil is `ok`.
  pub compare_hash_and_password : String → String → Result (Unit {0})
  -- rsa.PrivateKey, and the RS256 signature of a token with the claims.
  pub PrivateKey : Type 0
  pub signed_string : Claims → PrivateKey → Result String
  -- uuid.UUID.String
  pub uuid_string : Uuid → String

-- bcrypt.MinCost and bcrypt.DefaultCost
abbrev pub min_cost : ℕ
min_cost = 4

abbrev pub default_cost : ℕ
default_cost = 10

-- What the calls that are not determined by their arguments return while one request is served.
pub record Env : Type 0 where
  -- time.Now(), as text and as a time
  pub now_string : String
  pub now : Time
  -- the random salts of the two hashes
  pub salt_draw : ℕ
  pub hash_draw : ℕ
  -- uuid.NewString() and uuid.NewV7()
  pub new_string : String
  pub new_v7 : Result Uuid

-- A hash accepts the password that it was made from, and is a text of 60 bytes.
pub record IsBcrypt (c : Crypto) : Type 0 where
  pub compare_generated :
      (draw : ℕ) (password : String) (cost : ℕ) (hash : String)
      → c.generate_from_password draw password cost ≡ ok hash
      → c.compare_hash_and_password hash password ≡ ok tt
  pub len-hash :
      (draw : ℕ) (password : String) (cost : ℕ) (hash : String)
      → c.generate_from_password draw password cost ≡ ok hash
      → len hash ≡ 60
  -- bcrypt.ErrPasswordTooLong
  pub too_long :
      (draw : ℕ) (password : String) (cost : ℕ)
      → 72 < len password
      → c.generate_from_password draw password cost
        ≡ err (other "bcrypt: password length exceeds 72 bytes")
