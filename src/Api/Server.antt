-- ===== src/Api/Server.antt =====
-- What the handlers of sample-api/pkg/openapi share: the server, the errors that they translate,
-- and the salts.
use kube_extauth_demo.Prelude.{String, ◌<>◌, if◌then◌else◌}
use kube_extauth_demo.Effect.{Err, panic, Result, ok, err, Exec, pure, raise}
use kube_extauth_demo.Db.Queries.{Queries}
use kube_extauth_demo.Db.Client.{Dbtx}
use kube_extauth_demo.Db.Client.Methods.{new}
use kube_extauth_demo.External.{Crypto, Env, min_cost, default_cost}
use kube_extauth_demo.Auth.{Signer}
use kube_extauth_demo.Api.Mapping.{is_not_found}

-- Server (server.go). The handlers reach the pool through `q` only.
pub record Server : Type 1 where
  pub q : Queries
  pub crypto : Crypto
  pub signer : Signer crypto

-- NewServer (server.go)
abbrev pub new_server : Dbtx → (crypto : Crypto) → Signer crypto → Server
new_server pool crypto signer = record { q = new pool; crypto = crypto; signer = signer }

abbrev pub State : Server → Type 0
State s = Queries.State s.q

-- `if isNotFound(err) { return response, nil }; return nil, err`
unfoldable pub on_not_found {ℓ} : {S R : Type ℓ} → R → Err → Exec S R
unfolding is_not_found
on_not_found response e = if is_not_found e then pure response else raise e

-- generateSalt (mapping.go)
unfoldable pub generate_salt : Crypto → Env → Result String
generate_salt c env = elim (c.generate_from_password env.salt_draw env.now_string min_cost) [
  | ok salt ↦ ok salt
  | err e ↦ err (panic "generateSalt")
]

-- The hash of a new password with its salt, as the handlers that set a password make it.
unfoldable pub hash_password : Crypto → Env → String → String → Result String
hash_password c env password salt =
    c.generate_from_password env.hash_draw (password <> salt) default_cost
