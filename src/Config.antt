-- ===== src/Config.antt =====
-- sample-api/pkg/config/config.go: the settings in config.yaml.
pub mod Laws
use kube_extauth_demo.Prelude.{
  String, ◌<>◌, ◌==◌, string_eq, Bool, Option, none, some, if◌then◌else◌,
}
use kube_extauth_demo.Effect.{Err, other, Result, ok, err}
use kube_extauth_demo.Effect.Results.{wrap, ◌>>=◌}

pub record Database : Type 0 where
  pub url : String

pub record Jwt : Type 0 where
  pub private_key_file : String
  pub public_key_file : String

pub record Http : Type 0 where
  pub health : String
  pub public : String

pub record Config : Type 0 where
  pub database : Database
  pub jwt : Jwt
  pub http : Http

-- nil is none.
unfoldable pub validate : Config → Option Err
validate c =
    if c.database.url == ""
    then some (other "config: database.url is required")
    else if c.http.public == ""
    then some (other "config: http.public is required")
    else if c.http.health == ""
    then some (other "config: http.health is required")
    else if c.jwt.private_key_file == ""
    then some (other "config: jwt.private_key_file is required")
    else none

abbrev pub validated : Option Err → Config → Result Config
validated none c = ok c
validated (some e) c = err e

-- `read_file` is os.ReadFile, `unmarshal` yaml.Unmarshal into an empty Config, and `quote` the verb
-- %q of fmt.
unfoldable pub load :
    (String → Result String) → (String → Result Config) → (String → String) → String → Result Config
unfolding validate
load read_file unmarshal quote path = do
  raw ← wrap ("read config " <> quote path) (read_file path)
  c ← wrap ("parse config " <> quote path) (unmarshal raw)
  validated (validate c) c
