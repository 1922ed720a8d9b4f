-- ===== src/Api/Store/Connected.antt =====
-- The server that NewServer builds over a connection (sample-api/pkg/openapi/server.go), when the
-- connection answers from the tables.
use kube_extauth_demo.Prelude.{◌≡◌, List, subst, sym}
use kube_extauth_demo.Db.Models.{UserRole}
use kube_extauth_demo.Db.Store.Base.{Database}
use kube_extauth_demo.Db.Store.Invariant.{IsConsistent}
use kube_extauth_demo.Db.Store.Wire.{tables_dbtx}
use kube_extauth_demo.Db.Store.Wire.Refines.{along}
use kube_extauth_demo.External.{Crypto, Env}
use kube_extauth_demo.Auth.{Signer}
use kube_extauth_demo.Api.Codec.{Codec, HttpRequest}
use kube_extauth_demo.Api.Identity.{TokenParser}
use kube_extauth_demo.Api.Server.{new_server}
use kube_extauth_demo.Api.Router.{Router, serve_all}
use kube_extauth_demo.Api.Store.Consistency.{store_server, serve_all-IsConsistent}

module _ (collate : List UserRole → List UserRole) (c : Crypto) (signer : Signer c) (codec : Codec)
    (parser : TokenParser) (router : Router) where
  -- The connection makes no difference to what the requests do.
  serve_all-connected :
      (requests : List (Env × HttpRequest)) (db : Database)
      → serve_all (new_server (tables_dbtx collate) c signer) codec parser router requests db
        ≡ serve_all (store_server collate c signer) codec parser router requests db
  serve_all-connected requests db = λ i.
      serve_all (record { q = along collate i; crypto = c; signer = signer }) codec parser router
        requests db

  -- Whatever requests the server answers over a connection to the tables, one after the other, and
  -- whatever its codec, router and cryptography do: if the tables meet the constraints of the schema
  -- before (present and distinct primary keys, distinct emails and slugs, references to rows that are
  -- there), they do after.
  pub connected-IsConsistent :
      (requests : List (Env × HttpRequest)) (db : Database)
      → IsConsistent db.tables
      → IsConsistent
          (serve_all
            (new_server (tables_dbtx collate) c signer)
            codec
            parser
            router
            requests
            db).tables
  connected-IsConsistent requests db good =
      subst (λ after. IsConsistent after.tables) (sym (serve_all-connected requests db))
        (serve_all-IsConsistent collate c signer codec parser router requests db good)
