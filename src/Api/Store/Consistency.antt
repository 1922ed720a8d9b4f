-- ===== src/Api/Store/Consistency.antt =====
-- The server that answers from the tables, and the constraints of the schema.
use kube_extauth_demo.Prelude.{List}
use kube_extauth_demo.Db.Models.{UserRole}
use kube_extauth_demo.Db.Store.Base.{Database}
use kube_extauth_demo.Db.Store.Connection.{store}
use kube_extauth_demo.Db.Store.Invariant.{IsConsistent}
use kube_extauth_demo.Db.Store.Keeps.{store-QueriesKeep}
use kube_extauth_demo.External.{Crypto, Env}
use kube_extauth_demo.Auth.{Signer}
use kube_extauth_demo.Api.Codec.{Codec, HttpRequest}
use kube_extauth_demo.Api.Identity.{TokenParser}
use kube_extauth_demo.Api.Server.{Server}
use kube_extauth_demo.Api.Router.{Router, serve_all}
use kube_extauth_demo.Api.Invariants.Requests.{serve_all-keeps}

-- The server that answers from the tables.
abbrev pub store_server : (List UserRole → List UserRole) → (c : Crypto) → Signer c → Server
store_server collate c signer = record { q = store collate; crypto = c; signer = signer }

-- Whatever requests this server answers, one after the other, and whatever its codec, router and
-- cryptography do: if the tables meet the constraints of the schema before (present and distinct
-- primary keys, distinct emails and slugs, references to rows that are there), they do after.
pub serve_all-IsConsistent :
    (collate : List UserRole → List UserRole) (c : Crypto) (signer : Signer c) (codec : Codec)
    (parser : TokenParser) (router : Router) (requests : List (Env × HttpRequest)) (db : Database)
    → IsConsistent db.tables
    → IsConsistent
        (serve_all (store_server collate c signer) codec parser router requests db).tables
serve_all-IsConsistent collate c signer codec parser router requests db =
    serve_all-keeps (store_server collate c signer) codec (store-QueriesKeep collate) parser router
      requests db
