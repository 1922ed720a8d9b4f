-- ===== src/Api/Store/Interleaved.antt =====
-- The server over a connection to tables that other sessions write too, between the statements of its
-- requests.
use kube_extauth_demo.Prelude.{ℕ, zero, List, ◌≡◌, subst, sym}
use kube_extauth_demo.Db.Models.{UserRole}
use kube_extauth_demo.Db.Queries.Interleaved.{interleaved, interleaved-QueriesKeep}
use kube_extauth_demo.Db.Client.Methods.{new}
use kube_extauth_demo.Db.Store.Base.{Database}
use kube_extauth_demo.Db.Store.Connection.{store}
use kube_extauth_demo.Db.Store.Invariant.{IsConsistent}
use kube_extauth_demo.Db.Store.Keeps.{store-QueriesKeep}
use kube_extauth_demo.Db.Store.Maps.Writes.{Write, run}
use kube_extauth_demo.Db.Store.Maps.Refinement.{run-IsConsistent}
use kube_extauth_demo.Db.Store.Wire.{tables_dbtx}
use kube_extauth_demo.Db.Store.Wire.Refines.{along}
use kube_extauth_demo.External.{Crypto, Env}
use kube_extauth_demo.Auth.{Signer}
use kube_extauth_demo.Api.Codec.{Codec, HttpRequest}
use kube_extauth_demo.Api.Identity.{TokenParser}
use kube_extauth_demo.Api.Server.{Server}
use kube_extauth_demo.Api.Router.{Router, serve_all}
use kube_extauth_demo.Api.Invariants.Requests.{serve_all-keeps}

module _ (collate : List UserRole → List UserRole) (c : Crypto) (signer : Signer c)
    (others : ℕ → List Write) where
  -- Other sessions run `others n` before the n-th statement of the server.
  abbrev others_run : ℕ → Database → Database
  others_run n db = (run (others n) db).1

  -- The server of NewServer, over a connection to tables that others write too.
  abbrev pub shared_server : Server
  shared_server = record {
    q = interleaved (new (tables_dbtx collate)) others_run;
    crypto = c;
    signer = signer;
  }

  module _ (codec : Codec) (parser : TokenParser) (router : Router) where
    over_tables :
        (requests : List (Env × HttpRequest)) (db : Database)
        → serve_all shared_server codec parser router requests (db, zero)
          ≡ serve_all
              (record { q = interleaved (store collate) others_run; crypto = c; signer = signer })
              codec
              parser
              router
              requests
              (db, zero)
    over_tables requests db = λ i.
        serve_all
          (record { q = interleaved (along collate i) others_run; crypto = c; signer = signer })
          codec parser router requests (db, zero)

    -- Whatever statements other sessions run before and between the statements of a request, and
    -- whatever requests the server answers: tables that meet the constraints of the schema before do so
    -- after. Emails and slugs stay unique, and every reference is to a row that is there.
    pub shared-IsConsistent :
        (requests : List (Env × HttpRequest)) (db : Database)
        → IsConsistent db.tables
        → IsConsistent (serve_all shared_server codec parser router requests (db, zero)).0.tables
    shared-IsConsistent requests db good =
        subst (λ s. IsConsistent s.0.tables) (sym (over_tables requests db))
          (serve_all-keeps _ codec
            (interleaved-QueriesKeep (store collate) others_run
              (λ n st. run-IsConsistent (others n) st) (store-QueriesKeep collate))
            parser router requests (db, zero) good)
