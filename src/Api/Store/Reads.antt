-- ===== src/Api/Store/Reads.antt =====
-- What requests that read do to the database.
use kube_extauth_demo.Prelude.{◌≡◌, refl, List, true}
use kube_extauth_demo.Db.Models.{UserRole}
use kube_extauth_demo.Db.Store.Base.{Database}
use kube_extauth_demo.Db.Store.Keeps.{store-ReadsKeep}
use kube_extauth_demo.External.{Crypto, Env}
use kube_extauth_demo.Auth.{Signer}
use kube_extauth_demo.Api.Codec.{Codec, HttpRequest}
use kube_extauth_demo.Api.Mapping.{Context}
use kube_extauth_demo.Api.Store.Consistency.{store_server}
use kube_extauth_demo.Api.Router.{Operation, operate}
use kube_extauth_demo.Api.Invariants.Requests.{reads, operate_read-Keeps}

-- A login and the operations of the GET routes leave the database as it was, whatever the request,
-- whether they succeed or fail.
pub operate_read-eq :
    (collate : List UserRole → List UserRole) (c : Crypto) (signer : Signer c) (codec : Codec)
    (env : Env) (ctx : Context) (o : Operation) (r : HttpRequest) (db : Database)
    → reads o ≡ true
    → (operate (store_server collate c signer) codec env ctx o r db).1 ≡ db
operate_read-eq collate c signer codec env ctx o r db h =
    (operate_read-Keeps (store_server collate c signer) codec
        (store-ReadsKeep collate (λ st. st ≡ db)) env ctx o r h).at
      db refl
