-- ===== src/Process/Health.antt =====
-- HealthHandler of sample-api/pkg/server/server.go. What picks the route is chi, as for the API.
use kube_extauth_demo.Prelude.{String, List, [], ◌∷◌}
use kube_extauth_demo.Effect.{Result, ok, err}
use kube_extauth_demo.Api.Http.{HttpResponse, no_content, http_error}

pub data Probe : Type 0 where
  live ready : Probe

-- The patterns of the GET routes, in the order of registration.
unfoldable pub health_routes : List (String × Probe)
health_routes = ("/healthz/live", live) ∷ ("/healthz/ready", ready) ∷ []

-- The handlers, with what pool.Ping returns within its two seconds.
unfoldable pub probe : Result (Unit {0}) → Probe → HttpResponse
probe ping live = no_content 200
probe (ok tt) ready = no_content 200
probe (err e) ready = http_error "not ready" 503
