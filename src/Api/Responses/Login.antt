-- ===== src/Api/Responses/Login.antt =====
-- The response objects of Login and how they are written (sample-api/pkg/openapi/gen.go).
use kube_extauth_demo.Prelude.{String}
use kube_extauth_demo.Effect.{Result}
use kube_extauth_demo.Api.Types.{Error, LoginResponse}
use kube_extauth_demo.Api.Http.{HttpResponse, Payload, error, login_response, write_json}

pub data LoginResponseObject : Type 0 where
  login_200_json : LoginResponse → LoginResponseObject
  login_400_json login_401_json login_422_json : Error → LoginResponseObject

module _ (encode : Payload → Result String) where
  unfoldable pub visit_login_response : LoginResponseObject → Result HttpResponse
  unfolding write_json
  visit_login_response (login_200_json r) = write_json encode 200 (login_response r)
  visit_login_response (login_400_json e) = write_json encode 400 (error e)
  visit_login_response (login_401_json e) = write_json encode 401 (error e)
  visit_login_response (login_422_json e) = write_json encode 422 (error e)
