-- ===== src/Api/Codec.antt =====
-- What the generated server of sample-api/pkg/openapi/gen.go calls outside the repository: the
-- binding of parameters (github.com/oapi-codegen/runtime), the JSON codec with the types it is given,
-- and the texts of errors. Also the request, and the parameter errors that gen.go declares.
use kube_extauth_demo.Prelude.{String, Bool, ◌<>◌, Option}
use kube_extauth_demo.Prelude.Int.{ℤ}
use kube_extauth_demo.Effect.{Err, Result}
use kube_extauth_demo.Db.Models.{Uuid}
use kube_extauth_demo.Api.Types.{
  LoginRequest, PostCreate, CommentCreate, CommentUpdate, UserCreate, UserUpdate,
}
use kube_extauth_demo.Api.Http.{Payload}

-- The parts of `http.Request` that are read: chi.URLParam by name, the query, the body, and the
-- Authorization header ("" if there is none).
pub record HttpRequest : Type 0 where
  pub method : String
  pub path : String
  pub url_param : String → String
  pub query : String
  pub body : String
  pub authorization : String

pub record Codec : Type 0 where
  -- runtime.BindStyledParameterWithOptions, for a uuid in the path
  pub bind_uuid : String → String → Result Uuid
  -- runtime.BindQueryParameterWithOptions, for an optional int32 and an optional string: the name
  -- of the parameter and the query
  pub bind_int32 : String → String → Result (Option ℤ)
  pub bind_string : String → String → Result (Option String)
  -- errors.As(err, &requiredError)
  pub is_required_error : Err → Bool
  -- err.Error()
  pub error_text : Err → String
  -- json.NewDecoder(r.Body).Decode(&body)
  pub decode_login_request : String → Result LoginRequest
  pub decode_post_create : String → Result PostCreate
  pub decode_comment_create : String → Result CommentCreate
  pub decode_comment_update : String → Result CommentUpdate
  pub decode_user_create : String → Result UserCreate
  pub decode_user_update : String → Result UserUpdate
  -- json.NewEncoder(&buf).Encode(response)
  pub encode : Payload → Result String

-- (e *RequiredParamError) Error
abbrev pub required_param_error : String → String
required_param_error name = "Query argument " <> name <> " is required, but not found"

-- (e *InvalidParamFormatError) Error
abbrev pub invalid_param_format_error : String → String → String
invalid_param_format_error name e = "Invalid format for parameter " <> name <> ": " <> e
