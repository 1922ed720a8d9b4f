-- ===== src/Api/ParamErrors.antt =====
-- The errors of parameters that sample-api/pkg/openapi/gen.go declares, their texts, and the errors
-- that they wrap.
use kube_extauth_demo.Prelude.{String, ◌<>◌, Option, none, some}
use kube_extauth_demo.Prelude.Int.{ℤ}
use kube_extauth_demo.Effect.{Err}
use kube_extauth_demo.Api.Codec.{required_param_error, invalid_param_format_error}

-- The types of the errors, with their fields `ParamName` and `Err` or `Count`.
pub data ParamError : Type 0 where
  unescaped_cookie_param : String → Err → ParamError
  unmarshaling_param : String → Err → ParamError
  required_param : String → ParamError
  required_header : String → Err → ParamError
  invalid_param_format : String → Err → ParamError
  too_many_values_for_param : String → ℤ → ParamError

-- The methods Error. `error_text` is the method Error of the error inside, `decimal` the verb %d of
-- fmt.
unfoldable pub param_error_text : (Err → String) → (ℤ → String) → ParamError → String
param_error_text error_text decimal (unescaped_cookie_param name e) =
    "error unescaping cookie parameter '" <> name <> "'"
param_error_text error_text decimal (unmarshaling_param name e) =
    "Error unmarshaling parameter " <> name <> " as JSON: " <> error_text e
param_error_text error_text decimal (required_param name) = required_param_error name
param_error_text error_text decimal (required_header name e) =
    "Header parameter " <> name <> " is required, but not found"
param_error_text error_text decimal (invalid_param_format name e) =
    invalid_param_format_error name (error_text e)
param_error_text error_text decimal (too_many_values_for_param name count) =
    "Expected one value for " <> name <> ", got " <> decimal count

-- The methods Unwrap, none for a type without one.
unfoldable pub unwrap : ParamError → Option Err
unwrap (unescaped_cookie_param name e) = some e
unwrap (unmarshaling_param name e) = some e
unwrap (required_param name) = none
unwrap (required_header name e) = some e
unwrap (invalid_param_format name e) = some e
unwrap (too_many_values_for_param name count) = none
