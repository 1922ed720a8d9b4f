-- ===== src/Api.antt =====
-- sample-api/pkg/openapi: the API's types, the mapping from rows, and the handlers.
pub mod Types
pub mod Mapping
pub mod Http
pub mod Requests
pub mod Responses
pub mod Server
pub mod Slug
pub mod Users
pub mod Posts
pub mod Comments
pub mod Login
pub mod Codec
pub mod ParamErrors
pub mod Strict
pub mod Wrapper
pub mod Identity
pub mod Router
pub mod Invariants
pub mod Spec
pub mod Statuses
pub mod Store
pub mod Refusals
