-- ===== src/Api/Responses.antt =====
-- The response objects of sample-api/pkg/openapi/gen.go and their `Visit…Response` methods, which
-- write them.
pub mod Login
pub mod Posts
pub mod Comments
pub mod Users
