-- ===== src/Api/Http.antt =====
-- HTTP responses, the values that are written to them as JSON, and `http.Error`.
use kube_extauth_demo.Prelude.{ℕ, String, ◌<>◌, Option, none, some}
use kube_extauth_demo.Effect.{Result, ok, err}
use kube_extauth_demo.Api.Types.{
  LoginResponse, Post, PostList, Comment, CommentList, User, UserList, Error,
}

pub record HttpResponse : Type 0 where
  pub status : ℕ
  pub content_type : Option String
  pub body : String

-- The values that `json.NewEncoder(&buf).Encode` is given.
pub data Payload : Type 0 where
  login_response : LoginResponse → Payload
  post : Post → Payload
  post_list : PostList → Payload
  comment : Comment → Payload
  comment_list : CommentList → Payload
  user : User → Payload
  user_list : UserList → Payload
  error : Error → Payload

-- The body of every `Visit…Response` with a payload. The value is encoded before anything is
-- written, so an error of the encoder leaves the response unwritten. An error of
-- the connection while the body is written comes after the status, and is left out.
unfoldable pub write_json : (Payload → Result String) → ℕ → Payload → Result HttpResponse
write_json encode status value = elim (encode value) [
  | ok text ↦ ok (record { status = status; content_type = some "application/json"; body = text })
  | err e ↦ err e
]

-- `w.WriteHeader(status)` alone
abbrev pub no_content : ℕ → HttpResponse
no_content status = record { status = status; content_type = none; body = "" }

-- http.Error
abbrev pub http_error : String → ℕ → HttpResponse
http_error message status = record {
  status = status;
  content_type = some "text/plain; charset=utf-8";
  body = message <> "\n";
}
