-- ===== src/Api/Identity.antt =====
-- `identity` and `bearerToken` of sample-api/pkg/openapi/server.go.
pub mod Laws
use Prim.Native.Char.{code}
use kube_extauth_demo.Prelude.{
  ℕ, String, len, Bool, Option, none, some, ◌&&◌, ◌||◌, ◌==◌, nat_eq, string_eq, leb, if◌then◌else◌,
}
use kube_extauth_demo.Prelude.Text.{cut_prefix}
use kube_extauth_demo.Effect.{Result, ok, err}
use kube_extauth_demo.Db.Models.{Uuid}
use kube_extauth_demo.Api.Mapping.{Context}

-- unicode.IsSpace
unfoldable pub is_space : ℕ → Bool
is_space c =
    (leb 9 c && leb c 13)
    || (c == 0x20
        || (c == 0x85
            || (c == 0xa0
                || (c == 0x1680
                    || ((leb 0x2000 c && leb c 0x200a)
                        || (c == 0x2028
                            || (c == 0x2029 || (c == 0x202f || (c == 0x205f || c == 0x3000)))))))))

unfoldable pub trim_space_left : String → String
trim_space_left String.[] = ""
trim_space_left (String.◌∷◌ c s) = if is_space (code c) then trim_space_left s else String.◌∷◌ c s

unfoldable pub trim_space_right : String → String
trim_space_right String.[] = ""
trim_space_right (String.◌∷◌ c s) =
    let rest = trim_space_right s in
    if is_space (code c) && rest == "" then "" else String.◌∷◌ c rest

-- strings.TrimSpace
unfoldable pub trim_space : String → String
unfolding is_space trim_space_left trim_space_right
trim_space s = trim_space_right (trim_space_left s)

-- bearerToken, of the value of the header
unfoldable pub bearer_token : String → String
unfolding cut_prefix trim_space
bearer_token h = elim (cut_prefix h "Bearer ") [ none ↦ "" | some rest ↦ trim_space rest ]

-- What `identity` calls outside the repository: the subject of the claims of a token whose signature
-- is not verified (jwt.Parser.ParseUnverified), and uuid.Parse.
pub record TokenParser : Type 0 where
  pub parse_unverified : String → Result String
  pub parse_uuid : String → Result Uuid

-- The value that `identity` stores under `subKey`, if any.
unfoldable pub subject : TokenParser → String → Option Uuid
subject parser raw = elim (parser.parse_unverified raw) [
  | err e ↦ none
  | ok sub ↦ elim (parser.parse_uuid sub) [ err e ↦ none | ok id ↦ some id ]
]

-- The context with which `identity` calls the next handler.
unfoldable pub identity : TokenParser → String → Context
unfolding bearer_token subject
identity parser authorization =
    let raw = bearer_token authorization in
    record { sub = if raw == "" then none else subject parser raw }
