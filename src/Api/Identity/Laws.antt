-- ===== src/Api/Identity/Laws.antt =====
-- The token of a bearer header.
use Prim.Native.Char.{code}
use kube_extauth_demo.Prelude.{
  String, ◌<>◌, Bool, true, some, not, ◌&&◌, ◌==◌, string_eq, eq_iff, ◌≡◌, ◌≢◌, refl, ap, ◌∙◌,
  Bool-cases, inl, inr,
}
use kube_extauth_demo.Prelude.Text.{cut_prefix-append}
use kube_extauth_demo.Effect.{ok}
use kube_extauth_demo.Db.Models.{Uuid}
use kube_extauth_demo.Api.Identity.{
  is_space, trim_space_left, trim_space_right, trim_space, bearer_token, TokenParser, subject,
  identity,
}

-- No character of the text is white space.
unfoldable pub no_space : String → Bool
no_space String.[] = true
no_space (String.◌∷◌ c s) = not (is_space (code c)) && no_space s

trim_space_left-no_space : (s : String) → no_space s ≡ true → trim_space_left s ≡ s
unfolding no_space trim_space_left
trim_space_left-no_space String.[] h = refl
trim_space_left-no_space (String.◌∷◌ c s) h = elim (Bool-cases (is_space (code c))) [
  | inl space ↦ cc (rw space at h)
  | inr solid ↦ rw solid refl
]

trim_space_right-no_space : (s : String) → no_space s ≡ true → trim_space_right s ≡ s
unfolding no_space trim_space_right
trim_space_right-no_space String.[] h = refl
trim_space_right-no_space (String.◌∷◌ c s) h = elim (Bool-cases (is_space (code c))) [
  | inl space ↦ cc (rw space at h)
  | inr solid ↦ rw solid (ap (String.◌∷◌ c) (trim_space_right-no_space s (rw solid at h)))
]

-- A token without white space is read from a bearer header as it is.
pub bearer_token_lem :
    (token : String) → no_space token ≡ true → bearer_token ("Bearer " <> token) ≡ token
unfolding bearer_token trim_space
bearer_token_lem token solid =
    rw (cut_prefix-append "Bearer " token, bearer_token)
      (ap trim_space_right (trim_space_left-no_space token solid)
        ∙ trim_space_right-no_space token solid)

pub identity_lem :
    (parser : TokenParser) (token : String) {sub : String} {user : Uuid}
    → no_space token ≡ true
    → token ≢ ""
    → parser.parse_unverified token ≡ ok sub
    → parser.parse_uuid sub ≡ ok user
    → (identity parser ("Bearer " <> token)).sub ≡ some user
unfolding identity subject
identity_lem parser token solid full parsed read = elim (Bool-cases (token == "")) [
  | inl empty ↦ elim (full ((eq_iff token "").0 empty)) [ ]
  | inr some_token ↦
      rw (bearer_token_lem token solid, identity)
        (rw some_token (rw (parsed, subject) (rw read refl)))
]
