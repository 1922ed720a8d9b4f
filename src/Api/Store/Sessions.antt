-- ===== src/Api/Store/Sessions.antt =====
-- The token of a login in the requests that follow (sample-api/pkg/openapi/auth.go and server.go, with
-- pkg/auth/jwt.go).
use kube_extauth_demo.Prelude.{
  ℕ, String, ◌<>◌, true, Option, none, some, List, ◌≡◌, ◌≢◌, refl, sym, ap, subst, ◌∙◌,
  Option-cases, inl, inr, arith,
}
use kube_extauth_demo.Effect.{Err, ok, pure, raise, lift}
use kube_extauth_demo.Effect.Outcomes.{check-eq-ok, bind_lift-eq-ok}
use kube_extauth_demo.Db.Models.{Uuid, Time}
use kube_extauth_demo.Db.Params.{GetUserByEmailRow}
use kube_extauth_demo.External.{Claims, Crypto, Env}
use kube_extauth_demo.Auth.{Signer, hour, sign}
use kube_extauth_demo.Auth.Laws.{sign_lem}
use kube_extauth_demo.Api.Types.{LoginRequest, LoginResponse, Error, bearer}
use kube_extauth_demo.Api.Mapping.{to_uuid, to_api_user, is_not_found}
use kube_extauth_demo.Api.Identity.{TokenParser, identity}
use kube_extauth_demo.Api.Identity.Laws.{no_space, identity_lem}
use kube_extauth_demo.Api.Requests.{LoginRequestObject}
use kube_extauth_demo.Api.Responses.Login.{login_200_json, login_401_json}
use kube_extauth_demo.Api.Server.{Server, State, on_not_found}
use kube_extauth_demo.Api.Login.{credentials, verify, login}

-- The parser reads what the signer writes: a signed token is a text without white space, of which
-- ParseUnverified gives back the subject, and uuid.Parse reads what UUID.String writes.
pub record IsParserFor (c : Crypto) (key : c.PrivateKey) (parser : TokenParser) : Type 0 where
  pub solid :
      (t : Claims) (token : String) → c.signed_string t key ≡ ok token → no_space token ≡ true
  pub full : (t : Claims) (token : String) → c.signed_string t key ≡ ok token → token ≢ ""
  pub reads :
      (t : Claims) (token : String)
      → c.signed_string t key ≡ ok token
      → parser.parse_unverified token ≡ ok t.sub
  pub uuid : (u : Uuid) → parser.parse_uuid (c.uuid_string u) ≡ ok u

sign-identity :
    (c : Crypto) (s : Signer c) (parser : TokenParser) (env : Env) (user : Uuid) (role : String)
    (scopes : List String) {token : String} {expires_at : ℕ}
    → IsParserFor c s.key parser
    → sign c s env user role scopes hour ≡ ok (token, expires_at)
    → (identity parser ("Bearer " <> token)).sub ≡ some user
sign-identity c s parser env user role scopes {token} is_parser signed =
    let (t, made, described, _) = sign_lem c s env user role scopes 3600 signed in
    identity_lem parser token (is_parser.solid t token made) (is_parser.full t token made)
      (is_parser.reads t token made ∙ ap (λ x. ok x) described.sub) (is_parser.uuid user)

credentials-body :
    (o : Option LoginRequest) {body : LoginRequest} {password : String}
    → credentials o ≡ some (body, password)
    → o ≡ some body
unfolding credentials
credentials-body none h = cc
credentials-body (some body) h = elim (Option-cases body.password) [
  | inl missing ↦ cc (rw missing at h)
  | inr (password, given) ↦ cc (rw given at h)
]

abbrev response : GetUserByEmailRow → String × Time → LoginResponse
response row signed = record {
  token = signed.0;
  token_type = bearer;
  expires_at = signed.1;
  user = to_api_user row.user row.user_role;
}

module _ (s : Server) (env : Env) where
  refused-neq :
      {r : LoginResponse} {st' : State s} (m : Error) (e : Err) (st : State s)
      → on_not_found (login_401_json m) e st ≡ (ok (login_200_json r), st')
      → ⊥
  unfolding on_not_found is_not_found pure raise
  refused-neq m e st h = ground arith

  -- The response carries a token that was signed for the user of the row.
  abbrev IsResponse : GetUserByEmailRow → LoginResponse → Type 0
  IsResponse row r =
      (sign s.crypto s.signer env (to_uuid row.user.id) row.user_role.slug row.user_role.scopes hour
        ≡ ok (r.token, r.expires_at))
      × (r.user ≡ to_api_user row.user row.user_role)

  verify-eq-ok :
      (row : GetUserByEmailRow) (password : String) (st : State s) {r : LoginResponse}
      {st' : State s}
      → verify s env row password st ≡ (ok (login_200_json r), st')
      → IsResponse row r
  unfolding verify pure lift
  verify-eq-ok row password st {r} h = elim (check-eq-ok _ _ _ st h) [
    | inr (e, failed, refused) ↦ cc (ap (λ p. p.0) refused)
    | inl (_, fits, rest) ↦
        let (signed, made, returned) = bind_lift-eq-ok _ _ st (ap (λ p. p.0) rest) in
        let same : response row signed ≡ r = cc returned in subst (IsResponse row) same (made, refl)
  ]

  -- A login that is answered with 200 has read a row by the email of the request.
  login-eq-ok :
      (request : LoginRequestObject) (st : State s) {r : LoginResponse} {st' : State s}
      → login s env request st ≡ (ok (login_200_json r), st')
      → (body : LoginRequest) × (row : GetUserByEmailRow) × (request.body ≡ some body)
        × ((s.q.get_user_by_email body.email st).0 ≡ ok row)
        × IsResponse row r
  unfolding login pure
  login-eq-ok request st h = elim (Option-cases (credentials request.body)) [
    | inl missing ↦ cc (rw (missing, login) at h)
    | inr ((body, password), given) ↦ elim (check-eq-ok _ _ _ st (rw (given, login) at h)) [
      | inr (e, failed, refused) ↦ elim (refused-neq _ e _ refused) [ ]
      | inl (row, read, rest) ↦
          let (signed, is_user) = verify-eq-ok row password _ rest in
          (body, row, credentials-body request.body given, read, (signed, is_user))
    ]
  ]

-- The token of a login that is answered with 200 is the proof of identity of the user who logged in:
-- a request with this token in its bearer header is taken to come from the user of the response,
-- the one whose row was read by the email of the request, given that the parser reads what the
-- signer writes.
pub login-identity :
    (s : Server) (env : Env) (parser : TokenParser) (request : LoginRequestObject) (st : State s)
    {r : LoginResponse} {st' : State s}
    → IsParserFor s.crypto s.signer.key parser
    → login s env request st ≡ (ok (login_200_json r), st')
    → (body : LoginRequest) × (row : GetUserByEmailRow) × (request.body ≡ some body)
      × ((s.q.get_user_by_email body.email st).0 ≡ ok row)
      × (r.user ≡ to_api_user row.user row.user_role)
      × ((identity parser ("Bearer " <> r.token)).sub ≡ r.user.id)
unfolding to_api_user
login-identity s env parser request st {r} is_parser answered =
    let (body, row, given, read, (signed, is_user)) = login-eq-ok s env request st answered in
    let known = sign-identity s.crypto s.signer parser env _ _ _ is_parser signed in
    (body, row, given, read, is_user, known ∙ sym (ap (λ u. u.id) is_user))
