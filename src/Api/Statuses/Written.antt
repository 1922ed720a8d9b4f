-- ===== src/Api/Statuses/Written.antt =====
-- The status codes of responses as sample-api/pkg/openapi/gen.go writes them, and the rules by which
-- the handlers' are found.
use kube_extauth_demo.Prelude.{◌≡◌, subst, ℕ, String, inl, inr}
use kube_extauth_demo.Effect.{Err, Result, ok}
use kube_extauth_demo.Effect.Outcomes.{Result-cases}
use kube_extauth_demo.Effect.Answers.{Answers, answer_rules}
use kube_extauth_demo.Api.Http.{HttpResponse, Payload, write_json, no_content}
use kube_extauth_demo.Api.Server.{on_not_found}

-- If a response is written, its status satisfies `P`.
pub record Written {κ} (P : ℕ → Type κ) (written : Result HttpResponse) : Type κ where
  pub status : (response : HttpResponse) → written ≡ ok response → P response.status

module _ {κ} {P : ℕ → Type κ} where
  pub Written-write_json :
      (encode : Payload → Result String) (status : ℕ) (value : Payload)
      → P status
      → Written P (write_json encode status value)
  unfolding write_json
  Written-write_json encode status value p = elim (Result-cases (encode value)) [
    | inl (text, e) ↦
        rw (e, write_json)
          (record { status = λ r f. let same : status ≡ r.status = cc in subst P same p })
    | inr (x, e) ↦ rw (e, write_json) (record { status = λ r f. cc })
  ]

  pub Written-no_content : (status : ℕ) → P status → Written P (ok (no_content status))
  Written-no_content status p = record {
    status = λ r f. let same : status ≡ r.status = cc in subst P same p;
  }

pub Answers-on_not_found {ℓ κ} :
    {S R : Type ℓ} {P : R → Type κ} (r : R) (e : Err) → P r → Answers P (on_not_found {S = S} r e)
unfolding on_not_found
Answers-on_not_found r e p = search answer_rules

pub ruleset handler_rules =
    (answer_rules, Answers-on_not_found, Written-write_json, Written-no_content)
