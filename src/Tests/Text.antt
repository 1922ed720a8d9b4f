-- ===== src/Tests/Text.antt =====
-- Slugs, pages, tokens and statuses at concrete inputs.
use kube_extauth_demo.Prelude.{String, ◌≡◌, ◌↔◌, refl, [], some, true, ◌+◌, ◌*◌, min, arith}
use kube_extauth_demo.Prelude.Int.{pos, negsuc, ◌≤ℤ◌}
use kube_extauth_demo.Effect.{ok}
use kube_extauth_demo.External.{Claims}
use kube_extauth_demo.Auth.{sign, second}
use kube_extauth_demo.Auth.Laws.{Describes, sign_lem}
use kube_extauth_demo.Config.{Config, load}
use kube_extauth_demo.Config.Laws.{IsComplete, load_iff}
use kube_extauth_demo.Api.Mapping.{paginate}
use kube_extauth_demo.Api.Mapping.Pages.{rows_before, paginate_bounds, paginate_exact}
use kube_extauth_demo.Api.Slug.{codes, slug_base, is_slug_char}
use kube_extauth_demo.Api.Slug.Laws.{IsSlug, slug_base-IsSlug, slug_base-eq_of_IsSlug}
use kube_extauth_demo.Tests.Fixtures.{toy_crypto, env}

slug_base-IsSlug_example : IsSlug true (slug_base (codes "  Hello, World! "))
slug_base-IsSlug_example = slug_base-IsSlug (codes "  Hello, World! ")

slug_base-eq_of_IsSlug_example : slug_base (codes "a-b") ≡ codes "a-b"
unfolding is_slug_char
slug_base-eq_of_IsSlug_example = slug_base-eq_of_IsSlug (codes "a-b") (refl, refl, refl)

paginate_bounds_example :
    let p = paginate (some (negsuc 4)) (some (pos 500)) in
    (p.limit ≡ p.per_page) × (pos 1 ≤ℤ p.limit) × (p.limit ≤ℤ pos 100) × (pos 1 ≤ℤ p.page)
paginate_bounds_example = paginate_bounds (some (negsuc 4)) (some (pos 500))

paginate_exact_example : paginate (some (pos 3)) (some (pos 500)) ≡ record {
  limit = pos (min 500 100);
  offset = pos (rows_before 3 (min 500 100));
  page = pos 3;
  per_page = pos (min 500 100);
}
paginate_exact_example =
    paginate_exact 3 500 (omega arith) (omega arith) (omega arith) (omega arith)

sign_lem_example :
    (t : Claims) × (toy_crypto.signed_string t "key" ≡ ok "seven.admin.key")
    × Describes toy_crypto env 7 "admin" [] 60 t
    × (env.now + 60 * second ≡ env.now + 60 * second)
unfolding sign
sign_lem_example = sign_lem toy_crypto (record { key = "key" }) env 7 "admin" [] 60 refl

abbrev settings : Config
settings = record {
  database = record { url = "postgresql://db" };
  jwt = record { private_key_file = "key.pem"; public_key_file = "" };
  http = record { health = ":8081"; public = ":8080" };
}

load_iff_example :
    (load (λ path. ok "yaml") (λ raw. ok settings) (λ text. text) "config.yaml" ≡ ok settings)
    ↔ ((raw : String) × (ok "yaml" ≡ ok raw) × (ok settings ≡ ok settings) × IsComplete settings)
load_iff_example =
    load_iff (λ path. ok "yaml") (λ raw. ok settings) (λ text. text) "config.yaml" settings
