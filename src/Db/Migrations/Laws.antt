-- ===== src/Db/Migrations/Laws.antt =====
-- The URL of the migrations.
use Prim.Native.String.{slice}
use text.Mathlib.TextPositions.{slice-append_middle}
use text.Mathlib.TextLemmas.{append_assoc}
use kube_extauth_demo.Prelude.{String, ◌<>◌, ◌≡◌, refl, sym, ap, ◌∙◌}
use kube_extauth_demo.Prelude.Text.{cut_prefix-append, cut_prefix-eq-none}
use kube_extauth_demo.Db.Migrations.{Migrator, normalize_url, run_migrations}

-- The scheme postgresql:// becomes postgres://, and a URL that has that scheme stays as it is.
normalize_long : (rest : String) → normalize_url ("postgresql://" <> rest) ≡ "postgres://" <> rest
unfolding normalize_url
normalize_long rest = rw (cut_prefix-append "postgresql://" rest, normalize_url) refl

schemes_differ : (u rest : String) → "postgresql://" <> u ≡ "postgres://" <> rest → ⊥
schemes_differ u rest e =
    let long = slice-append_middle "postgres" "q" ("l://" <> u) in
    let short = slice-append_middle "postgres" ":" ("//" <> rest) in
    let left : "postgres" <> ("q" <> ("l://" <> u)) ≡ "postgresql://" <> u =
      ap (λ t. "postgres" <> t) (sym (append_assoc "q" "l://" u))
      ∙ sym (append_assoc "postgres" "ql://" u) in
    let right : "postgres" <> (":" <> ("//" <> rest)) ≡ "postgres://" <> rest =
      ap (λ t. "postgres" <> t) (sym (append_assoc ":" "//" rest))
      ∙ sym (append_assoc "postgres" "://" rest) in
    let same : ◌≡◌ {A = String} "q" ":" =
      sym long ∙ ap (λ t. slice t 8 9) (left ∙ (e ∙ sym right)) ∙ short in
    cc same

normalize_short : (rest : String) → normalize_url ("postgres://" <> rest) ≡ "postgres://" <> rest
unfolding normalize_url
normalize_short rest =
    rw
      (
        cut_prefix-eq-none ("postgres://" <> rest) "postgresql://" (λ u e. schemes_differ u rest e),
        normalize_url,
      )
      refl

-- The two spellings of the scheme of a database's URL mean the same: RunMigrations does and returns
-- the same for both, whatever the migrations do.
pub run_migrations-same_scheme :
    {S : Type 0} (m : Migrator S) (rest : String) (s : S)
    → run_migrations m ("postgresql://" <> rest) s ≡ run_migrations m ("postgres://" <> rest) s
unfolding run_migrations
run_migrations-same_scheme m rest s = rw (normalize_long rest, normalize_short rest) refl
