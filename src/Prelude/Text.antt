-- ===== src/Prelude/Text.antt =====
-- Texts as Go's package strings sees them.
use Prim.Native.String.{String, len, slice, ◌++◌ as ◌<>◌}
use text.Mathlib.Text.{starts_with}
use text.Mathlib.TextEquality.{starts_with_iff}
use text.Mathlib.TextPositions.{len-append, starts_with-append, slice-append_right}
use kube_extauth_demo.Prelude.Tests.{if◌then◌else◌, Bool-cases}
use mathlib.Core.Path.{◌≡◌, refl, ap, ◌∙◌}
use mathlib.Core.Logic.{inl, inr}
use mathlib.Core.Option.{Option, none, some}

-- strings.CutPrefix: none for `ok == false`.
unfoldable pub cut_prefix : String → String → Option String
cut_prefix s prefix = if starts_with s prefix then some (slice s (len prefix) (len s)) else none

pub cut_prefix-append : (prefix rest : String) → cut_prefix (prefix <> rest) prefix ≡ some rest
unfolding cut_prefix
cut_prefix-append prefix rest = rw (starts_with-append prefix rest) (
    ap some (
      ap (λ n. slice (prefix <> rest) (len prefix) n) (len-append prefix rest)
      ∙ slice-append_right prefix rest))

-- A text that has none of another as its beginning is not cut.
pub cut_prefix-eq-none :
    (s prefix : String) → ((u : String) → prefix <> u ≡ s → ⊥) → cut_prefix s prefix ≡ none
unfolding cut_prefix
cut_prefix-eq-none s prefix other = elim (Bool-cases (starts_with s prefix)) [
  | inl yes_it ↦ let (u, h) = (starts_with_iff s prefix).0 yes_it in elim (other u h) [ ]
  | inr no_it ↦ rw no_it refl
]
