-- ===== src/Api/Slug/Laws.antt =====
-- The base of a slug: its shape, and that it is made of itself.
use kube_extauth_demo.Prelude.{
  ℕ, ◌≡◌, refl, ◌⊎◌, inl, inr, Bool, true, false, List, [], ◌∷◌, map, nat_eq, arith,
}
use kube_extauth_demo.Api.Slug.{
  is_slug_char, dash, to_lower, slug_strip, trim_left, trim_right, or_post, slug_base,
}

-- Characters of [a-z0-9], and dashes of which no two are neighbours. The flag says that a dash came
-- just before.
abbrev IsSpaced : Bool → List ℕ → Type 0
IsSpaced after [] = Unit
IsSpaced after (c ∷ cs) = elim (is_slug_char c) [
  | true ↦ IsSpaced false cs
  | false ↦ (c ≡ dash) × (after ≡ false) × IsSpaced true cs
]

-- The same, with no dash at the end.
abbrev pub IsSlug : Bool → List ℕ → Type 0
IsSlug after [] = after ≡ false
IsSlug after (c ∷ cs) = elim (is_slug_char c) [
  | true ↦ IsSlug false cs
  | false ↦ (c ≡ dash) × (after ≡ false) × IsSlug true cs
]

slug_strip-IsSpaced : (in_run : Bool) (cs : List ℕ) → IsSpaced in_run (slug_strip in_run cs)
unfolding slug_strip is_slug_char
slug_strip-IsSpaced in_run [] = tt
slug_strip-IsSpaced in_run (c ∷ cs) =
    ground (arith, slug_strip-IsSpaced false cs, slug_strip-IsSpaced true cs)

IsSpaced-weaken : (cs : List ℕ) → IsSpaced true cs → IsSpaced false cs
IsSpaced-weaken [] h = tt
IsSpaced-weaken (c ∷ cs) h = ground arith

trim_left-IsSpaced : (cs : List ℕ) → IsSpaced false cs → IsSpaced true (trim_left cs)
unfolding trim_left is_slug_char
trim_left-IsSpaced [] h = tt
trim_left-IsSpaced (c ∷ cs) h = ground (arith, trim_left-IsSpaced cs, IsSpaced-weaken cs)

trim_right-IsSlug :
    (after : Bool) (cs : List ℕ)
    → IsSpaced after cs
    → (trim_right cs ≡ []) ⊎ IsSlug after (trim_right cs)
unfolding trim_right is_slug_char
trim_right-IsSlug after [] h = inl refl
trim_right-IsSlug after (c ∷ cs) h =
    ground (arith, trim_right-IsSlug false cs, trim_right-IsSlug true cs)

or_post-IsSlug : (cs : List ℕ) → (cs ≡ []) ⊎ IsSlug true cs → IsSlug true (or_post cs)
unfolding is_slug_char
or_post-IsSlug [] h = refl
or_post-IsSlug (c ∷ cs) (inl e) = cc
or_post-IsSlug (c ∷ cs) (inr h) = h

-- For every title the base of its slug is a text of letters a-z, digits and single dashes that is
-- not empty and neither begins nor ends with a dash.
pub slug_base-IsSlug : (title : List ℕ) → IsSlug true (slug_base title)
unfolding slug_base
slug_base-IsSlug title =
    let lower = map to_lower title in
    let trimmed = trim_left (slug_strip false lower) in
    or_post-IsSlug (trim_right trimmed) (
      trim_right-IsSlug true trimmed
        (trim_left-IsSpaced (slug_strip false lower) (slug_strip-IsSpaced false lower)))

-- A text of the shape of a base is left alone by each step.
map-to_lower_slug : (after : Bool) (cs : List ℕ) → IsSlug after cs → map to_lower cs ≡ cs
unfolding is_slug_char to_lower
map-to_lower_slug after [] h = refl
map-to_lower_slug after (c ∷ cs) h =
    ground (arith, map-to_lower_slug false cs, map-to_lower_slug true cs)

slug_strip_slug : (after : Bool) (cs : List ℕ) → IsSlug after cs → slug_strip after cs ≡ cs
unfolding is_slug_char slug_strip
slug_strip_slug after [] h = refl
slug_strip_slug after (c ∷ cs) h = ground (arith, slug_strip_slug false cs, slug_strip_slug true cs)

trim_left_slug : (cs : List ℕ) → IsSlug true cs → trim_left cs ≡ cs
unfolding is_slug_char trim_left
trim_left_slug [] h = refl
trim_left_slug (c ∷ cs) h = ground arith

trim_right_slug : (after : Bool) (cs : List ℕ) → IsSlug after cs → trim_right cs ≡ cs
unfolding is_slug_char trim_right
trim_right_slug after [] h = refl
trim_right_slug after (c ∷ cs) h = ground (arith, trim_right_slug false cs, trim_right_slug true cs)

or_post_slug : (cs : List ℕ) → IsSlug true cs → or_post cs ≡ cs
or_post_slug [] h = cc
or_post_slug (c ∷ cs) h = refl

IsSlug-weaken : (cs : List ℕ) → IsSlug true cs → IsSlug false cs
IsSlug-weaken [] h = cc
IsSlug-weaken (c ∷ cs) h = ground arith

-- A title that already is a text of letters a-z, digits and single dashes, not empty and with no
-- dash at either end, is the base of its own slug.
pub slug_base-eq_of_IsSlug : (cs : List ℕ) → IsSlug true cs → slug_base cs ≡ cs
unfolding slug_base
slug_base-eq_of_IsSlug cs h =
    rw
      (
        slug_base,
        map-to_lower_slug true cs h,
        slug_strip_slug false cs (IsSlug-weaken cs h),
        trim_left_slug cs h,
        trim_right_slug true cs h,
      )
      (or_post_slug cs h)
