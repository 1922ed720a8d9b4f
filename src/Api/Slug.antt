-- ===== src/Api/Slug.antt =====
-- `slugify` of sample-api/pkg/openapi/post.go, over the code points of the title.
pub mod Laws
use Prim.Native.Char.{Char, code}
use Prim.Native.String
use Prim.Native.String.{char_at, slice}
use kube_extauth_demo.Prelude.{
  ℕ, ◌-◌, ◌+◌, String, ◌<>◌, Bool, true, false, List, [], ◌∷◌, map, ◌&&◌, ◌||◌, ◌==◌, nat_eq, leb,
  if◌then◌else◌,
}

abbrev pub codes : String → List ℕ
codes String.[] = []
codes (String.◌∷◌ c s) = code c ∷ codes s

-- [a-z0-9]
unfoldable pub is_slug_char : ℕ → Bool
is_slug_char c = (leb b'a' c && leb c b'z') || (leb b'0' c && leb c b'9')

abbrev pub dash : ℕ
dash = b'-'

-- strings.ToLower of one code point. Of the code points above ASCII only U+0130 and U+212A have a
-- lower case in ASCII; the others have one outside [a-z0-9] and are left as they are, since
-- `slugStrip` treats both alike.
unfoldable pub to_lower : ℕ → ℕ
to_lower c =
    if leb b'A' c && leb c b'Z'
    then c + 32
    else if c == 0x130
    then b'i'
    else if c == 0x212a
    then b'k'
    else c

-- slugStrip.ReplaceAllString(…, "-"): each longest run of other characters becomes one dash. The
-- flag says that the run has begun.
unfoldable pub slug_strip : Bool → List ℕ → List ℕ
slug_strip in_run [] = []
slug_strip in_run (c ∷ cs) = elim (is_slug_char c) [
  | true ↦ c ∷ slug_strip false cs
  | false ↦ let rest = slug_strip true cs in if in_run then rest else dash ∷ rest
]

-- strings.Trim(…, "-")
unfoldable pub trim_left : List ℕ → List ℕ
trim_left [] = []
trim_left (c ∷ cs) = if c == dash then trim_left cs else c ∷ cs

abbrev pub is_nil : List ℕ → Bool
is_nil [] = true
is_nil (c ∷ cs) = false

unfoldable pub trim_right : List ℕ → List ℕ
trim_right [] = []
trim_right (c ∷ cs) = let rest = trim_right cs in if c == dash && is_nil rest then [] else c ∷ rest

abbrev pub or_post : List ℕ → List ℕ
or_post [] = codes "post"
or_post (c ∷ cs) = c ∷ cs

-- The variable `base` of slugify, after its last assignment.
unfoldable pub slug_base : List ℕ → List ℕ
unfolding slug_strip is_slug_char to_lower trim_left trim_right
slug_base title = or_post (trim_right (trim_left (slug_strip false (map to_lower title))))

-- The text of a list of characters of a slug.
letter : ℕ → Char
letter c =
    if leb b'a' c && leb c b'z'
    then char_at "abcdefghijklmnopqrstuvwxyz" (c - b'a')
    else if leb b'0' c && leb c b'9'
    then char_at "0123456789" (c - b'0')
    else char_at "-" 0

unfoldable pub text_of : List ℕ → String
unfolding letter
text_of [] = ""
text_of (c ∷ cs) = String.◌∷◌ (letter c) (text_of cs)

-- `random` is uuid.NewString(), a text of 36 ASCII characters.
unfoldable pub slugify : String → String → String
unfolding slug_base text_of
slugify title random = text_of (slug_base (codes title)) <> "-" <> slice random 0 8
