-- ===== src/Db/Client/Scan.antt =====
-- The calls of Scan in sample-api/pkg/db/query.sql.go: each column goes to the field that stands at
-- its place. A column of another type is an error of pgx.
use kube_extauth_demo.Prelude.{ℕ, List, [], ◌∷◌, Option, none, some}
use kube_extauth_demo.Effect.{Err, other, Result, ok, err}
use kube_extauth_demo.Effect.Results.{embed}
use kube_extauth_demo.Db.Models.{Comment, Post, User, UserRole}
use kube_extauth_demo.Db.Params.{
  GetPostRow, GetUserRow, GetUserByEmailRow, ListPostsRow, ListUsersRow,
}
use kube_extauth_demo.Db.Client.{
  Value, uuid, text, string, strings, timestamptz, post_status, int64,
}

abbrev pub scan_error : Err
scan_error = other "can't scan into dest"

-- A struct from the columns at the front of a row, and the columns after them.
unfoldable pub take_user : List Value → Option (User × List Value)
take_user
      (uuid id
        ∷ string email
        ∷ string password_hash
        ∷ string password_salt
        ∷ string first_name
        ∷ string last_name
        ∷ text avatar_url
        ∷ text bio
        ∷ uuid role_id
        ∷ timestamptz created_at
        ∷ timestamptz updated_at
        ∷ rest) =
    some (
      record {
        id = id;
        email = email;
        password_hash = password_hash;
        password_salt = password_salt;
        first_name = first_name;
        last_name = last_name;
        avatar_url = avatar_url;
        bio = bio;
        role_id = role_id;
        created_at = created_at;
        updated_at = updated_at;
      },
      rest,
    )
take_user _ = none

unfoldable pub take_role : List Value → Option (UserRole × List Value)
take_role (uuid id ∷ string slug ∷ strings scopes ∷ rest) =
    some (record { id = id; slug = slug; scopes = scopes }, rest)
take_role _ = none

unfoldable pub take_post : List Value → Option (Post × List Value)
take_post
      (uuid id
        ∷ uuid author_id
        ∷ string title
        ∷ string slug
        ∷ string content
        ∷ text excerpt
        ∷ post_status status
        ∷ strings categories
        ∷ strings tags
        ∷ timestamptz created_at
        ∷ timestamptz updated_at
        ∷ rest) =
    some (
      record {
        id = id;
        author_id = author_id;
        title = title;
        slug = slug;
        content = content;
        excerpt = excerpt;
        status = status;
        categories = categories;
        tags = tags;
        created_at = created_at;
        updated_at = updated_at;
      },
      rest,
    )
take_post _ = none

unfoldable pub take_comment : List Value → Option (Comment × List Value)
take_comment
      (uuid id
        ∷ uuid post_id
        ∷ uuid author_id
        ∷ string content
        ∷ timestamptz created_at
        ∷ timestamptz updated_at
        ∷ rest) =
    some (
      record {
        id = id;
        post_id = post_id;
        author_id = author_id;
        content = content;
        created_at = created_at;
        updated_at = updated_at;
      },
      rest,
    )
take_comment _ = none

unfoldable pub take_count : List Value → Option (ℕ × List Value)
take_count (int64 n ∷ rest) = some (n, rest)
take_count _ = none

-- Scan takes as many destinations as there are columns.
unfoldable pub all {ℓ} : {A : Type ℓ} → Option (A × List Value) → Result A
all (some (a, [])) = ok a
all _ = err scan_error

-- Two structs one after the other.
unfoldable pub both {ℓ κ} :
    {A : Type ℓ} {B : Type κ}
    → (List Value → Option (A × List Value))
    → (List Value → Option (B × List Value))
    → List Value
    → Option ((A × B) × List Value)
both first second row = elim (first row) [
  | none ↦ none
  | some (a, rest) ↦ elim (second rest) [ none ↦ none | some (b, end) ↦ some ((a, b), end) ]
]

abbrev pub scan_user : List Value → Result User
scan_user row = all (take_user row)

abbrev pub scan_role : List Value → Result UserRole
scan_role row = all (take_role row)

abbrev pub scan_post : List Value → Result Post
scan_post row = all (take_post row)

abbrev pub scan_comment : List Value → Result Comment
scan_comment row = all (take_comment row)

abbrev pub scan_count : List Value → Result ℕ
scan_count row = all (take_count row)

abbrev pub get_user_row : User × UserRole → GetUserRow
get_user_row (u, r) = record { user = u; user_role = r }

abbrev pub get_user_by_email_row : User × UserRole → GetUserByEmailRow
get_user_by_email_row (u, r) = record { user = u; user_role = r }

abbrev pub list_users_row : User × UserRole → ListUsersRow
list_users_row (u, r) = record { user = u; user_role = r }

abbrev pub get_post_row : Post × ℕ → GetPostRow
get_post_row (p, n) = record { post = p; comment_count = n }

abbrev pub list_posts_row : Post × ℕ → ListPostsRow
list_posts_row (p, n) = record { post = p; comment_count = n }

-- A row that embeds two structs, or a struct and a count.
module _ {ℓ} {A : Type ℓ} where
  abbrev pub scan_user_with_role : (User × UserRole → A) → List Value → Result A
  scan_user_with_role f row = embed f (all (both take_user take_role row))

  abbrev pub scan_post_with_count : (Post × ℕ → A) → List Value → Result A
  scan_post_with_count f row = embed f (all (both take_post take_count row))
