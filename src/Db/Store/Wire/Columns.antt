-- ===== src/Db/Store/Wire/Columns.antt =====
-- The columns that the statements of sample-api/pkg/db/query.sql.go select or return, in their order.
use kube_extauth_demo.Prelude.{ℕ, List, [], ◌∷◌, ◌++◌}
use kube_extauth_demo.Db.Models.{Comment, Post, User, UserRole}
use kube_extauth_demo.Db.Client.{
  Value, uuid, text, string, strings, timestamptz, post_status, int64,
}

abbrev pub user_columns : User → List Value
user_columns u =
    uuid u.id
    ∷ string u.email
    ∷ string u.password_hash
    ∷ string u.password_salt
    ∷ string u.first_name
    ∷ string u.last_name
    ∷ text u.avatar_url
    ∷ text u.bio
    ∷ uuid u.role_id
    ∷ timestamptz u.created_at
    ∷ timestamptz u.updated_at
    ∷ []

abbrev pub role_columns : UserRole → List Value
role_columns r = uuid r.id ∷ string r.slug ∷ strings r.scopes ∷ []

abbrev pub post_columns : Post → List Value
post_columns p =
    uuid p.id
    ∷ uuid p.author_id
    ∷ string p.title
    ∷ string p.slug
    ∷ string p.content
    ∷ text p.excerpt
    ∷ post_status p.status
    ∷ strings p.categories
    ∷ strings p.tags
    ∷ timestamptz p.created_at
    ∷ timestamptz p.updated_at
    ∷ []

abbrev pub comment_columns : Comment → List Value
comment_columns c =
    uuid c.id
    ∷ uuid c.post_id
    ∷ uuid c.author_id
    ∷ string c.content
    ∷ timestamptz c.created_at
    ∷ timestamptz c.updated_at
    ∷ []

abbrev pub count_columns : ℕ → List Value
count_columns n = int64 n ∷ []

-- Two tables, or a table and a count, in one row.
abbrev pub user_with_role_columns : User → UserRole → List Value
user_with_role_columns u r = user_columns u ++ role_columns r

abbrev pub post_with_count_columns : Post → ℕ → List Value
post_with_count_columns p n = post_columns p ++ count_columns n
