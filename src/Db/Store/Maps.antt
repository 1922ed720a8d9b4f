-- ===== src/Db/Store/Maps.antt =====
-- The tables as maps from ids to rows, which forget the order of the rows and their older versions,
-- and what the statements that write mean for the maps.
pub mod Laws
pub mod Writes
pub mod Stores
pub mod Deletes
pub mod Refinement
use kube_extauth_demo.Prelude.{
  ℕ, Bool, true, false, Option, none, some, List, ◌==◌, nat_eq, not, ◌&&◌, ◌||◌, if◌then◌else◌,
}
use kube_extauth_demo.Prelude.Tables.{find_row}
use kube_extauth_demo.Db.Models.{Uuid, PgUuid, User, Post, Comment, ◌=?◌}
use kube_extauth_demo.Db.Store.Base.{Tables}

module _ {ℓ} {A : Type ℓ} where
  abbrev pub only : (A → Bool) → Option A → Option A
  only p none = none
  only p (some x) = if p x then some x else none

  -- The row with an id becomes `x`, or goes.
  unfoldable pub put : Uuid → A → (Uuid → Option A) → Uuid → Option A
  put id x m k = if k == id then some x else m k

  unfoldable pub remove : Uuid → (Uuid → Option A) → Uuid → Option A
  remove id m k = if k == id then none else m k

  -- The rows that meet the condition stay.
  unfoldable pub keep : (A → Bool) → (Uuid → Option A) → Uuid → Option A
  keep p m k = only p (m k)

  unfoldable pub view : (A → PgUuid) → List A → Uuid → Option A
  view key rows k = find_row (λ x. key x =? record { bytes = k; valid = true }) rows

pub record Maps : Type 0 where
  pub users : Uuid → Option User
  pub posts : Uuid → Option Post
  pub comments : Uuid → Option Comment

unfoldable pub maps : Tables → Maps
maps t = record {
  users = view (λ u. u.id) t.users;
  posts = view (λ p. p.id) t.posts;
  comments = view (λ c. c.id) t.comments;
}

-- What goes with a user: their posts, their comments, and the comments on their posts.
abbrev pub written_by : Uuid → Option Post → Bool
written_by user none = false
written_by user (some p) = p.author_id.bytes == user

unfoldable pub drop_user : Uuid → Maps → Maps
drop_user user m = record {
  users = remove user m.users;
  posts = keep (λ p. not (p.author_id.bytes == user)) m.posts;
  comments =
      keep (λ c. not (c.author_id.bytes == user || written_by user (m.posts c.post_id.bytes)))
        m.comments;
}

-- What goes with a post: the comments on it.
unfoldable pub drop_post : Uuid → Maps → Maps
drop_post post m = record m {
  posts = remove post m.posts;
  comments = keep (λ c. not (c.post_id.bytes == post)) m.comments;
}
