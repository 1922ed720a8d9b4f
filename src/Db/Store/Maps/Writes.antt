-- ===== src/Db/Store/Maps/Writes.antt =====
-- The statements that write as a type, what they do to the tables, and what that means for the maps.
use kube_extauth_demo.Prelude.{true, List, [], ◌∷◌, nat_eq}
use kube_extauth_demo.Effect.{Result, ok, err, Exec, map_ok}
use kube_extauth_demo.Db.Models.{Uuid, PgUuid, User, Post, Comment}
use kube_extauth_demo.Db.Params.{
  CreateUserParams, ReplaceUserParams, UpdateUserParams, CreatePostParams, ReplacePostParams,
  CreateCommentParams, UpdateCommentParams,
}
use kube_extauth_demo.Db.Store.Base.{Database}
use kube_extauth_demo.Db.Store.Users as UserRows
use kube_extauth_demo.Db.Store.Posts as PostRows
use kube_extauth_demo.Db.Store.Comments as CommentRows
use kube_extauth_demo.Db.Store.Maps.{put, remove, Maps, drop_user, drop_post}

-- A statement that writes, and the row that it returns.
pub data Write : Type 0 where
  create_user : CreateUserParams → Write
  replace_user : ReplaceUserParams → Write
  update_user : UpdateUserParams → Write
  delete_user : Uuid → Write
  create_post : CreatePostParams → Write
  replace_post : ReplacePostParams → Write
  delete_post : Uuid → Write
  create_comment : CreateCommentParams → Write
  update_comment : UpdateCommentParams → Write
  delete_comment : Uuid → Write

pub data Row : Type 0 where
  user_row : User → Row
  post_row : Post → Row
  comment_row : Comment → Row
  no_row : Row

abbrev pg : Uuid → PgUuid
pg id = record { bytes = id; valid = true }

unfoldable pub execute : Write → Exec Database Row
execute (create_user arg) db = map_ok user_row (UserRows.create_user arg db)
execute (replace_user arg) db = map_ok user_row (UserRows.replace_user arg db)
execute (update_user arg) db = map_ok user_row (UserRows.update_user arg db)
execute (delete_user id) db = map_ok (λ _. no_row) (UserRows.delete_user (pg id) db)
execute (create_post arg) db = map_ok post_row (PostRows.create_post arg db)
execute (replace_post arg) db = map_ok post_row (PostRows.replace_post arg db)
execute (delete_post id) db = map_ok (λ _. no_row) (PostRows.delete_post (pg id) db)
execute (create_comment arg) db = map_ok comment_row (CommentRows.create_comment arg db)
execute (update_comment arg) db = map_ok comment_row (CommentRows.update_comment arg db)
execute (delete_comment id) db = map_ok (λ _. no_row) (CommentRows.delete_comment (pg id) db)

-- A row that is returned is what its id stands for from now on.
abbrev pub put_row : Row → Maps → Maps
put_row (user_row u) m = record m { users = put u.id.bytes u m.users }
put_row (post_row p) m = record m { posts = put p.id.bytes p m.posts }
put_row (comment_row c) m = record m { comments = put c.id.bytes c m.comments }
put_row no_row m = m

abbrev pub drop : Write → Maps → Maps
drop (delete_user id) m = drop_user id m
drop (delete_post id) m = drop_post id m
drop (delete_comment id) m = record m { comments = remove id m.comments }
drop _ m = m

-- What a statement with an outcome means for the maps.
unfoldable pub effect : Write → Result Row → Maps → Maps
effect w (err e) m = m
effect w (ok row) m = put_row row (drop w m)

-- Statements one after the other, with the outcome of each.
unfoldable pub run : List Write → Database → List (Write × Result Row) × Database
run [] db = ([], db)
run (w ∷ ws) db =
    let now = execute w db in let later = run ws now.1 in ((w, now.0) ∷ later.0, later.1)

unfoldable pub replay : List (Write × Result Row) → Maps → Maps
replay [] m = m
replay ((w, r) ∷ log) m = replay log (effect w r m)
