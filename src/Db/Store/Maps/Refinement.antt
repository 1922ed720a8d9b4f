-- ===== src/Db/Store/Maps/Refinement.antt =====
-- The statements that write, one after the other, on the tables and on the maps.
use kube_extauth_demo.Prelude.{List, [], ◌∷◌, ◌≡◌, refl, ◌∙◌, ap}
use kube_extauth_demo.Effect.{map_ok, Result, ok, err}
use kube_extauth_demo.Db.Store.Base.{Database}
use kube_extauth_demo.Db.Store.Invariant.{IsConsistent}
use kube_extauth_demo.Db.Store.Invariant.Users.{
  create_user-IsConsistent, replace_user-IsConsistent, update_user-IsConsistent,
  delete_user-IsConsistent,
}
use kube_extauth_demo.Db.Store.Invariant.Posts.{
  create_post-IsConsistent, replace_post-IsConsistent, delete_post-IsConsistent,
}
use kube_extauth_demo.Db.Store.Invariant.Comments.{
  create_comment-IsConsistent, update_comment-IsConsistent, delete_comment-IsConsistent,
}
use kube_extauth_demo.Db.Store.Users as UserRows
use kube_extauth_demo.Db.Store.Posts as PostRows
use kube_extauth_demo.Db.Store.Comments as CommentRows
use kube_extauth_demo.Db.Store.Maps.{maps}
use kube_extauth_demo.Db.Store.Maps.Stores.{
  create_user-maps, create_post-maps, create_comment-maps, replace_post-maps, update_users-maps,
  update_comments-maps,
}
use kube_extauth_demo.Db.Store.Maps.Deletes.{
  delete_user-maps, delete_post-maps, delete_comment-maps,
}
use kube_extauth_demo.Db.Store.Maps.Writes.{
  Write, create_user, replace_user, update_user, delete_user, create_post, replace_post,
  delete_post, create_comment, update_comment, delete_comment, execute, effect, run, replay,
}

execute-maps :
    (w : Write) (db : Database)
    → IsConsistent db.tables
    → maps (execute w db).1.tables ≡ effect w (execute w db).0 (maps db.tables)
unfolding execute effect UserRows.replace_user UserRows.update_user UserRows.delete_user
    PostRows.delete_post CommentRows.delete_comment CommentRows.update_comment
execute-maps (create_user arg) db c = create_user-maps arg db
execute-maps (replace_user arg) db c =
    update_users-maps (replace_user arg) (λ m. refl) db arg.id _ (λ old. refl)
execute-maps (update_user arg) db c =
    update_users-maps (update_user arg) (λ m. refl) db arg.id _ (λ old. refl)
execute-maps (delete_user id) db c = delete_user-maps id db c
execute-maps (create_post arg) db c = create_post-maps arg db
execute-maps (replace_post arg) db c = replace_post-maps arg db
execute-maps (delete_post id) db c = delete_post-maps id db c
execute-maps (create_comment arg) db c = create_comment-maps arg db
execute-maps (update_comment arg) db c =
    update_comments-maps (update_comment arg) (λ m. refl) db arg.id _ (λ old. refl)
execute-maps (delete_comment id) db c = delete_comment-maps id db c

map_ok-keeps {ℓ κ} :
    {A : Type ℓ} {B : Type κ} (f : A → B) (r : Result A × Database)
    → IsConsistent r.1.tables
    → IsConsistent (map_ok f r).1.tables
map_ok-keeps f (ok a, db) c = c
map_ok-keeps f (err e, db) c = c

execute-IsConsistent :
    (w : Write) (db : Database) → IsConsistent db.tables → IsConsistent (execute w db).1.tables
unfolding execute
execute-IsConsistent (create_user arg) db c = map_ok-keeps _ _ (create_user-IsConsistent arg db c)
execute-IsConsistent (replace_user arg) db c = map_ok-keeps _ _ (replace_user-IsConsistent arg db c)
execute-IsConsistent (update_user arg) db c = map_ok-keeps _ _ (update_user-IsConsistent arg db c)
execute-IsConsistent (delete_user id) db c = map_ok-keeps _ _ (delete_user-IsConsistent _ db c)
execute-IsConsistent (create_post arg) db c = map_ok-keeps _ _ (create_post-IsConsistent arg db c)
execute-IsConsistent (replace_post arg) db c = map_ok-keeps _ _ (replace_post-IsConsistent arg db c)
execute-IsConsistent (delete_post id) db c = map_ok-keeps _ _ (delete_post-IsConsistent _ db c)
execute-IsConsistent (create_comment arg) db c =
    map_ok-keeps _ _ (create_comment-IsConsistent arg db c)
execute-IsConsistent (update_comment arg) db c =
    map_ok-keeps _ _ (update_comment-IsConsistent arg db c)
execute-IsConsistent (delete_comment id) db c =
    map_ok-keeps _ _ (delete_comment-IsConsistent _ db c)

-- If the tables meet the constraints of the schema, any sequence of statements that write turns the
-- maps from ids to users, posts and comments into those that its outcomes describe: a row that is
-- returned is from then on the one with its id, a statement that fails changes nothing, and a row
-- that is deleted goes, a user with their posts and comments and the comments on their posts, a post
-- with its comments, and nothing else changes.
pub run-replay :
    (ws : List Write) (db : Database)
    → IsConsistent db.tables
    → maps (run ws db).1.tables ≡ replay (run ws db).0 (maps db.tables)
unfolding run replay
run-replay [] db c = refl
run-replay (w ∷ ws) db c =
    run-replay ws (execute w db).1 (execute-IsConsistent w db c)
    ∙ ap (replay (run ws (execute w db).1).0) (execute-maps w db c)

-- Tables that meet the constraints of the schema do so after any sequence of statements that write,
-- and so however the statements of several requests are interleaved: emails and slugs stay unique,
-- and every reference is to a row that is there.
pub run-IsConsistent :
    (ws : List Write) (db : Database) → IsConsistent db.tables → IsConsistent (run ws db).1.tables
unfolding run
run-IsConsistent [] db c = c
run-IsConsistent (w ∷ ws) db c = run-IsConsistent ws (execute w db).1 (execute-IsConsistent w db c)
