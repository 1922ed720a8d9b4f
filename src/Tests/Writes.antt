-- ===== src/Tests/Writes.antt =====
-- A sequence of statements that write, over the small database.
use kube_extauth_demo.Prelude.{List, [], ◌∷◌, ◌≡◌}
use kube_extauth_demo.Db.Store.Maps.{maps}
use kube_extauth_demo.Db.Store.Maps.Writes.{
  Write, create_comment, update_comment, delete_user, run, replay,
}
use kube_extauth_demo.Db.Store.Maps.Refinement.{run-replay}
use kube_extauth_demo.Tests.Fixtures.{id, database}
use kube_extauth_demo.Tests.Database.{tables-IsConsistent}

-- Ada comments, Bob changes his comment, the comment on a post that is not there fails, and Ada goes.
abbrev pub day : List Write
day =
    create_comment (record { post_id = id 20; author_id = id 7; content = "thanks" })
    ∷ update_comment (record { id = id 30; content = "very nice" })
    ∷ create_comment (record { post_id = id 21; author_id = id 8; content = "where?" })
    ∷ delete_user 7
    ∷ []

run-replay_example :
    maps (run day database).1.tables ≡ replay (run day database).0 (maps database.tables)
run-replay_example = run-replay day database tables-IsConsistent
