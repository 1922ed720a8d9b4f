-- ===== src/Db/Queries/Interleaved.antt =====
-- A database that others use too: what they do comes between the statements of a request.
use kube_extauth_demo.Prelude.{ℕ, suc}
use kube_extauth_demo.Effect.{Exec}
use kube_extauth_demo.Effect.Keeps.{Keeps}
use kube_extauth_demo.Db.Queries.{Queries}
use kube_extauth_demo.Db.Queries.Keeps.{ReadsKeep, QueriesKeep}

module _ {S : Type 0} (others : ℕ → S → S) where
  -- `others n` is what has happened by the n-th statement since the one before.
  abbrev after_others : {A : Type 0} → Exec S A → Exec (S × ℕ) A
  after_others m (st, n) = let (result, after) = m (others n st) in (result, (after, suc n))

  after_others-Keeps :
      {P : S → Type 0} {A : Type 0} (m : Exec S A)
      → ((n : ℕ) (st : S) → P st → P (others n st))
      → Keeps P m
      → Keeps (λ s. P s.0) (after_others m)
  after_others-Keeps m kept km = record { at = λ (st, n) h. km.at (others n st) (kept n st h) }

module _ (q : Queries) (others : ℕ → Queries.State q → Queries.State q) where
  -- The queries of a database with others on it, and the number of statements so far.
  abbrev pub interleaved : Queries
  interleaved = record {
    State = Queries.State q × ℕ;
    count_comments = λ arg. after_others others (q.count_comments arg);
    count_posts = λ arg. after_others others (q.count_posts arg);
    count_users = after_others others q.count_users;
    create_comment = λ arg. after_others others (q.create_comment arg);
    create_post = λ arg. after_others others (q.create_post arg);
    create_user = λ arg. after_others others (q.create_user arg);
    delete_comment = λ arg. after_others others (q.delete_comment arg);
    delete_post = λ arg. after_others others (q.delete_post arg);
    delete_user = λ arg. after_others others (q.delete_user arg);
    get_comment = λ arg. after_others others (q.get_comment arg);
    get_post = λ arg. after_others others (q.get_post arg);
    get_role = λ arg. after_others others (q.get_role arg);
    get_role_by_slug = λ arg. after_others others (q.get_role_by_slug arg);
    get_user = λ arg. after_others others (q.get_user arg);
    get_user_by_email = λ arg. after_others others (q.get_user_by_email arg);
    list_comments = λ arg. after_others others (q.list_comments arg);
    list_posts = λ arg. after_others others (q.list_posts arg);
    list_roles = after_others others q.list_roles;
    list_users = λ arg. after_others others (q.list_users arg);
    replace_post = λ arg. after_others others (q.replace_post arg);
    replace_user = λ arg. after_others others (q.replace_user arg);
    update_comment = λ arg. after_others others (q.update_comment arg);
    update_user = λ arg. after_others others (q.update_user arg);
  }

  module _ {P : Queries.State q → Type 0}
      (kept : (n : ℕ) (st : Queries.State q) → P st → P (others n st)) where
    reads-interleaved : ReadsKeep q P → ReadsKeep interleaved (λ s. P s.0)
    reads-interleaved k = record {
      count_comments =
          λ arg. after_others-Keeps others (q.count_comments arg) kept (k.count_comments arg);
      count_posts = λ arg. after_others-Keeps others (q.count_posts arg) kept (k.count_posts arg);
      count_users = after_others-Keeps others q.count_users kept k.count_users;
      get_comment = λ arg. after_others-Keeps others (q.get_comment arg) kept (k.get_comment arg);
      get_post = λ arg. after_others-Keeps others (q.get_post arg) kept (k.get_post arg);
      get_role = λ arg. after_others-Keeps others (q.get_role arg) kept (k.get_role arg);
      get_role_by_slug =
          λ arg. after_others-Keeps others (q.get_role_by_slug arg) kept (k.get_role_by_slug arg);
      get_user = λ arg. after_others-Keeps others (q.get_user arg) kept (k.get_user arg);
      get_user_by_email =
          λ arg. after_others-Keeps others (q.get_user_by_email arg) kept (k.get_user_by_email arg);
      list_comments =
          λ arg. after_others-Keeps others (q.list_comments arg) kept (k.list_comments arg);
      list_posts = λ arg. after_others-Keeps others (q.list_posts arg) kept (k.list_posts arg);
      list_roles = after_others-Keeps others q.list_roles kept k.list_roles;
      list_users = λ arg. after_others-Keeps others (q.list_users arg) kept (k.list_users arg);
    }

    -- What every query keeps, and the others too, is kept by every query of such a database.
    pub interleaved-QueriesKeep : QueriesKeep q P → QueriesKeep interleaved (λ s. P s.0)
    interleaved-QueriesKeep k = record {
      reads = reads-interleaved k.reads;
      create_comment =
          λ arg. after_others-Keeps others (q.create_comment arg) kept (k.create_comment arg);
      create_post = λ arg. after_others-Keeps others (q.create_post arg) kept (k.create_post arg);
      create_user = λ arg. after_others-Keeps others (q.create_user arg) kept (k.create_user arg);
      delete_comment =
          λ arg. after_others-Keeps others (q.delete_comment arg) kept (k.delete_comment arg);
      delete_post = λ arg. after_others-Keeps others (q.delete_post arg) kept (k.delete_post arg);
      delete_user = λ arg. after_others-Keeps others (q.delete_user arg) kept (k.delete_user arg);
      replace_post =
          λ arg. after_others-Keeps others (q.replace_post arg) kept (k.replace_post arg);
      replace_user =
          λ arg. after_others-Keeps others (q.replace_user arg) kept (k.replace_user arg);
      update_comment =
          λ arg. after_others-Keeps others (q.update_comment arg) kept (k.update_comment arg);
      update_user = λ arg. after_others-Keeps others (q.update_user arg) kept (k.update_user arg);
    }
