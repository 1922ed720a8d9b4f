-- ===== src/Process/Main/Traces.antt =====
-- What each part of `run` of sample-api/main.go adds to the trace.
use kube_extauth_demo.Prelude.{
  ◌≡◌, refl, ap, ◌∙◌, ◌⊎◌, inl, inr, [], ◌∷◌, ◌++◌, String, string_eq, if◌then◌else◌, arith,
}
use kube_extauth_demo.Effect.{
  Err, no_rows, pg_error, other, wrapped, panic, Result, ok, err, Exec, lift, pure, raise,
  after_call, check,
}
use kube_extauth_demo.Effect.Outcomes.{Result-cases, bind_lift_err, bind_lift_ok, bind_err, bind_ok}
use kube_extauth_demo.Effect.Results.{embed}
use kube_extauth_demo.Config.{Config}
use kube_extauth_demo.Db.Migrations.{Migrator, normalize_url, run_migrations}
use kube_extauth_demo.Auth
use kube_extauth_demo.External.{Crypto}
use kube_extauth_demo.Process.Main.{
  migrating, opened, closed, served, Platform, Trace, emit, deferred, run_server, run_pool,
  run_notified, traced, migrate,
}

module _ (c : Crypto) (p : Platform c) where
  -- The URL that the migrations are applied at.
  abbrev pub migrated_url : Config → String
  migrated_url cfg = normalize_url cfg.database.url

  run_server-trace :
      (cfg : Config) (t : Trace)
      → (run_server c p cfg t).1 ≡ t ++ (served cfg.http.public cfg.http.health ∷ [])
  unfolding run_server check lift emit
  run_server-trace cfg t = refl

  pub run_pool-trace :
      (cfg : Config) (t : Trace)
      → ((run_pool c p cfg t).1 ≡ t)
        ⊎ ((run_pool c p cfg t).1 ≡ t ++ (served cfg.http.public cfg.http.health ∷ []))
  unfolding run_pool
  run_pool-trace cfg t =
      elim (Result-cases
        (Auth.load_private_key c p.read_file p.parse_key p.quote cfg.jwt.private_key_file)) [
          | inr (e, bad) ↦ inl (ap (λ r. r.1) (bind_lift_err _ t bad))
          | inl (key, good) ↦ inr (
              ap (λ r. r.1) (bind_lift_ok (λ _. run_server c p cfg) t good)
              ∙ run_server-trace cfg t)
        ]

  pub run_notified-trace :
      (cfg : Config) (t : Trace)
      → ((run_notified c p cfg t).1 ≡ t)
        ⊎ ((run_notified c p cfg t).1
            ≡ (run_pool c p cfg (t ++ (opened cfg.database.url ∷ []))).1 ++ (closed ∷ []))
  unfolding run_notified check lift emit deferred
  run_notified-trace cfg t = elim (Result-cases (p.new_pool cfg.database.url)) [
    | inr (e, bad) ↦ inl (ap (λ r. r.1) (bind_lift_err _ t bad))
    | inl (_, good) ↦ inr (ap (λ r. r.1) (bind_lift_ok _ t good))
  ]

  -- Nothing but the call of Up shows, and if that is not made, the migrations fail.
  after_up-trace :
      (m : Migrator (Unit {0})) (r : Result (Unit {0})) (t : Trace)
      → (after_call r (λ e. if m.is_no_change e then pure tt else raise e) (λ _. pure tt) t).1 ≡ t
  unfolding pure raise
  after_up-trace m (ok a) t = refl
  after_up-trace m (err (panic x)) t = refl
  after_up-trace m (err no_rows) t = ground arith
  after_up-trace m (err (pg_error x)) t = ground arith
  after_up-trace m (err (other x)) t = ground arith
  after_up-trace m (err (wrapped x e)) t = ground arith

  -- The call of NewWithSourceInstance, and RunMigrations after it.
  abbrev made_at : p.migrator.Source → String → Exec Trace (p.migrator.Migrate × String)
  made_at source url = (traced p.migrator).new_with_source_instance source url

  abbrev after_made : p.migrator.Migrate × String → Exec Trace (Unit {0})
  after_made instance_ =
      check ((traced p.migrator).up instance_)
        (λ e. if p.migrator.is_no_change e then pure tt else raise e) (λ _. pure tt)

  abbrev with_url : String → p.migrator.Migrate → p.migrator.Migrate × String
  with_url url instance_ = (instance_, url)

  pub migrate-trace :
      (cfg : Config)
      → ((e : Err) × (migrate c p cfg [] ≡ (err e, [])))
        ⊎ ((migrate c p cfg []).1 ≡ migrating (migrated_url cfg) ∷ [])
  unfolding migrate run_migrations check
  migrate-trace cfg = elim (Result-cases p.migrator.new_source) [
    | inr (e, bad) ↦ inl (e, bind_lift_err _ [] bad)
    | inl (source, good) ↦
        elim (Result-cases (p.migrator.new_with_source_instance source (migrated_url cfg) tt).0) [
          | inr (e, bad) ↦ inl (
            e,
            bind_lift_ok _ [] good
                ∙ bind_err (made_at source (migrated_url cfg)) after_made []
                    (ap (embed (with_url (migrated_url cfg))) bad),
          )
          | inl (instance_, made) ↦ inr (
              ap (λ r. r.1)
                (bind_lift_ok _ [] good
                  ∙ bind_ok (made_at source (migrated_url cfg)) after_made []
                      (ap (embed (with_url (migrated_url cfg))) made))
              ∙ after_up-trace p.migrator (p.migrator.up instance_ tt).0 _)
        ]
  ]
