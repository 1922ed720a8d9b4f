-- ===== src/Tests/Process.antt =====
-- The process: schedules of the two servers, and starts of the program.
use kube_extauth_demo.Prelude.{
  ℕ, ◌+◌, true, some, none, String, List, [], ◌∷◌, ◌≡◌, refl, ◌⊎◌, inr, Option, false,
  if◌then◌else◌, ◌==◌, ◌||◌, string_eq, arith,
}
use kube_extauth_demo.Prelude.Text.{cut_prefix}
use kube_extauth_demo.Effect.{Err, other, ok, err, pure, lift, check}
use kube_extauth_demo.Db.Migrations.{Migrator, normalize_url, run_migrations}
use kube_extauth_demo.Db.Migrations.Laws.{run_migrations-same_scheme}
use kube_extauth_demo.Process.Server.{
  Name, failure, reporting, finished, System, initial, goroutine, select_done, select_error,
  shutting, signal, shutdown, drained, OtherStep, serve_returns, report, Reach, start, caller_step,
  other_step, returned,
}
use kube_extauth_demo.Auth
use kube_extauth_demo.Config
use kube_extauth_demo.Config.{Config}
use kube_extauth_demo.Process.Main.{
  config_file, help, exited, Platform, env_or, emit, deferred, run_server, run_pool, run_notified,
  migrate, run_with, flags, run, main,
}
use kube_extauth_demo.Process.Main.Success.{Served, main-stopped}
use kube_extauth_demo.Tests.Fixtures.{toy_crypto}
use kube_extauth_demo.Process.Server.Invariant.{Explains, Reach-returned, Reach-can_report}
use kube_extauth_demo.Process.Server.Progress.{CallerRun, Reach-terminates}

abbrev busy : Err
busy = other "address already in use"

abbrev Busy : Name → Err → Type 0
Busy n e = e ≡ busy

-- The public server cannot listen.
abbrev failed : System
failed = record initial { public = reporting busy }

abbrev reported : System
reported = record initial { public = finished; errors = busy ∷ [] }

abbrev ended : System
ended = record initial {
  caller = returned (some busy);
  public = finished;
  closed_public = true;
  closed_health = true;
}

to_failed : Reach Busy initial 0 failed
to_failed = other_step start (serve_returns Name.public (failure busy) refl refl refl)

to_reported : Reach Busy initial 0 reported
to_reported = other_step to_failed (report Name.public refl (omega arith) refl)

to_ended : Reach Busy initial 5 ended
to_ended =
    caller_step
      (caller_step
        (caller_step
          (caller_step (caller_step to_reported (select_error refl refl refl)) (shutdown refl refl))
          (drained refl refl))
        (shutdown refl refl))
      (drained refl refl)

Reach-returned_example :
    Explains Busy (some busy) ended × (ended.closed_public ≡ true) × (ended.closed_health ≡ true)
Reach-returned_example = Reach-returned Busy to_ended refl

Reach-can_report_example :
    (t : System) × OtherStep Busy failed t × (goroutine Name.public t ≡ finished)
Reach-can_report_example = Reach-can_report Busy Name.public to_failed refl

abbrev chosen : System
chosen = record reported { caller = shutting Name.public (some busy); errors = [] }

Reach-terminates_example :
    (n : ℕ) × (0 + 1 + n ≡ 5)
    × (u : System) × (run_err : Option Err) × CallerRun chosen n u
    × (u.caller ≡ returned run_err)
Reach-terminates_example =
    Reach-terminates Busy to_reported (inr (omega arith))
      (caller_step start (select_error refl refl refl))

-- The process is told to stop.
abbrev stopped : System
stopped = record initial {
  caller = returned none;
  closed_public = true;
  closed_health = true;
  cancelled = true;
}

to_stopped : Reach Busy initial 5 stopped
to_stopped =
    caller_step
      (caller_step
        (caller_step
          (caller_step (caller_step (other_step start (signal refl)) (select_done refl refl refl))
            (shutdown refl refl))
          (drained refl refl))
        (shutdown refl refl))
      (drained refl refl)

abbrev migrator : Migrator (List String)
migrator = record {
  Source = Unit;
  Migrate = String;
  new_source = ok tt;
  new_with_source_instance = λ source url done. (ok url, done);
  up = λ instance_ done. (ok tt, instance_ ∷ done);
  is_no_change = λ e. false;
}

run_migrations-same_scheme_example :
    run_migrations migrator "postgresql://db/x" [] ≡ run_migrations migrator "postgres://db/x" []
run_migrations-same_scheme_example = run_migrations-same_scheme migrator "db/x" []

abbrev settings : Config
settings = record {
  database = record { url = "postgres://db/x" };
  jwt = record { private_key_file = "key.pem"; public_key_file = "" };
  http = record { health = ":8081"; public = ":8080" };
}

-- The file is the one of the environment.
abbrev platform : Platform toy_crypto
platform = record {
  getenv = λ key. if key == "CONFIG_FILE" then "app.yaml" else "";
  parse_flags = λ default. config_file default;
  read_file =
      λ path. if path == "app.yaml" || path == "key.pem" then ok path else err (other "none");
  unmarshal = λ raw. ok settings;
  quote = λ s. s;
  parse_key = λ pem. ok pem;
  migrator = record {
    Source = Unit;
    Migrate = Unit;
    new_source = ok tt;
    new_with_source_instance = λ source url s. (ok tt, s);
    up = λ instance_ s. (ok tt, s);
    is_no_change = λ e. false;
  };
  new_pool = λ url. ok tt;
  server_run = λ public health. none;
}

main-stopped_example :
    ((flags toy_crypto platform ≡ help) × (run toy_crypto platform [] ≡ (exited 0, [])))
    ⊎ ((path : String) × (flags toy_crypto platform ≡ config_file path)
        × Served toy_crypto platform Busy path)
unfolding main run run_with migrate env_or Config.load Config.validate run_migrations run_notified
    run_pool run_server Auth.load_private_key check lift pure emit deferred cut_prefix normalize_url
main-stopped_example =
    main-stopped toy_crypto platform Busy (λ public health. (5, stopped, to_stopped, refl)) refl
