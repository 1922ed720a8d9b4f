-- ===== src/Process/Main.antt =====
-- sample-api/main.go: what `run` does, in order, and the calls that it defers.
pub mod Laws
pub mod Success
pub mod Traces
use kube_extauth_demo.Prelude.{
  ℕ, String, ◌==◌, string_eq, Option, none, some, List, [], ◌∷◌, ◌++◌, if◌then◌else◌,
}
use kube_extauth_demo.Effect.{Err, panic, Result, ok, err, Exec, lift, ◌>>=◌}
use kube_extauth_demo.Effect.Results.{embed}
use kube_extauth_demo.Config
use kube_extauth_demo.Config.{Config}
use kube_extauth_demo.Auth
use kube_extauth_demo.Db.Migrations.{Migrator, run_migrations}
use kube_extauth_demo.External.{Crypto}

-- The effects of `run` that others see, each with its arguments.
pub data Event : Type 0 where
  -- the call of Up on an instance that was made with the URL
  migrating : String → Event
  -- signal.NotifyContext, and the call of `stop`
  notifying : Event
  stopped : Event
  -- pgxpool.New, and pool.Close
  opened : String → Event
  closed : Event
  -- server.Run, with the addresses
  served : String → String → Event

-- What flag.Parse comes to with flag.ExitOnError: the value of the flag -config, an exit after the
-- usage was asked for by -h or -help, or an exit after a flag that is not known.
pub data Flags : Type 0 where
  config_file : String → Flags
  help bad_flag : Flags

-- What `run` calls outside of the repository, and what server.Run returns (none for nil).
pub record Platform (c : Crypto) : Type 1 where
  pub getenv : String → String
  -- flag.Parse, given the default of the flag -config
  pub parse_flags : String → Flags
  pub read_file : String → Result String
  pub unmarshal : String → Result Config
  pub quote : String → String
  pub parse_key : String → Result c.PrivateKey
  pub migrator : Migrator (Unit {0})
  pub new_pool : String → Result (Unit {0})
  pub server_run : String → String → Option Err

abbrev pub default_config_path : String
default_config_path = "/etc/sample-api/config.yaml"

unfoldable pub env_or : (String → String) → String → String → String
env_or getenv key fallback = if getenv key == "" then fallback else getenv key

-- The events so far, the latest last.
abbrev pub Trace : Type 0
Trace = List Event

unfoldable pub emit : Event → Exec Trace (Unit {0})
emit e trace = (ok tt, trace ++ (e ∷ []))

-- `defer f(); m`: the deferred call is made however `m` ends.
unfoldable pub deferred : Event → Exec Trace (Unit {0}) → Exec Trace (Unit {0})
deferred e m trace = let (r, after) = m trace in (r, after ++ (e ∷ []))

abbrev pub result_of : Option Err → Result (Unit {0})
result_of none = ok tt
result_of (some e) = err e

-- The migrator with its calls of Up in the trace.
abbrev pub traced : Migrator (Unit {0}) → Migrator Trace
traced m = record {
  Source = m.Source;
  Migrate = m.Migrate × String;
  new_source = m.new_source;
  new_with_source_instance = λ source url trace.
      (embed (λ instance_. (instance_, url)) (m.new_with_source_instance source url tt).0, trace);
  up = λ (instance_, url) trace. ((m.up instance_ tt).0, trace ++ (migrating url ∷ []));
  is_no_change = m.is_no_change;
}

-- How `run` ends: it returns, or flag.Parse exits the process.
pub data Outcome : Type 0 where
  finished : Result (Unit {0}) → Outcome
  exited : ℕ → Outcome

-- The exit status of the process: log.Fatalf exits with 1, after what `run` deferred, and a panic
-- with 2.
abbrev pub exit_status : Outcome → ℕ
exit_status (exited status) = status
exit_status (finished (ok _)) = 0
exit_status (finished (err (panic m))) = 2
exit_status (finished (err e)) = 1

module _ (c : Crypto) (p : Platform c) where
  open p use {
    getenv, parse_flags, read_file, unmarshal, quote, parse_key, migrator, new_pool, server_run,
  }

  -- `run` from the call of server.Run on.
  unfoldable pub run_server : Config → Exec Trace (Unit {0})
  run_server cfg = do
    _ ← emit (served cfg.http.public cfg.http.health)
    lift (result_of (server_run cfg.http.public cfg.http.health))

  -- `run` from the end of pgxpool.New on.
  unfoldable pub run_pool : Config → Exec Trace (Unit {0})
  run_pool cfg = do
    key ← lift (Auth.load_private_key c read_file parse_key quote cfg.jwt.private_key_file)
    run_server cfg

  -- `run` from the end of signal.NotifyContext on.
  unfoldable pub run_notified : Config → Exec Trace (Unit {0})
  run_notified cfg = do
    _ ← lift (new_pool cfg.database.url)
    _ ← emit (opened cfg.database.url)
    deferred closed (run_pool cfg)

  -- RunMigrations, as `run` calls it.
  unfoldable pub migrate : Config → Exec Trace (Unit {0})
  migrate cfg = run_migrations (traced migrator) cfg.database.url

  -- `run` from the end of flag.Parse on.
  unfoldable pub run_with : String → Exec Trace (Unit {0})
  run_with config_path = do
    cfg ← lift (Config.load read_file unmarshal quote config_path)
    _ ← migrate cfg
    _ ← emit notifying
    deferred stopped (run_notified cfg)

  abbrev pub flags : Flags
  flags = parse_flags (env_or getenv "CONFIG_FILE" default_config_path)

  abbrev pub after_parse : Flags → Trace → Outcome × Trace
  after_parse (config_file path) trace =
      let (result, after) = run_with path trace in (finished result, after)
  after_parse help trace = (exited 0, trace)
  after_parse bad_flag trace = (exited 2, trace)

  unfoldable pub run : Trace → Outcome × Trace
  run trace = after_parse flags trace

  unfoldable pub main : ℕ
  unfolding run
  main = exit_status (run []).0
