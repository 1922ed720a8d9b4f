-- ===== src/Db/Migrations.antt =====
-- sample-api/pkg/db/migrations.go: the migrations are applied by github.com/golang-migrate/migrate,
-- a parameter.
pub mod Laws
use kube_extauth_demo.Prelude.{String, ◌<>◌, Option, none, some, Bool, if◌then◌else◌}
use kube_extauth_demo.Prelude.Text.{cut_prefix}
use kube_extauth_demo.Effect.{Err, Result, ok, err, Exec, pure, raise, lift, check, ◌>>=◌}

-- `S` is the state of the world that the migrations change.
pub record Migrator (S : Type 0) : Type 1 where
  pub Source : Type 0
  pub Migrate : Type 0
  -- iofs.New(migrationFiles, "migrations")
  pub new_source : Result Source
  -- migrate.NewWithSourceInstance("iofs", source, url)
  pub new_with_source_instance : Source → String → Exec S Migrate
  pub up : Migrate → Exec S (Unit {0})
  -- errors.Is(err, migrate.ErrNoChange)
  pub is_no_change : Err → Bool

-- The `if` of RunMigrations.
unfoldable pub normalize_url : String → String
normalize_url url = elim (cut_prefix url "postgresql://") [
  | none ↦ url
  | some rest ↦ "postgres://" <> rest
]

unfoldable pub run_migrations : {S : Type 0} → Migrator S → String → Exec S (Unit {0})
unfolding normalize_url
run_migrations m database_url = do
  source ← lift m.new_source
  instance_ ← m.new_with_source_instance source (normalize_url database_url)
  check (m.up instance_) (λ e. if m.is_no_change e then pure tt else raise e) (λ _. pure tt)
