-- ===== src/Process/Main/Laws.antt =====
-- What `run` of sample-api/main.go leaves behind, however it ends.
use kube_extauth_demo.Prelude.{◌≡◌, refl, ◌⊎◌, inl, inr, [], ◌∷◌, String, string_eq}
use kube_extauth_demo.Effect.{Err, Result, err}
use kube_extauth_demo.Config
use kube_extauth_demo.Config.{Config}
use kube_extauth_demo.External.{Crypto}
use kube_extauth_demo.Process.Main.{
  migrating, notifying, stopped, opened, closed, served, Flags, config_file, help, bad_flag,
  Platform, Trace, Outcome, finished, exited, migrate, flags,
}
use kube_extauth_demo.Process.Main.Traces.{migrated_url}

pub Flags-cases :
    (f : Flags) → (f ≡ help) ⊎ (f ≡ bad_flag) ⊎ ((path : String) × (f ≡ config_file path))
Flags-cases (config_file path) = inr (inr (path, refl))
Flags-cases help = inl refl
Flags-cases bad_flag = inr (inl refl)

module _ (c : Crypto) (p : Platform c) where
  abbrev pub loaded : String → Result Config
  loaded path = Config.load p.read_file p.unmarshal p.quote path

  -- The ends of `run` after the migrations.
  abbrev pub Ends : Config → Trace → Type 0
  Ends cfg t =
      (t ≡ migrating (migrated_url c p cfg) ∷ notifying ∷ stopped ∷ [])
      ⊎ (t
          ≡ migrating (migrated_url c p cfg)
            ∷ notifying
            ∷ opened cfg.database.url
            ∷ closed
            ∷ stopped
            ∷ [])
      ⊎ (t
          ≡ migrating (migrated_url c p cfg)
            ∷ notifying
            ∷ opened cfg.database.url
            ∷ served cfg.http.public cfg.http.health
            ∷ closed
            ∷ stopped
            ∷ [])

  -- The ends of `run` before that: flags that end the process, a configuration that does not load,
  -- and migrations that fail, before or in the call of Up.
  abbrev pub Refused : Outcome × Trace → Type 0
  Refused end =
      ((flags c p ≡ help) × (end ≡ (exited 0, [])))
      ⊎ ((flags c p ≡ bad_flag) × (end ≡ (exited 2, [])))
      ⊎ ((path : String) × (e : Err) × (flags c p ≡ config_file path)
          × (loaded path ≡ err e)
          × (end ≡ (finished (err e), [])))

  abbrev pub Unmigrated : Config → Outcome × Trace → Type 0
  Unmigrated cfg end =
      (e : Err) × ((migrate c p cfg []).0 ≡ err e)
      × (end.0 ≡ finished (err e))
      × ((end.1 ≡ []) ⊎ (end.1 ≡ migrating (migrated_url c p cfg) ∷ []))
