-- ===== src/Process/Main/Success.antt =====
-- What holds when sample-api/main.go exits with status 0.
use kube_extauth_demo.Prelude.{
  ℕ, String, ◌≡◌, refl, sym, ap, ◌∙◌, ◌⊎◌, inl, inr, true, Option, none, some, [], arith,
}
use kube_extauth_demo.Effect.{
  Err, panic, no_rows, pg_error, other, wrapped, Result, ok, err, lift, check, ◌>>=◌,
}
use kube_extauth_demo.Effect.Outcomes.{Result-cases, bind_err, bind_ok, bind_lift-eq-ok}
use kube_extauth_demo.Config.{Config}
use kube_extauth_demo.Config.Laws.{IsComplete, load_iff}
use kube_extauth_demo.Auth
use kube_extauth_demo.External.{Crypto}
use kube_extauth_demo.Process.Main.{
  notifying, stopped, config_file, help, Platform, Trace, finished, exited, emit, deferred,
  result_of, run_server, run_pool, run_notified, migrate, run_with, flags, run, exit_status, main,
}
use kube_extauth_demo.Process.Main.Laws.{Flags-cases, loaded}
use kube_extauth_demo.Process.Server.{Name, System, initial, Reach, returned}
use kube_extauth_demo.Process.Server.Invariant.{Reach-returned}

-- `server_run` has the outcome of a schedule of server.Run.
abbrev pub IsScheduled : {c : Crypto} → Platform c → (Name → Err → Type 0) → Type 0
IsScheduled p Fails =
    (public health : String)
    → (k : ℕ) × (s : System) × Reach Fails initial k s
      × (s.caller ≡ returned (p.server_run public health))

module _ (c : Crypto) (p : Platform c) where
  result_of-eq-ok : (o : Option Err) → result_of o ≡ ok tt → o ≡ none
  result_of-eq-ok none h = refl
  result_of-eq-ok (some e) h = cc

  run_pool-eq-ok :
      (cfg : Config) (t : Trace)
      → (run_pool c p cfg t).0 ≡ ok tt
      → p.server_run cfg.http.public cfg.http.health ≡ none
  unfolding run_pool run_server check lift emit
  run_pool-eq-ok cfg t h =
      let (key, _, ran) =
        bind_lift-eq-ok
          (Auth.load_private_key c p.read_file p.parse_key p.quote cfg.jwt.private_key_file)
          (λ _. run_server c p cfg) t h in
      result_of-eq-ok (p.server_run cfg.http.public cfg.http.health) ran

  run_notified-eq-ok :
      (cfg : Config) (t : Trace)
      → (run_notified c p cfg t).0 ≡ ok tt
      → p.server_run cfg.http.public cfg.http.health ≡ none
  unfolding run_notified check lift emit deferred
  run_notified-eq-ok cfg t h =
      let (_, _, ran) = bind_lift-eq-ok (p.new_pool cfg.database.url) _ t h in
      run_pool-eq-ok cfg _ ran

  migrated-eq-ok :
      (cfg : Config) (t : Trace)
      → ((migrate c p cfg >>= λ _. emit notifying >>= λ _. deferred stopped (run_notified c p cfg))
          t).0
        ≡ ok tt
      → ((migrate c p cfg t).0 ≡ ok tt) × (p.server_run cfg.http.public cfg.http.health ≡ none)
  unfolding check emit deferred
  migrated-eq-ok cfg t h = elim (Result-cases (migrate c p cfg t).0) [
    | inr (e, bad) ↦
        let failed : err e ≡ ok tt = sym (ap (λ r. r.0) (bind_err (migrate c p cfg) _ t bad)) ∙ h in
        absurd cc
    | inl (_, done) ↦ (
      done,
      run_notified-eq-ok cfg _ (sym (ap (λ r. r.0) (bind_ok (migrate c p cfg) _ t done)) ∙ h),
    )
  ]

  run_with-eq-ok :
      (path : String)
      → (run_with c p path []).0 ≡ ok tt
      → (cfg : Config) × (loaded c p path ≡ ok cfg)
        × ((migrate c p cfg []).0 ≡ ok tt)
        × (p.server_run cfg.http.public cfg.http.health ≡ none)
  unfolding run_with
  run_with-eq-ok path h =
      let (cfg, good, ran) = bind_lift-eq-ok (loaded c p path) _ [] h in
      let (done, served) = migrated-eq-ok cfg [] ran in (cfg, good, done, served)

  -- The exit status 0 of the process.
  exit_status-eq-zero : (r : Result (Unit {0})) → exit_status (finished r) ≡ 0 → r ≡ ok tt
  exit_status-eq-zero (ok t) h = refl
  exit_status-eq-zero (err (panic m)) h = ground arith
  exit_status-eq-zero (err no_rows) h = ground arith
  exit_status-eq-zero (err (pg_error x)) h = ground arith
  exit_status-eq-zero (err (other m)) h = ground arith
  exit_status-eq-zero (err (wrapped m x)) h = ground arith

  main-eq-zero :
      main c p ≡ 0
      → ((flags c p ≡ help) × (run c p [] ≡ (exited 0, [])))
        ⊎ ((path : String) × (flags c p ≡ config_file path) × ((run_with c p path []).0 ≡ ok tt))
  unfolding main run
  main-eq-zero h = elim (Flags-cases (flags c p)) [
    | inl asked ↦ inl (asked, rw asked refl)
    | inr (inl bad) ↦ let two : 2 ≡ 0 = rw bad at h in absurd (omega (arith, two))
    | inr (inr (path, given)) ↦
        inr (path, given, exit_status-eq-zero (run_with c p path []).0 (rw given at h))
  ]

-- The configuration and the schedule of server.Run behind a start of the program that succeeds.
abbrev pub Served : (c : Crypto) → Platform c → (Name → Err → Type 0) → String → Type 0
Served c p Fails path =
    (cfg : Config) × (loaded c p path ≡ ok cfg)
    × IsComplete cfg
    × ((migrate c p cfg []).0 ≡ ok tt)
    × (p.server_run cfg.http.public cfg.http.health ≡ none)
    × (k : ℕ) × (s : System) × Reach Fails initial k s
    × (s.caller ≡ returned none)
    × (s.cancelled ≡ true)
    × (s.closed_public ≡ true)
    × (s.closed_health ≡ true)

-- If the program exits with status 0, then either flag.Parse was asked for the usage and `run` did
-- nothing, or the file of the flag -config was loaded, no setting that it needs was empty, the
-- migrations succeeded, and the two servers ran on the addresses of the configuration until the
-- process was told to stop, after which Shutdown was called on both, provided that the servers behave
-- as in some schedule of server.Run.
pub main-stopped :
    (c : Crypto) (p : Platform c) (Fails : Name → Err → Type 0)
    → IsScheduled p Fails
    → main c p ≡ 0
    → ((flags c p ≡ help) × (run c p [] ≡ (exited 0, [])))
      ⊎ ((path : String) × (flags c p ≡ config_file path) × Served c p Fails path)
main-stopped c p Fails scheduled h = elim (main-eq-zero c p h) [
  | inl asked ↦ inl asked
  | inr (path, given, ran) ↦
      let (cfg, good, done, served) = run_with-eq-ok c p path ran in
      let (k, s, r, at) = scheduled cfg.http.public cfg.http.health in
      let at_none = at ∙ ap returned served in
      let (told, closed_public, closed_health) = Reach-returned Fails r at_none in
      let (_, _, _, complete) = (load_iff p.read_file p.unmarshal p.quote _ cfg).0 good in
      inr (
        path,
        given,
        (cfg, good, complete, done, served, k, s, r, at_none, told, closed_public, closed_health),
      )
]
