-- ===== src/Process/Server/Progress.antt =====
-- How far the caller of `Run` in sample-api/pkg/server/server.go is, what it waits for, and that it
-- returns.
use kube_extauth_demo.Prelude.{
  ℕ, zero, suc, ◌+◌, ◌≤◌, ◌<◌, true, Option, List, [], ◌∷◌, ◌≡◌, refl, sym, subst, ◌⊎◌, inl, inr,
  arith,
}
use kube_extauth_demo.Prelude.Lists.{length, length-snoc}
use kube_extauth_demo.Effect.{Err}
use kube_extauth_demo.Process.Server.{
  Name, Caller, selecting, shutting, draining, returned, System, initial, CallerStep, select_done,
  select_error, shutdown, drained, OtherStep, serve_returns, report, signal, Reach, start,
  caller_step, other_step,
}

-- How many steps the caller has left.
abbrev pub rank : Caller → ℕ
rank selecting = 5
rank (shutting Name.public e) = 4
rank (draining Name.public e) = 3
rank (shutting Name.health e) = 2
rank (draining Name.health e) = 1
rank (returned e) = 0

CallerStep-rank : (s t : System) → CallerStep s t → rank s.caller ≡ suc (rank t.caller)
CallerStep-rank s t (select_done at c e) = ground arith
CallerStep-rank s t (select_error at q e) = ground arith
CallerStep-rank s t (shutdown at e) = ground arith
CallerStep-rank s t (drained at e) = ground arith

-- Nothing but the caller moves the caller.
caller-OtherStep :
    {Fails : Name → Err → Type 0} (s t : System) → OtherStep Fails s t → t.caller ≡ s.caller
caller-OtherStep s t (serve_returns Name.public r g c e) = ground arith
caller-OtherStep s t (serve_returns Name.health r g c e) = ground arith
caller-OtherStep s t (report Name.public g c e) = ground arith
caller-OtherStep s t (report Name.health g c e) = ground arith
caller-OtherStep s t (signal e) = ground arith

Reach-rank :
    {Fails : Name → Err → Type 0} {s : System} {k : ℕ} {t : System}
    → Reach Fails s k t
    → k + rank t.caller ≡ rank s.caller
Reach-rank start = omega arith
Reach-rank (caller_step {t = t} {u = u} r st) = omega (arith, Reach-rank r, CallerStep-rank t u st)
Reach-rank (other_step {t = t} {u = u} r st) = rw (caller-OtherStep t u st) (Reach-rank r)

rank-zero : (c : Caller) → rank c ≡ 0 → (run_err : Option Err) × (c ≡ returned run_err)
rank-zero selecting h = absurd (omega arith)
rank-zero (shutting Name.public e) h = absurd (omega arith)
rank-zero (draining Name.public e) h = absurd (omega arith)
rank-zero (shutting Name.health e) h = absurd (omega arith)
rank-zero (draining Name.health e) h = absurd (omega arith)
rank-zero (returned e) h = (e, refl)

-- What the caller waits for has come: a signal, or an error in the channel.
abbrev pub IsAwake : Caller → System → Type 0
IsAwake selecting s = (s.cancelled ≡ true) ⊎ (0 < length s.errors)
IsAwake _ s = Unit

CallerStep-IsAwake : (s t : System) → CallerStep s t → IsAwake t.caller t
CallerStep-IsAwake s t (select_done at c e) = ground arith
CallerStep-IsAwake s t (select_error at q e) = ground arith
CallerStep-IsAwake s t (shutdown {n = Name.public} at e) = ground arith
CallerStep-IsAwake s t (shutdown {n = Name.health} at e) = ground arith
CallerStep-IsAwake s t (drained {n = Name.public} at e) = ground arith
CallerStep-IsAwake s t (drained {n = Name.health} at e) = ground arith

IsAwake-mono :
    (c : Caller) (s t : System)
    → (s.cancelled ≡ true → t.cancelled ≡ true)
    → length s.errors ≤ length t.errors
    → IsAwake c s
    → IsAwake c t
IsAwake-mono selecting s t keep more (inl c) = inl (keep c)
IsAwake-mono selecting s t keep more (inr q) = inr (omega arith)
IsAwake-mono (shutting n e) s t keep more a = tt
IsAwake-mono (draining n e) s t keep more a = tt
IsAwake-mono (returned e) s t keep more a = tt

IsAwake-OtherStep :
    {Fails : Name → Err → Type 0} (s t : System)
    → OtherStep Fails s t
    → IsAwake s.caller s
    → IsAwake s.caller t
IsAwake-OtherStep s t (serve_returns Name.public r g c e) a =
    IsAwake-mono s.caller s t (λ h. ground arith) (ground arith) a
IsAwake-OtherStep s t (serve_returns Name.health r g c e) a =
    IsAwake-mono s.caller s t (λ h. ground arith) (ground arith) a
IsAwake-OtherStep s t (report Name.public {e = x} g c e) a =
    IsAwake-mono s.caller s t (λ h. ground arith) (ground (arith, length-snoc s.errors x)) a
IsAwake-OtherStep s t (report Name.health {e = x} g c e) a =
    IsAwake-mono s.caller s t (λ h. ground arith) (ground (arith, length-snoc s.errors x)) a
IsAwake-OtherStep s t (signal e) a = IsAwake-mono s.caller s t (λ h. ground arith) (ground arith) a

Reach-IsAwake :
    {Fails : Name → Err → Type 0} {s : System} {k : ℕ} {t : System}
    → IsAwake s.caller s
    → Reach Fails s k t
    → IsAwake t.caller t
Reach-IsAwake awake start = awake
Reach-IsAwake awake (caller_step {t = t} {u = u} r st) = CallerStep-IsAwake t u st
Reach-IsAwake awake (other_step {t = t} {u = u} r st) =
    subst (λ c. IsAwake c u) (sym (caller-OtherStep t u st))
      (IsAwake-OtherStep t u st (Reach-IsAwake awake r))

first : (xs : List Err) → 0 < length xs → (x : Err) × (rest : List Err) × (xs ≡ x ∷ rest)
first [] h = absurd (omega arith)
first (x ∷ rest) h = (x, rest, refl)

move :
    (c : Caller) (t : System)
    → t.caller ≡ c
    → IsAwake c t
    → ((run_err : Option Err) × (t.caller ≡ returned run_err)) ⊎ ((u : System) × CallerStep t u)
move selecting t at (inl c) = inr (_, select_done at c refl)
move selecting t at (inr q) = let (x, rest, e) = first t.errors q in inr (_, select_error at e refl)
move (shutting n e) t at a = inr (_, shutdown at refl)
move (draining n e) t at a = inr (_, drained at refl)
move (returned e) t at a = inl (e, at)

-- Steps of the caller alone, from one state to another.
pub data CallerRun : System → ℕ → System → Type 0 where
  done : {s : System} → CallerRun s 0 s
  step : {n : ℕ} {s t u : System} → CallerStep s t → CallerRun t n u → CallerRun s (suc n) u

-- An awake caller returns on its own.
runs :
    (n : ℕ) (s : System)
    → rank s.caller ≡ n
    → IsAwake s.caller s
    → (u : System) × (run_err : Option Err) × CallerRun s n u × (u.caller ≡ returned run_err)
runs zero s h awake = let (run_err, at) = rank-zero s.caller h in (s, run_err, done, at)
runs (suc n) s h awake = elim (move s.caller s refl awake) [
  | inl (run_err, at) ↦ absurd (ground arith)
  | inr (t, st) ↦
      let closer : rank t.caller ≡ n = omega (arith, CallerStep-rank s t st) in
      let (u, run_err, rest, at) = runs n t closer (CallerStep-IsAwake s t st) in
      (u, run_err, step st rest, at)
]

-- Once a signal or an error has come, `Run` terminates: in every state that any schedule leads to from
-- then on the caller can go on alone until it returns, and by then it has taken five steps in all.
pub Reach-terminates :
    (Fails : Name → Err → Type 0) {k j : ℕ} {s t : System}
    → Reach Fails initial k s
    → IsAwake s.caller s
    → Reach Fails s j t
    → (n : ℕ) × (k + j + n ≡ 5)
      × (u : System) × (run_err : Option Err) × CallerRun t n u
      × (u.caller ≡ returned run_err)
Reach-terminates Fails {k} {j} {s} {t} before awake after =
    let (u, run_err, run, at) = runs (rank t.caller) t refl (Reach-IsAwake awake after) in
    let first = Reach-rank before in
    let then_ = Reach-rank after in (rank t.caller, omega arith, u, run_err, run, at)
