-- ===== src/Process/Server/Invariant.antt =====
-- An invariant of the states of `Run` that a schedule leads to.
use kube_extauth_demo.Prelude.{ℕ, ◌+◌, ◌≤◌, true, Option, none, some, ◌≡◌, refl, subst, ◌⊎◌, arith}
use kube_extauth_demo.Prelude.Lists.{length, length-snoc}
use kube_extauth_demo.Prelude.Tables.{All}
use kube_extauth_demo.Prelude.Tables.Laws.{All-snoc}
use kube_extauth_demo.Effect.{Err}
use kube_extauth_demo.Process.Server.{
  Name, server_closed, failure, Goroutine, listening, reporting, finished, Caller, selecting,
  shutting, draining, returned, System, capacity, initial, goroutine, CallerStep, select_done,
  select_error, shutdown, drained, OtherStep, serve_returns, report, signal, Reach, start,
  caller_step, other_step,
}

-- How many errors a goroutine can still send.
abbrev pub unsent : Goroutine → ℕ
unsent listening = 1
unsent (reporting e) = 1
unsent finished = 0

module _ (Fails : Name → Err → Type 0) where
  -- Some server can fail with the error.
  abbrev pub Failure : Err → Type 0
  Failure e = Fails Name.public e ⊎ Fails Name.health e

  abbrev Reports : Goroutine → Type 0
  Reports (reporting e) = Failure e
  Reports _ = Unit

  -- What the caller's error says: none, that it was told to stop.
  abbrev pub Explains : Option Err → System → Type 0
  Explains none s = s.cancelled ≡ true
  Explains (some e) s = Failure e

  -- Where the caller is, what is closed, and what its error says.
  abbrev pub CallerInv : Caller → System → Type 0
  CallerInv selecting s = Unit
  CallerInv (shutting Name.public e) s = Explains e s
  CallerInv (draining Name.public e) s = Explains e s × (s.closed_public ≡ true)
  CallerInv (shutting Name.health e) s = Explains e s × (s.closed_public ≡ true)
  CallerInv (draining Name.health e) s =
      Explains e s × (s.closed_public ≡ true) × (s.closed_health ≡ true)
  CallerInv (returned e) s = Explains e s × (s.closed_public ≡ true) × (s.closed_health ≡ true)

  pub record Inv (s : System) : Type 0 where
    pub room : length s.errors + (unsent s.public + unsent s.health) ≤ capacity
    pub sent : All Failure s.errors
    pub public : Reports s.public
    pub health : Reports s.health
    pub caller : CallerInv s.caller s

  initial-Inv : Inv initial
  initial-Inv = record { room = omega arith; sent = tt; public = tt; health = tt; caller = tt }

  CallerStep-Inv : (s t : System) → CallerStep s t → Inv s → Inv t
  CallerStep-Inv s t (select_done at c e) i = ground arith
  CallerStep-Inv s t (select_error at q e) i = ground arith
  CallerStep-Inv s t (shutdown {n} {run_err} at e) i = ground arith
  CallerStep-Inv s t (drained {n} {run_err} at e) i = ground arith

  OtherStep-Inv : (s t : System) → OtherStep Fails s t → Inv s → Inv t
  OtherStep-Inv s t (serve_returns Name.public server_closed g c e) i = ground arith
  OtherStep-Inv s t (serve_returns Name.public (failure x) g c e) i = ground arith
  OtherStep-Inv s t (serve_returns Name.health server_closed g c e) i = ground arith
  OtherStep-Inv s t (serve_returns Name.health (failure x) g c e) i = ground arith
  OtherStep-Inv s t (report Name.public {e = x} g c e) i =
      ground (arith, length-snoc s.errors x, All-snoc Failure s.errors x i.sent)
  OtherStep-Inv s t (report Name.health {e = x} g c e) i =
      ground (arith, length-snoc s.errors x, All-snoc Failure s.errors x i.sent)
  OtherStep-Inv s t (signal e) i = ground arith

  Reach-Inv : {k : ℕ} {s : System} → Reach Fails initial k s → Inv s
  Reach-Inv start = initial-Inv
  Reach-Inv (caller_step {t = t} {u = u} r st) = CallerStep-Inv t u st (Reach-Inv r)
  Reach-Inv (other_step {t = t} {u = u} r st) = OtherStep-Inv t u st (Reach-Inv r)

-- When `Run` returns, Shutdown has been called on both servers. It returns nil only if it was told
-- to stop, and an error only if that is one with which ListenAndServe of a server can fail, whatever
-- the schedule.
pub Reach-returned :
    (Fails : Name → Err → Type 0) {k : ℕ} {s : System} {run_err : Option Err}
    → Reach Fails initial k s
    → s.caller ≡ returned run_err
    → Explains Fails run_err s × (s.closed_public ≡ true) × (s.closed_health ≡ true)
Reach-returned Fails {s = s} {run_err} r at =
    subst (λ c. CallerInv Fails c s) at (Reach-Inv Fails r).caller

-- A server that has failed can always report its error: the channel has room, whatever the
-- schedule, so no goroutine is left behind.
pub Reach-can_report :
    (Fails : Name → Err → Type 0) (n : Name) {k : ℕ} {s : System} {e : Err}
    → Reach Fails initial k s
    → goroutine n s ≡ reporting e
    → (t : System) × OtherStep Fails s t × (goroutine n t ≡ finished)
Reach-can_report Fails Name.public {s = s} {e} r g =
    (_, report Name.public g (ground (arith, (Reach-Inv Fails r).room)) refl, refl)
Reach-can_report Fails Name.health {s = s} {e} r g =
    (_, report Name.health g (ground (arith, (Reach-Inv Fails r).room)) refl, refl)
