-- ===== src/Process/Server.antt =====
-- `Run` of sample-api/pkg/server/server.go: the goroutines of the two servers, the channel to which
-- they report, and the caller, which waits and then shuts both down. What net/http does is in the
-- guards of the steps: ListenAndServe returns at any time with an error, with ErrServerClosed only
-- after Shutdown, and a call of Shutdown returns, since its context has a deadline. Its errors, and
-- those of the log, have no effect.
pub mod Invariant
pub mod Progress
use kube_extauth_demo.Prelude.{
  ℕ, suc, ◌<◌, Bool, true, false, Option, none, some, List, [], ◌∷◌, ◌++◌, ◌≡◌,
}
use kube_extauth_demo.Prelude.Lists.{length}
use kube_extauth_demo.Effect.{Err}

pub data Name : Type 0 where
  public health : Name

-- What ListenAndServe returns: http.ErrServerClosed, or another error.
pub data ServeError : Type 0 where
  server_closed : ServeError
  failure : Err → ServeError

-- A goroutine of `serve`: in ListenAndServe, before the send of its error, or at its end.
pub data Goroutine : Type 0 where
  listening : Goroutine
  reporting : Err → Goroutine
  finished : Goroutine

-- The caller: at the select, before or in the call of Shutdown on a server, or returned. From the
-- select on it carries `runErr`, none for nil.
pub data Caller : Type 0 where
  selecting : Caller
  shutting : Name → Option Err → Caller
  draining : Name → Option Err → Caller
  returned : Option Err → Caller

-- `closed_…` tells that Shutdown has been called on the server, `errors` is the content of errCh,
-- and `cancelled` tells that ctx.Done() is closed.
pub record System : Type 0 where
  pub caller : Caller
  pub public : Goroutine
  pub health : Goroutine
  pub closed_public : Bool
  pub closed_health : Bool
  pub errors : List Err
  pub cancelled : Bool

-- The capacity of errCh.
abbrev pub capacity : ℕ
capacity = 2

abbrev pub initial : System
initial = record {
  caller = selecting;
  public = listening;
  health = listening;
  closed_public = false;
  closed_health = false;
  errors = [];
  cancelled = false;
}

abbrev pub goroutine : Name → System → Goroutine
goroutine Name.public s = s.public
goroutine Name.health s = s.health

abbrev pub set_goroutine : Name → Goroutine → System → System
set_goroutine Name.public g s = record s { public = g }
set_goroutine Name.health g s = record s { health = g }

abbrev pub is_closed : Name → System → Bool
is_closed Name.public s = s.closed_public
is_closed Name.health s = s.closed_health

abbrev pub close : Name → System → System
close Name.public s = record s { closed_public = true }
close Name.health s = record s { closed_health = true }

-- `if err != nil && !errors.Is(err, http.ErrServerClosed) { errCh <- err }`
abbrev pub after_serve : ServeError → Goroutine
after_serve server_closed = finished
after_serve (failure e) = reporting e

-- Where the caller is after Shutdown has returned.
abbrev pub after_shutdown : Name → Option Err → Caller
after_shutdown Name.public run_err = shutting Name.health run_err
after_shutdown Name.health run_err = returned run_err

-- A step of the caller.
pub data CallerStep (s t : System) : Type 0 where
  select_done :
      s.caller ≡ selecting
      → s.cancelled ≡ true
      → t ≡ record s { caller = shutting Name.public none }
      → CallerStep s t
  select_error :
      {e : Err} {rest : List Err}
      → s.caller ≡ selecting
      → s.errors ≡ e ∷ rest
      → t ≡ record s { caller = shutting Name.public (some e); errors = rest }
      → CallerStep s t
  shutdown :
      {n : Name} {run_err : Option Err}
      → s.caller ≡ shutting n run_err
      → t ≡ close n (record s { caller = draining n run_err })
      → CallerStep s t
  drained :
      {n : Name} {run_err : Option Err}
      → s.caller ≡ draining n run_err
      → t ≡ record s { caller = after_shutdown n run_err }
      → CallerStep s t

-- `Fails n e`: ListenAndServe of the server `n` can return `e`.
module _ (Fails : Name → Err → Type 0) where
  abbrev pub CanReturn : Name → System → ServeError → Type 0
  CanReturn n s server_closed = is_closed n s ≡ true
  CanReturn n s (failure e) = Fails n e

  -- A step of a goroutine, or a signal.
  pub data OtherStep (s t : System) : Type 0 where
    serve_returns :
        (n : Name) (r : ServeError)
        → goroutine n s ≡ listening
        → CanReturn n s r
        → t ≡ set_goroutine n (after_serve r) s
        → OtherStep s t
    report :
        (n : Name) {e : Err}
        → goroutine n s ≡ reporting e
        → length s.errors < capacity
        → t ≡ set_goroutine n finished (record s { errors = s.errors ++ (e ∷ []) })
        → OtherStep s t
    signal : t ≡ record s { cancelled = true } → OtherStep s t

  -- The states of `Run` that any schedule can lead to from `s`, with the number of steps that the
  -- caller has taken.
  pub data Reach (s : System) : ℕ → System → Type 0 where
    start : Reach s 0 s
    caller_step : {k : ℕ} {t u : System} → Reach s k t → CallerStep t u → Reach s (suc k) u
    other_step : {k : ℕ} {t u : System} → Reach s k t → OtherStep t u → Reach s k u
