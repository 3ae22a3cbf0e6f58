-- ===== src/Pool/Protocol.antt =====
-- The concurrent life of routes: requests acquire, accept and finish leases in any order, and other
-- operations of the pool come between.
pub mod Inflight
pub mod Pending
pub mod Claims
use llm_broker.Prelude.{
  ℕ, Bool, true, false, ◌&&◌, not, ◌≡◌, List, [], ◌∷◌, ◌++◌, Option, some, lookup, count_if, ◌==◌,
}
use llm_broker.Driver.{SchedulerDriver}
use llm_broker.Pool.{Pool, Env}
use llm_broker.Pool.Routes.{RouteKey, route_eq}
use llm_broker.Pool.Results.{PoolError}
use llm_broker.Pool.Availability.{RouteRequest}
use llm_broker.Pool.Choice.{AttemptLease, or_idle}
use llm_broker.Pool.Lease.{accept, finish}
use llm_broker.Pool.Route.{granted, refused, waits, acquire_route}
use llm_broker.Pool.Route.Effects.{SameRoutes}

-- The pool with every lease that was handed out, the newest first.
pub record System : Type 0 where
  pub pool : Pool
  pub leases : List AttemptLease

pub data Step : System → System → Type 0 where
  acquires :
      {s : System} {q : Pool} {l : AttemptLease} (e : Env) (drv : SchedulerDriver)
      (req : RouteRequest)
      → acquire_route e drv req s.pool ≡ (q, granted l)
      → Step s (record { pool = q; leases = l ∷ s.leases })
  fails :
      {s : System} {q : Pool} {x : PoolError} (e : Env) (drv : SchedulerDriver) (req : RouteRequest)
      → acquire_route e drv req s.pool ≡ (q, refused x)
      → Step s (record { pool = q; leases = s.leases })
  blocks :
      {s : System} {q : Pool} {c : ℕ} (e : Env) (drv : SchedulerDriver) (req : RouteRequest)
      → acquire_route e drv req s.pool ≡ (q, waits c)
      → Step s (record { pool = q; leases = s.leases })
  accepts :
      {p : Pool} (e : Env) (ttl : ℕ) (xs : List AttemptLease) (l : AttemptLease)
      (ys : List AttemptLease)
      → Step
          (record { pool = p; leases = xs ++ (l ∷ ys) })
          (record { pool = (accept e ttl l p).0; leases = xs ++ ((accept e ttl l p).1 ∷ ys) })
  finishes :
      {p : Pool} (xs : List AttemptLease) (l : AttemptLease) (ys : List AttemptLease)
      → Step
          (record { pool = p; leases = xs ++ (l ∷ ys) })
          (record { pool = (finish l p).0; leases = xs ++ ((finish l p).1 ∷ ys) })
  others :
      {s : System} (q : Pool)
      → SameRoutes s.pool q
      → Step s (record { pool = q; leases = s.leases })

pub data Reach (s : System) : System → Type 0 where
  here : Reach s s
  next : {t u : System} → Reach s t → Step t u → Reach s u

-- Does the lease hold a place on the route?
abbrev pub on_route : RouteKey → AttemptLease → Bool
on_route k l = not l.terminal && l.load_key == k

abbrev pub inflight_of : Pool → RouteKey → ℕ
inflight_of p k = (or_idle (lookup k p.route_loads)).inflight
