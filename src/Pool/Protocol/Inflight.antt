-- ===== src/Pool/Protocol/Inflight.antt =====
-- internal/pool/pool_schedule.go: the counts of routes and the leases that are handed out.
use llm_broker.Prelude.{
  Map, ℕ, ◌+◌, ◌-◌, ◌%◌, ◌^◌, ◌≤◌, String, true, false, ◌≡◌, refl, sym, ap, ◌∙◌, List, [], ◌∷◌,
  ◌++◌, Option, none, some, inl, inr, arith, Option-cases, lookup, lookup-insert, count_if, ◌==◌,
  if◌then◌else◌,
}
use llm_broker.Domain.{Account}
use llm_broker.Driver.{SchedulerDriver}
use llm_broker.Store.{Write, save_binding}
use llm_broker.Pool.{Pool, Env, write, bucket_key}
use llm_broker.Pool.Routes.{RouteKey, RouteLoad, route_eq, route_beq_iff}
use llm_broker.Pool.Availability.{RouteRequest}
use llm_broker.Pool.Choice.{AttemptLease, or_idle, assign, lease_account}
use llm_broker.Pool.Acquire.{Granted}
use llm_broker.Pool.Lease.{
  release_affinity_claim, lower_load, accept, finish, set_session_binding, binding_row,
}
use llm_broker.Pool.Route.{Round, Outcome, add_claim, granted, refused, waits}
use llm_broker.Pool.Route.Effects.{
  SameRoutes, RoundEffect, plain, claiming, failing, unclaimed, waiting, acquire_route-Effect,
}
use llm_broker.Pool.Protocol.{
  System, Step, acquires, fails, blocks, accepts, finishes, others, Reach, here, next, on_route,
  inflight_of,
}

abbrev pub IsExact : System → Type 0
IsExact s = (k : RouteKey) → inflight_of s.pool k ≡ count_if (on_route k) s.leases

count_split :
    (k : RouteKey) (xs : List AttemptLease) (l : AttemptLease) (ys : List AttemptLease)
    → count_if (on_route k) (xs ++ (l ∷ ys))
      ≡ (if on_route k l then 1 else 0) + count_if (on_route k) (xs ++ ys)
unfolding count_if
count_split k [] l ys = ground arith
count_split k (x ∷ xs) l ys = ground (arith, count_split k xs l ys)

release-loads :
    (key : String) (claim : Option ℕ) (p : Pool)
    → (release_affinity_claim key claim p).route_loads ≡ p.route_loads
unfolding release_affinity_claim
release-loads key claim p = ground arith

write-loads : (e : Env) (w : Write) (p : Pool) → (write e w p).route_loads ≡ p.route_loads
unfolding write
write-loads e w p = ground arith

accept-loads :
    (e : Env) (ttl : ℕ) (l : AttemptLease) (p : Pool)
    → ((accept e ttl l p).0.route_loads ≡ p.route_loads)
      × ((accept e ttl l p).1.terminal ≡ l.terminal)
      × ((accept e ttl l p).1.load_key ≡ l.load_key)
unfolding accept set_session_binding
accept-loads e ttl l p = ground (
  arith,
  release-loads l.affinity_key l.claim p,
  release-loads l.affinity_key l.claim
      (write e (save_binding (binding_row e l.affinity_key l.account ttl)) p),
  write-loads e (save_binding (binding_row e l.affinity_key l.account ttl)) p,
)

lease-inflight :
    (a : Account) (class key : String) (claim : Option ℕ) (p : Pool) (k : RouteKey)
    → inflight_of (lease_account a class key claim p).0 k
      ≡ (if on_route k (lease_account a class key claim p).1 then 1 else 0) + inflight_of p k
unfolding lease_account assign
lease-inflight a class key claim p k = ground (
  arith,
  lookup-insert (record { provider = a.provider; bucket = bucket_key a; class = class }) k
      (assign ((p.route_seq + 1) % 2 ^ 64) (
        or_idle (
          lookup (record { provider = a.provider; bucket = bucket_key a; class = class })
            p.route_loads)))
      p.route_loads,
  route_beq_iff (record { provider = a.provider; bucket = bucket_key a; class = class }) k,
)

lower-inflight :
    (key k : RouteKey) (p : Pool)
    → inflight_of (lower_load key p) k ≡ inflight_of p k - (if key == k then 1 else 0)
unfolding lower_load
lower-inflight key k p = elim (Option-cases (lookup key p.route_loads)) [
  | inl q ↦ ground (arith, q, route_beq_iff key k)
  | inr (load, q) ↦ ground (
    arith,
    q,
    route_beq_iff key k,
    lookup-insert key k (record load { inflight = load.inflight - 1 }) p.route_loads,
  )
]

SameRoutes-inflight :
    {p q : Pool} (k : RouteKey) → SameRoutes p q → inflight_of q k ≡ inflight_of p k
SameRoutes-inflight k s = rw (s.loads)

abbrev bit : RouteKey → AttemptLease → ℕ
bit k l = if on_route k l then 1 else 0

abbrev loads_of : Map RouteKey RouteLoad → RouteKey → ℕ
loads_of m k = (or_idle (lookup k m)).inflight

abbrev claiming_lease : RouteRequest → Pool → Account → String → Granted
claiming_lease req r a class =
    lease_account a class req.affinity_key (some r.next_claim) (add_claim req.affinity_key r)

abbrev added : RouteKey → Outcome → ℕ
added k (granted l) = if on_route k l then 1 else 0
added k (refused x) = 0
added k (waits c) = 0

add_claim-loads : (key : String) (p : Pool) → (add_claim key p).route_loads ≡ p.route_loads
unfolding add_claim
add_claim-loads key p = refl

-- One round adds the lease that it grants, and nothing else.
round-inflight :
    {e : Env} {drv : SchedulerDriver} {req : RouteRequest} {p : Pool} {rd : Round} (k : RouteKey)
    → RoundEffect e drv req p rd
    → inflight_of rd.0 k ≡ added k rd.1 + inflight_of p k
round-inflight {req = req} {p = p} k (plain r a class s c w) =
    ap (λ g. inflight_of g.0 k) w
    ∙ lease-inflight a class req.affinity_key none r k
    ∙ ap (λ n. bit k (lease_account a class req.affinity_key none r).1 + n)
        (SameRoutes-inflight k s)
    ∙ ap (λ g. bit k g.1 + inflight_of p k) (sym w)
round-inflight {req = req} {p = p} k (claiming r a class s c n f w) =
    ap (λ g. inflight_of g.0 k) w
    ∙ lease-inflight a class req.affinity_key (some r.next_claim) (add_claim req.affinity_key r) k
    ∙ ap (λ m. bit k (claiming_lease req r a class).1 + loads_of m k)
        (add_claim-loads req.affinity_key r ∙ s.loads)
    ∙ ap (λ g. bit k g.1 + inflight_of p k) (sym w)
round-inflight k (failing s) = ap (λ m. loads_of m k) s.loads ∙ omega arith
round-inflight {req = req} k (unclaimed r s n f w) =
    ap (λ q. inflight_of q k) w
    ∙ ap (λ m. loads_of m k)
        (release-loads req.affinity_key (some r.next_claim) (add_claim req.affinity_key r)
          ∙ add_claim-loads req.affinity_key r
          ∙ s.loads)
    ∙ omega arith
round-inflight k (waiting s q) = ap (λ m. loads_of m k) s.loads ∙ omega arith

finish-inflight :
    (l : AttemptLease) (p : Pool) (k : RouteKey)
    → (on_route k l ≡ true → 1 ≤ inflight_of p k)
    → inflight_of p k ≡ (if on_route k l then 1 else 0) + inflight_of (finish l p).0 k
unfolding finish
finish-inflight l p k h = ground (
  arith,
  release-loads l.affinity_key l.claim (lower_load l.load_key p),
  lower-inflight l.load_key k p,
)

finish-off_route : (l : AttemptLease) (p : Pool) (k : RouteKey) → on_route k (finish l p).1 ≡ false
unfolding finish
finish-off_route l p k = ground arith

-- The count of every route is the number of its leases that are not finished: no place is leaked or
-- given back twice, whatever the order of the steps.
pub Step-IsExact : {s t : System} → Step s t → IsExact s → IsExact t
Step-IsExact {s} (acquires {q = q} {l = l} e drv req eq) h k =
    ap (λ r. inflight_of r.0 k) (sym eq)
    ∙ round-inflight k (acquire_route-Effect e drv req s.pool)
    ∙ ap (λ r. added k r.1 + inflight_of s.pool k) eq
    ∙ ground (arith, h k, count_split k [] l s.leases)
Step-IsExact {s} (fails e drv req eq) h k =
    ap (λ r. inflight_of r.0 k) (sym eq)
    ∙ round-inflight k (acquire_route-Effect e drv req s.pool)
    ∙ ap (λ r. added k r.1 + inflight_of s.pool k) eq
    ∙ omega (arith, h k)
Step-IsExact {s} (blocks e drv req eq) h k =
    ap (λ r. inflight_of r.0 k) (sym eq)
    ∙ round-inflight k (acquire_route-Effect e drv req s.pool)
    ∙ ap (λ r. added k r.1 + inflight_of s.pool k) eq
    ∙ omega (arith, h k)
Step-IsExact (accepts {p = p} e ttl xs l ys) h k =
    ap (λ m. loads_of m k) (accept-loads e ttl l p).0
    ∙ h k
    ∙ ground (
      arith,
      count_split k xs l ys,
      count_split k xs (accept e ttl l p).1 ys,
      (accept-loads e ttl l p).1,
      (accept-loads e ttl l p).2,
    )
Step-IsExact (finishes {p = p} xs l ys) h k = ground (
  arith,
  h k,
  count_split k xs l ys,
  count_split k xs (finish l p).1 ys,
  finish-off_route l p k,
  finish-inflight l p k,
)
Step-IsExact (others q s) h k = SameRoutes-inflight k s ∙ h k

-- If the count of every route is the number of its unfinished leases, it is so after any steps.
pub Reach-IsExact : {s t : System} → IsExact s → Reach s t → IsExact t
Reach-IsExact h here = h
Reach-IsExact h (next r st) = Step-IsExact st (Reach-IsExact h r)
