-- ===== src/Pool/Route/Effects.antt =====
-- What one round of AcquireRoute does to the counters and claims of the pool.
use llm_broker.Prelude.{
  ℕ, String, ◌&&◌, not, ◌≡◌, ◌≢◌, refl, ◌⊎◌, inl, inr, Option, none, some, Bool-cases, Option-cases,
  lookup, ◌==◌, string_eq, arith, if◌then◌else◌,
}
use text.Mathlib.TextEquality.{eq_iff}
use llm_broker.Domain.{Account, SessionBinding}
use llm_broker.Driver.{SchedulerDriver}
use llm_broker.Store.{list_accounts, list_cells, list_buckets}
use llm_broker.Pool.{Pool, Env, load, reload_state}
use llm_broker.Pool.Results.{PoolError, Result, ok, err}
use llm_broker.Pool.Availability.{RouteRequest}
use llm_broker.Pool.Availability.Serves.{CanServe}
use llm_broker.Pool.Choice.{AttemptLease, lease_account}
use llm_broker.Pool.Acquire.{acquire_locked}
use llm_broker.Pool.Acquire.Bound.{acquire_locked-leases}
use llm_broker.Pool.Lease.{release_affinity_claim}
use llm_broker.Pool.Route.{
  granted, refused, waits, Round, load_binding, account_id_for_binding, has_binding, claimed,
  add_claim, claim_and_acquire, without_target, try_bound, resolve_bound, drop_foreign, check_pin,
  pinned_here, acquire_route, requires,
}

-- The two pools agree on all that leases and claims touch.
pub record SameRoutes (p q : Pool) : Type 0 where
  pub loads : q.route_loads ≡ p.route_loads
  pub claims : q.affinity_claims ≡ p.affinity_claims
  pub next : q.next_claim ≡ p.next_claim
  pub closed : q.closed_claims ≡ p.closed_claims

-- How a round that began with `p` ends. A lease goes to an account that can serve the request in the
-- reloaded pool `r`.
pub data RoundEffect (e : Env) (drv : SchedulerDriver) (req : RouteRequest) (p : Pool)
    : Round → Type 0 where
  plain :
      {q : Pool} {l : AttemptLease} (r : Pool) (a : Account) (class : String)
      → SameRoutes p r
      → CanServe e drv req r a
      → (q, l) ≡ lease_account a class req.affinity_key none r
      → RoundEffect e drv req p (q, granted l)
  claiming :
      {q : Pool} {l : AttemptLease} (r : Pool) (a : Account) (class : String)
      → SameRoutes p r
      → CanServe e drv req (add_claim req.affinity_key r) a
      → req.affinity_key ≢ ""
      → lookup req.affinity_key r.affinity_claims ≡ none
      → (q, l)
        ≡ lease_account a class req.affinity_key (some r.next_claim) (add_claim req.affinity_key r)
      → RoundEffect e drv req p (q, granted l)
  failing : {r : Pool} {x : PoolError} → SameRoutes p r → RoundEffect e drv req p (r, refused x)
  unclaimed :
      {q : Pool} {x : PoolError} (r : Pool)
      → SameRoutes p r
      → req.affinity_key ≢ ""
      → lookup req.affinity_key r.affinity_claims ≡ none
      → q
        ≡ release_affinity_claim req.affinity_key (some r.next_claim) (add_claim req.affinity_key r)
      → RoundEffect e drv req p (q, refused x)
  waiting :
      {r : Pool} {c : ℕ}
      → SameRoutes p r
      → lookup req.affinity_key r.affinity_claims ≡ some c
      → RoundEffect e drv req p (r, waits c)

module _ (e : Env) (drv : SchedulerDriver) (req : RouteRequest) (p r : Pool)
    (s : SameRoutes p r) where
  Result-cases {ℓ} :
      {A : Type ℓ} (m : Result A) → ((a : A) × (m ≡ ok a)) ⊎ ((x : PoolError) × (m ≡ err x))
  Result-cases (ok a) = inl (a, refl)
  Result-cases (err x) = inr (x, refl)

  claimed_none : RoundEffect e drv req p (claimed e drv req none r)
  unfolding claimed release_affinity_claim
  claimed_none = elim (Result-cases (acquire_locked e drv req "" none r)) [
    | inl (g, q) ↦
        let (a, class, c, w) = acquire_locked-leases e drv req none r "" g q in
        rw (q, claimed) (plain r a class s c w)
    | inr (x, q) ↦ rw (q, claimed, release_affinity_claim) (failing s)
  ]

  claimed_some :
      req.affinity_key ≢ ""
      → lookup req.affinity_key r.affinity_claims ≡ none
      → RoundEffect e drv req p
          (claimed e drv req (some r.next_claim) (add_claim req.affinity_key r))
  unfolding claimed
  claimed_some n f =
      elim (Result-cases
        (acquire_locked e drv req "" (some r.next_claim) (add_claim req.affinity_key r))) [
          | inl (g, q) ↦
              let (a, class, c, w) =
                acquire_locked-leases e drv req (some r.next_claim) (add_claim req.affinity_key r)
                  "" g q in
              rw (q, claimed) (claiming r a class s c n f w)
          | inr (x, q) ↦ rw (q, claimed) (unclaimed r s n f refl)
        ]

  claim_and_acquire-Effect : RoundEffect e drv req p (claim_and_acquire e drv req r)
  unfolding claim_and_acquire
  claim_and_acquire-Effect = elim (Bool-cases (req.affinity_key == "")) [
    | inl t ↦ rw (t, claim_and_acquire) claimed_none
    | inr t ↦ elim (Option-cases (lookup req.affinity_key r.affinity_claims)) [
      | inl q ↦
          rw (t, q, claim_and_acquire)
            (claimed_some (λ h. ground (arith, eq_iff req.affinity_key "")) q)
      | inr (c, q) ↦ rw (t, q, claim_and_acquire) (waiting s q)
    ]
  ]

  without_target-Effect :
      (b : Option SessionBinding) → RoundEffect e drv req p (without_target e drv req b r)
  unfolding without_target
  without_target-Effect b =
      elim (Bool-cases
        (not (req.affinity_key == "") && (not (has_binding b) && requires req.continuity))) [
          | inl t ↦ rw (t, without_target) (failing s)
          | inr t ↦ rw (t, without_target) claim_and_acquire-Effect
        ]

  try_bound-Effect :
      (b : Option SessionBinding) (bound : String)
      → RoundEffect e drv req p (try_bound e drv req b bound r)
  unfolding try_bound
  try_bound-Effect b bound = elim (Result-cases (acquire_locked e drv req bound none r)) [
    | inl (g, q) ↦
        let (a, class, c, w) = acquire_locked-leases e drv req none r bound g q in
        rw (q, try_bound) (plain r a class s c w)
    | inr (x, q) ↦ elim (Bool-cases (not (req.hard_account_id == ""))) [
      | inl t ↦ rw (q, t, try_bound) (failing s)
      | inr t ↦ elim (Bool-cases (requires req.continuity)) [
        | inl u ↦ rw (q, t, u, try_bound) (failing s)
        | inr u ↦ rw (q, t, u, try_bound) (without_target-Effect b)
      ]
    ]
  ]

  resolve_bound-Effect :
      (b : Option SessionBinding) → RoundEffect e drv req p (resolve_bound e drv req b r)
  unfolding resolve_bound
  resolve_bound-Effect b =
      let bound : String =
        if req.hard_account_id == "" then account_id_for_binding r b else req.hard_account_id in
      elim (Bool-cases (bound == "")) [
        | inl t ↦ elim (Bool-cases (has_binding b && requires req.continuity)) [
          | inl u ↦ rw (t, u, resolve_bound) (failing s)
          | inr u ↦ rw (t, u, resolve_bound) (without_target-Effect b)
        ]
        | inr t ↦ rw (t, resolve_bound) (try_bound-Effect b bound)
      ]

  drop_foreign-Effect :
      (b : Option SessionBinding) → RoundEffect e drv req p (drop_foreign e drv req b r)
  unfolding drop_foreign
  drop_foreign-Effect none = resolve_bound-Effect none
  drop_foreign-Effect (some b) = elim (Bool-cases (b.provider == drv.provider)) [
    | inl t ↦ rw (t, drop_foreign) (resolve_bound-Effect (some b))
    | inr t ↦ elim (Bool-cases (requires req.continuity)) [
      | inl u ↦ rw (t, u, drop_foreign) (failing s)
      | inr u ↦ rw (t, u, drop_foreign) (resolve_bound-Effect none)
    ]
  ]

  check_pin-Effect : (b : Option SessionBinding) → RoundEffect e drv req p (check_pin e drv req b r)
  unfolding check_pin
  check_pin-Effect b =
      elim (Bool-cases (
        requires req.continuity
        && (req.affinity_key == ""
            && not (pinned_here drv (lookup req.hard_account_id r.accounts))))) [
              | inl t ↦ rw (t, check_pin) (failing s)
              | inr t ↦ rw (t, check_pin) (drop_foreign-Effect b)
            ]

load-SameRoutes : (e : Env) (p : Pool) → SameRoutes p (load e p)
unfolding load
load-SameRoutes e p = record { loads = refl; claims = refl; next = refl; closed = refl }

-- Whatever the request and the store, a round ends as `RoundEffect` says: with a lease, and possibly
-- a new claim, for an account that can serve the request in the reloaded pool; with a refusal that
-- leaves counts and claims as they were, or gives the new claim back; or waiting for a claim that is
-- pending.
pub acquire_route-Effect :
    (e : Env) (drv : SchedulerDriver) (req : RouteRequest) (p : Pool)
    → RoundEffect e drv req p (acquire_route e drv req p)
unfolding acquire_route reload_state
acquire_route-Effect e drv req p =
    elim (Bool-cases
      (e.answers list_accounts && (e.answers list_cells && e.answers list_buckets))) [
        | inl t ↦
            elim (Result-cases e drv req p (load e p) (load-SameRoutes e p)
              (load_binding e req (load e p))) [
                | inl (b, q) ↦
                    rw (t, q, acquire_route)
                      (check_pin-Effect e drv req p (load e p) (load-SameRoutes e p) b)
                | inr (x, q) ↦ rw (t, q, acquire_route) (failing (load-SameRoutes e p))
              ]
        | inr t ↦
            rw (t, acquire_route)
              (failing (record { loads = refl; claims = refl; next = refl; closed = refl }))
      ]
