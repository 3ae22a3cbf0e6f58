-- ===== src/Pool/Acquire/Bound.antt =====
-- internal/pool/pool_schedule.go: an acquire that is bound to an account.
use llm_broker.Prelude.{
  ℕ, String, true, ◌≡◌, ◌≢◌, ◌∙◌, sym, ap, ◌↔◌, ◌⊎◌, Option, some, Bool-cases, Option-cases, inl,
  inr, arith, lookup, ◌==◌, string_eq,
}
use text.Mathlib.TextEquality.{eq_iff}
use llm_broker.Domain.{Account}
use llm_broker.Driver.{SchedulerDriver}
use llm_broker.Pool.{Pool, Env}
use llm_broker.Pool.Results.{PoolError, ok, err, bound_not_found}
use llm_broker.Pool.Availability.{RouteRequest, capacity_assessment, qualifies}
use llm_broker.Pool.Availability.Serves.{CanServe, qualifies_iff}
use llm_broker.Pool.Choice.{lease_account}
use llm_broker.Pool.Acquire.{Granted, acquire_bound, acquire_any, acquire_locked}
use llm_broker.Pool.Acquire.Sound.{acquire_any-CanServe}

module _ (e : Env) (drv : SchedulerDriver) (req : RouteRequest) (claim : Option ℕ) (p : Pool) where
  -- A bound acquire decides the same guards as the scan.
  acquire_bound-qualifies :
      (a : Account)
      → a.provider ≡ drv.provider
      → qualifies e drv req p a ≡ true
      → acquire_bound e drv req claim a p
        ≡ ok (
            lease_account a
              (capacity_assessment p drv req.model e.now a).class
              req.affinity_key
              claim
              p)
  unfolding acquire_bound qualifies
  acquire_bound-qualifies a h q = ground arith

  acquire_bound_ok :
      (a : Account) (g : Granted)
      → a.provider ≡ drv.provider
      → acquire_bound e drv req claim a p ≡ ok g
      → (qualifies e drv req p a ≡ true)
        × (g
            ≡ lease_account a
                (capacity_assessment p drv req.model e.now a).class
                req.affinity_key
                claim
                p)
  unfolding acquire_bound qualifies
  acquire_bound_ok a g h q = (ground (arith, eq_iff a.provider drv.provider), ground arith)

  acquire_locked_reaches :
      (bound : String) (a : Account)
      → bound ≢ ""
      → lookup bound p.accounts ≡ some a
      → a.provider ≡ drv.provider
      → acquire_locked e drv req bound claim p ≡ acquire_bound e drv req claim a p
  unfolding acquire_locked
  acquire_locked_reaches bound a n q h =
      ground (arith, eq_iff bound "", eq_iff a.provider drv.provider)

  abbrev pub LeaseOf : Account → Granted
  LeaseOf a =
      lease_account a (capacity_assessment p drv req.model e.now a).class req.affinity_key claim p

  -- A bound account of the driver's provider is leased exactly if it can serve the request, and no
  -- other account is leased in its place.
  pub acquire_locked_bound :
      (bound : String) (a : Account) (g : Granted)
      → bound ≢ ""
      → lookup bound p.accounts ≡ some a
      → a.provider ≡ drv.provider
      → (acquire_locked e drv req bound claim p ≡ ok g) ↔ (CanServe e drv req p a × (g ≡ LeaseOf a))
  acquire_locked_bound bound a g n q h = (
    λ r.
        let (t, s) = acquire_bound_ok a g h (sym reaches ∙ r) in
        ((qualifies_iff e drv req p a).0 t, s),
    λ s.
        reaches
        ∙ acquire_bound-qualifies a h ((qualifies_iff e drv req p a).1 s.0)
        ∙ ap ok (sym s.1),
  )
    where
      reaches : acquire_locked e drv req bound claim p ≡ acquire_bound e drv req claim a p
      reaches = acquire_locked_reaches bound a n q h

  acquire_locked_cases :
      (bound : String)
      → (acquire_locked e drv req bound claim p ≡ acquire_any e drv req claim p)
        ⊎ (((x : PoolError) × (acquire_locked e drv req bound claim p ≡ err x))
            ⊎ ((a : Account) × (a.provider ≡ drv.provider)
                × (acquire_locked e drv req bound claim p ≡ acquire_bound e drv req claim a p)))
  unfolding acquire_locked
  acquire_locked_cases bound = elim (Bool-cases (bound == "")) [
    | inl t ↦ inl (rw t)
    | inr t ↦ elim (Option-cases (lookup bound p.accounts)) [
      | inl q ↦ inr (inl (bound_not_found bound, rw (t, q)))
      | inr (a, q) ↦ elim (Bool-cases (a.provider == drv.provider)) [
        | inl u ↦ inr (inr (a, (eq_iff a.provider drv.provider).0 u, rw (t, q) (rw u)))
        | inr u ↦ inl (rw (t, q) (rw u))
      ]
    ]
  ]

  -- Whatever an acquire leases, it leases to an account that can serve the request.
  pub acquire_locked-leases :
      (bound : String) (g : Granted)
      → acquire_locked e drv req bound claim p ≡ ok g
      → (a : Account) × (class : String) × CanServe e drv req p a
        × (g ≡ lease_account a class req.affinity_key claim p)
  acquire_locked-leases bound g r = elim (acquire_locked_cases bound) [
    | inl q ↦
        let (a, c, _, s, w) = acquire_any-CanServe e drv req p claim g (sym q ∙ r) in (a, c, s, w)
    | inr (inl (x, q)) ↦ cc
    | inr (inr (a, h, q)) ↦
        let (t, w) = acquire_bound_ok a g h (sym q ∙ r) in
        (
          a,
          (capacity_assessment p drv req.model e.now a).class,
          (qualifies_iff e drv req p a).0 t,
          w,
        )
  ]
