-- ===== src/Relay/Pooled.antt =====
-- internal/relay with internal/pool: a relay that asks a pool for its accounts.
use llm_broker.Prelude.{
  ℕ, String, Bool, false, ◌≡◌, ◌≢◌, refl, sym, ap, ◌∙◌, inl, inr, Option, none, some, Option-cases,
}
use mathlib.Core.Path.{subst}
use llm_broker.Domain.{Account}
use llm_broker.Driver.{SchedulerDriver}
use llm_broker.Pool.{Pool, Env, bucket_key, bucket_of}
use llm_broker.Pool.Buckets.{project_account}
use llm_broker.Pool.Choice.{AttemptLease, lease_account}
use llm_broker.Pool.Availability.{RouteRequest}
use llm_broker.Pool.Availability.Serves.{Spares, CanServe}
use llm_broker.Pool.Route.{granted, refused, waits, Round, acquire_route, add_claim}
use llm_broker.Pool.Route.Effects.{
  RoundEffect, plain, claiming, failing, unclaimed, waiting, acquire_route-Effect,
}
use llm_broker.Relay.Answers.{
  Prepared, RelayConfig, ExecutionDriver, Answers, Acquired, leased, unleased, of_pool, of_context,
}
use llm_broker.Relay.Loop.{relay}
use llm_broker.Relay.Loop.Distinct.{Distinct, leased_ids, Respects, relay-Distinct}

-- What the last round of AcquireRoute answers. The context ends a wait that is the last round.
unfoldable pub acquired_of : Round → Acquired
acquired_of (p, granted l) = leased l.account
acquired_of (p, refused x) = unleased (of_pool x)
acquired_of (p, waits c) = unleased of_context

abbrev pub IsSpared : RouteRequest → Account → Type 0
IsSpared req a =
    Spares (λ x. x.account_id) a.id req.exclusions
    × Spares (λ x. x.bucket_key) a.bucket_key req.exclusions

project_account-names :
    (p : Pool) (a : Account)
    → ((project_account p a).id ≡ a.id) × ((project_account p a).bucket_key ≡ bucket_key a)
unfolding project_account
project_account-names p a = elim (Option-cases (bucket_of p a)) [
  | inl q ↦ rw (q, project_account) (refl, refl)
  | inr (b, q) ↦ rw (q, project_account) (refl, refl)
]

leased-IsSpared :
    (e : Env) (drv : SchedulerDriver) (req : RouteRequest) (r : Pool) (a : Account) (class : String)
    (claim : Option ℕ) (q : Pool) (l : AttemptLease)
    → CanServe e drv req r a
    → (q, l) ≡ lease_account a class req.affinity_key claim r
    → IsSpared req l.account
unfolding lease_account
leased-IsSpared e drv req r a class claim q l c eq =
    let same : l.account ≡ project_account r a = ap (λ g. g.1.account) eq in
    let (ids, keys) = project_account-names r a in
    (
      subst (λ id. Spares (λ x. x.account_id) id req.exclusions) (sym (ap (λ b. b.id) same ∙ ids))
          c.spared,
      subst (λ key. Spares (λ x. x.bucket_key) key req.exclusions)
          (sym (ap (λ b. b.bucket_key) same ∙ keys)) c.bucket_spared,
    )

account_or : Account → Acquired → Account
account_or b (leased a) = a
account_or b (unleased x) = b

leased-injective : (a b : Account) → leased a ≡ leased b → a ≡ b
unfolding account_or
leased-injective a b h = ap (account_or a) h

RoundEffect-IsSpared :
    (e : Env) (drv : SchedulerDriver) (req : RouteRequest) (p : Pool) (rd : Round) (a : Account)
    → RoundEffect e drv req p rd
    → acquired_of rd ≡ leased a
    → IsSpared req a
unfolding acquired_of
RoundEffect-IsSpared e drv req p _ a (plain {q} {l} r b class s c eq) h =
    subst (IsSpared req) (leased-injective l.account a h)
      (leased-IsSpared e drv req r b class none q l c eq)
RoundEffect-IsSpared e drv req p _ a (claiming {q} {l} r b class s c n f eq) h =
    subst (IsSpared req) (leased-injective l.account a h) (
      leased-IsSpared e drv req (add_claim req.affinity_key r) b class (some r.next_claim) q l c eq)
RoundEffect-IsSpared e drv req p _ a (failing s) h = cc
RoundEffect-IsSpared e drv req p _ a (unclaimed r s n f eq) h = cc
RoundEffect-IsSpared e drv req p _ a (waiting s q) h = cc

module _ (envs : ℕ → Env) (scheduler : SchedulerDriver) (pools : ℕ → Pool)
    (rest : ℕ → Answers) where
  -- What is answered to an attempt, with the account from the pool as it is then.
  unfoldable pub pooled : ℕ → Answers
  unfolding acquired_of
  pooled k = record (rest k) {
    acquire = λ req. acquired_of (acquire_route (envs k) scheduler req (pools k));
  }

  -- Each account that the pool leases has an id and the bucket key of its id.
  abbrev pub IsKeyed : (String → String) → Type 0
  IsKeyed bucket =
      (k : ℕ) (req : RouteRequest) (a : Account)
      → acquired_of (acquire_route (envs k) scheduler req (pools k)) ≡ leased a
      → (a.id ≢ "") × (a.bucket_key ≡ bucket a.id)

  pooled-Respects :
      (bucket : String → String) → IsKeyed bucket → (k : ℕ) → Respects bucket (pooled k)
  unfolding pooled
  pooled-Respects bucket keyed k req a q =
      let n = keyed k req a q in
      let s =
        RoundEffect-IsSpared (envs k) scheduler req (pools k)
          (acquire_route (envs k) scheduler req (pools k)) a
          (acquire_route-Effect (envs k) scheduler req (pools k)) q in
      (n.0, n.1, s.0, s.1)

  -- When a relay asks a pool, whatever state the pool is in at each attempt, the accounts that it leases
  -- have ids and the bucket keys of their ids, and the driver never retries on the same account, then no
  -- two attempts of the request lease the same account.
  pub pooled-Distinct :
      (bucket : String → String) (cfg : RelayConfig) (drv : ExecutionDriver) (pr : Prepared)
      (cancelled : ℕ → Bool)
      → ((status : ℕ) (body : String) (n : ℕ) → drv.retry_same_account status body n ≡ false)
      → IsKeyed bucket
      → Distinct (leased_ids (relay cfg drv pr pooled cancelled))
  pooled-Distinct bucket cfg drv pr cancelled never keyed =
      relay-Distinct bucket cfg drv pr pooled cancelled never (pooled-Respects bucket keyed)
