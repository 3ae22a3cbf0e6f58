-- ===== src/Pool/Acquire.antt =====
-- internal/pool/pool_schedule.go: acquireLocked, the choice under the lock.
pub mod Sound
pub mod Bound
use llm_broker.Prelude.{
  ℕ, String, ◌&&◌, List, [], ◌∷◌, Option, none, some, Map, values, lookup, ◌==◌, string_eq,
  if◌then◌else◌,
}
use llm_broker.Domain.{Account}
use llm_broker.Driver.{SchedulerDriver, CapacityAssessment}
use llm_broker.Pool.{Pool, Env, bucket_key}
use llm_broker.Pool.Routes.{route_eq}
use llm_broker.Pool.Results.{
  Result, ok, err, no_available_accounts, bound_account_excluded, bound_bucket_excluded,
  bound_not_found, bound_unavailable,
}
use llm_broker.Pool.Availability.{
  RouteRequest, structurally_available, allowed_on_surface, capacity_assessment, excludes_account,
  excludes_bucket,
}
use llm_broker.Pool.Choice.{
  AttemptLease, BucketCandidate, collect, sort_by_key, least_inflight, select, lease_account,
}

abbrev pub Granted : Type 0
Granted = Pool × AttemptLease

-- A bound account of the driver's provider.
unfoldable pub acquire_bound :
    Env → SchedulerDriver → RouteRequest → Option ℕ → Account → Pool → Result Granted
acquire_bound e drv req claim a p =
    let cap : CapacityAssessment = capacity_assessment p drv req.model e.now a in
    if excludes_account req.exclusions a.id
    then err (bound_account_excluded a.id)
    else if excludes_bucket req.exclusions (bucket_key a)
    then err (bound_bucket_excluded (bucket_key a))
    else if allowed_on_surface p a req.surface && (structurally_available p e.now a && cap.eligible)
    then ok (lease_account a cap.class req.affinity_key claim p)
    else err (bound_unavailable a.id a.status)

lease_selected : RouteRequest → Option ℕ → BucketCandidate → Pool → Option Account → Result Granted
lease_selected req claim b p none = err no_available_accounts
lease_selected req claim b p (some a) = ok (lease_account a b.class req.affinity_key claim p)

unfoldable pub choose_from :
    Env → SchedulerDriver → RouteRequest → Option ℕ → Pool → List BucketCandidate → Result Granted
unfolding lease_selected
choose_from e drv req claim p [] = err no_available_accounts
choose_from e drv req claim p (b ∷ bs) =
    let chosen : BucketCandidate = least_inflight p e.floats drv.provider b bs in
    lease_selected req claim chosen p (select chosen)

-- The candidates by bucket key, in the order of the scan.
unfoldable pub candidates : Env → SchedulerDriver → RouteRequest → Pool → Map String BucketCandidate
candidates e drv req p = collect e drv req p (values p.accounts) []

unfoldable pub acquire_any : Env → SchedulerDriver → RouteRequest → Option ℕ → Pool → Result Granted
acquire_any e drv req claim p =
    choose_from e drv req claim p (sort_by_key (values (candidates e drv req p)))

-- An account of another provider does not bind.
unfoldable pub acquire_locked :
    Env → SchedulerDriver → RouteRequest → String → Option ℕ → Pool → Result Granted
acquire_locked e drv req bound claim p =
    if bound == "" then acquire_any e drv req claim p else elim (lookup bound p.accounts) [
      | none ↦ err (bound_not_found bound)
      | some a ↦
          if a.provider == drv.provider
          then acquire_bound e drv req claim a p
          else acquire_any e drv req claim p
    ]
