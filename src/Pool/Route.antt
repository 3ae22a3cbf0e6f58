-- ===== src/Pool/Route.antt =====
-- internal/pool/pool_schedule.go: AcquireRoute as the rounds of its loop, and PickForSurface.
pub mod Effects
pub mod Owner
use llm_broker.Prelude.{
  ℕ, suc, String, Bool, true, false, ◌&&◌, not, List, [], ◌∷◌, Option, none, some, values, lookup,
  insert, ◌==◌, string_eq, if◌then◌else◌,
}
use llm_broker.Domain.{Account, SessionBinding}
use llm_broker.Driver.{SchedulerDriver, Continuity, prefer, require}
use llm_broker.Store.{get_binding, get_session_binding}
use llm_broker.Pool.{Pool, Env, reload_state}
use llm_broker.Pool.Routes.{route_eq}
use llm_broker.Pool.Results.{
  PoolError, Result, ok, err, refresh_failed, binding_failed, affinity_owner_missing,
  affinity_owner_unavailable, no_available_accounts,
}
use llm_broker.Pool.Availability.{Exclusion, RouteRequest}
use llm_broker.Pool.Choice.{AttemptLease}
use llm_broker.Pool.Acquire.{acquire_locked}
use llm_broker.Pool.Lease.{release_affinity_claim, finish}

unfoldable pub account_for_target : String → String → List Account → Option Account
account_for_target provider subject [] = none
account_for_target provider subject (a ∷ as') =
    if a.provider == provider && a.subject == subject
    then some a
    else account_for_target provider subject as'

abbrev id_or_empty : Option Account → String
id_or_empty none = ""
id_or_empty (some a) = a.id

unfoldable pub account_id_for_binding : Pool → Option SessionBinding → String
unfolding account_for_target
account_id_for_binding p none = ""
account_id_for_binding p (some b) =
    id_or_empty (account_for_target b.provider b.subject (values p.accounts))

-- What one round of the loop in AcquireRoute ends with. On `waits` the caller blocks until the
-- claim's channel is closed, and goes round again, or gives up with its context.
pub data Outcome : Type 0 where
  granted : AttemptLease → Outcome
  refused : PoolError → Outcome
  waits : ℕ → Outcome

abbrev pub Round : Type 0
Round = Pool × Outcome

abbrev pub requires : Continuity → Bool
requires require = true
requires prefer = false

unfoldable pub load_binding : Env → RouteRequest → Pool → Result (Option SessionBinding)
load_binding e req p =
    if req.hard_account_id == "" && not (req.affinity_key == "")
    then if e.answers (get_binding req.affinity_key)
      then ok (get_session_binding e.now req.affinity_key p.store)
      else err binding_failed
    else ok none

pub pinned_here : SchedulerDriver → Option Account → Bool
pinned_here drv none = false
pinned_here drv (some a) = a.provider == drv.provider

-- The last part of a round: a claim on the affinity key, and any account.
unfoldable pub claimed : Env → SchedulerDriver → RouteRequest → Option ℕ → Pool → Round
claimed e drv req claim p = elim (acquire_locked e drv req "" claim p) [
  | ok (q, lease) ↦ (q, granted lease)
  | err x ↦ (release_affinity_claim req.affinity_key claim p, refused x)
]

-- A new claim on a key.
unfoldable pub add_claim : String → Pool → Pool
add_claim key p = record p {
  affinity_claims = insert key p.next_claim p.affinity_claims;
  next_claim = suc p.next_claim;
}

unfoldable pub claim_and_acquire : Env → SchedulerDriver → RouteRequest → Pool → Round
unfolding claimed
claim_and_acquire e drv req p =
    if req.affinity_key == ""
    then claimed e drv req none p
    else elim (lookup req.affinity_key p.affinity_claims) [
      | some c ↦ (p, waits c)
      | none ↦ claimed e drv req (some p.next_claim) (add_claim req.affinity_key p)
    ]

pub has_binding : Option SessionBinding → Bool
has_binding none = false
has_binding (some _) = true

unfoldable pub without_target :
    Env → SchedulerDriver → RouteRequest → Option SessionBinding → Pool → Round
unfolding has_binding
without_target e drv req b p =
    if not (req.affinity_key == "") && (not (has_binding b) && requires req.continuity)
    then (p, refused affinity_owner_missing)
    else claim_and_acquire e drv req p

-- With a bound account: a pin decides, and so does a required owner.
unfoldable pub try_bound :
    Env → SchedulerDriver → RouteRequest → Option SessionBinding → String → Pool → Round
try_bound e drv req b bound p = elim (acquire_locked e drv req bound none p) [
  | ok (q, lease) ↦ (q, granted lease)
  | err x ↦
      if not (req.hard_account_id == "")
      then (p, refused x)
      else if requires req.continuity
      then (p, refused affinity_owner_unavailable)
      else without_target e drv req b p
]

unfoldable pub resolve_bound :
    Env → SchedulerDriver → RouteRequest → Option SessionBinding → Pool → Round
unfolding has_binding
resolve_bound e drv req b p =
    let bound : String =
      if req.hard_account_id == "" then account_id_for_binding p b else req.hard_account_id in
    if bound == ""
    then if has_binding b && requires req.continuity
      then (p, refused affinity_owner_unavailable)
      else without_target e drv req b p
    else try_bound e drv req b bound p

-- A binding to another provider is dropped, or fails a request that requires it.
unfoldable pub drop_foreign :
    Env → SchedulerDriver → RouteRequest → Option SessionBinding → Pool → Round
drop_foreign e drv req none p = resolve_bound e drv req none p
drop_foreign e drv req (some b) p =
    if b.provider == drv.provider
    then resolve_bound e drv req (some b) p
    else if requires req.continuity
    then (p, refused affinity_owner_unavailable)
    else resolve_bound e drv req none p

unfoldable pub check_pin :
    Env → SchedulerDriver → RouteRequest → Option SessionBinding → Pool → Round
unfolding pinned_here
check_pin e drv req b p =
    if requires req.continuity
      && (req.affinity_key == "" && not (pinned_here drv (lookup req.hard_account_id p.accounts)))
    then (p, refused affinity_owner_missing)
    else drop_foreign e drv req b p

-- One round of the loop.
unfoldable pub acquire_route : Env → SchedulerDriver → RouteRequest → Pool → Round
acquire_route e drv req p = elim (reload_state e p) [
  | none ↦ (p, refused refresh_failed)
  | some q ↦ elim (load_binding e req q) [ err x ↦ (q, refused x) | ok b ↦ check_pin e drv req b q ]
]

unfoldable pub pick_outcome : Pool → Outcome → Pool × Result Account
pick_outcome p (granted l) = ((finish l p).0, ok l.account)
pick_outcome p (refused x) = (p, err x)
pick_outcome p (waits c) = (p, err no_available_accounts)

-- PickForSurface: a route with no affinity key, whose lease is given back at once. Such a route
-- never waits.
unfoldable pub pick_for_surface :
    Env → SchedulerDriver → List Exclusion → String → String → String → Pool → Pool × Result Account
unfolding pick_outcome
pick_for_surface e drv exclusions model bound surface p =
    let (q, o) =
      acquire_route e drv
        (record {
          exclusions = exclusions;
          model = model;
          surface = surface;
          hard_account_id = bound;
          affinity_key = "";
          continuity = prefer;
        })
        p in
    pick_outcome q o
