-- ===== src/Pool/Availability.antt =====
-- internal/pool/pool_schedule.go: which accounts can serve a request.
pub mod Serves
use llm_broker.Prelude.{
  ℕ, String, Bool, true, false, ◌&&◌, ◌||◌, not, List, [], ◌∷◌, Option, none, some, Map, lookup,
  ◌==◌, string_eq, nat_eq, if◌then◌else◌,
}
use llm_broker.Domain.{
  Account, is_active, provider_claude, EgressCell, Surface, native, compat, any, unset,
  normalize_surface,
}
use llm_broker.Driver.{SchedulerDriver, CapacityAssessment, Continuity}
use llm_broker.Pool.{Pool, Env, bucket_key, bucket_state, bucket_cooldown}
use llm_broker.Pool.Routes.{route_eq}
use llm_broker.Pool.Buckets.{ends_after, cell_of}
use llm_broker.Pool.Cells.{cell_available}

pub record Exclusion : Type 0 where
  pub account_id : String
  pub bucket_key : String

pub record RouteRequest : Type 0 where
  pub exclusions : List Exclusion
  pub model : String
  pub surface : String
  pub hard_account_id : String
  pub affinity_key : String
  pub continuity : Continuity

unfoldable pub structurally_available : Pool → ℕ → Account → Bool
structurally_available p now a =
    if not (is_active a.status)
    then false
    else if not (a.cell_id == "") && not (cell_available now (cell_of p a.cell_id))
    then false
    else not (ends_after (bucket_cooldown p a) now)

unfoldable pub is_available : Pool → SchedulerDriver → String → ℕ → Account → Bool
is_available p drv model now a =
    structurally_available p now a && (drv.assess_capacity (bucket_state p a) model now).eligible

abbrev label : String → Option (Map String String) → String
label k none = ""
label k (some m) = elim (lookup k m) [ none ↦ "" | some v ↦ v ]

unfoldable pub cell_lane : Option EgressCell → Surface
cell_lane none = unset
cell_lane (some c) = normalize_surface (label "lane" c.labels)

abbrev compat_lane : Surface → Bool
compat_lane compat = true
compat_lane any = true
compat_lane _ = false

abbrev native_lane : Surface → Bool
native_lane compat = false
native_lane _ = true

unfoldable pub lane_serves : Surface → Option EgressCell → Bool
lane_serves unset c = true
lane_serves any c = true
lane_serves compat none = false
lane_serves compat (some c) = compat_lane (cell_lane (some c))
lane_serves native none = true
lane_serves native (some c) = native_lane (cell_lane (some c))

-- Accounts of Claude serve every surface; those of others by the lane of their cell.
unfoldable pub allowed_on_surface : Pool → Account → String → Bool
unfolding lane_serves
allowed_on_surface p a surface =
    if a.provider == provider_claude
    then true
    else lane_serves (normalize_surface surface) (cell_of p a.cell_id)

unfoldable pub capacity_assessment :
    Pool → SchedulerDriver → String → ℕ → Account → CapacityAssessment
capacity_assessment p drv model now a =
    let assessment : CapacityAssessment = drv.assess_capacity (bucket_state p a) model now in
    if a.priority_mode == "auto" then assessment else record assessment { priority = a.priority }

unfoldable pub excludes_account : List Exclusion → String → Bool
excludes_account [] id = false
excludes_account (x ∷ xs) id =
    (not (x.account_id == "") && x.account_id == id) || excludes_account xs id

unfoldable pub excludes_bucket : List Exclusion → String → Bool
excludes_bucket [] key = false
excludes_bucket (x ∷ xs) key =
    (not (x.bucket_key == "") && x.bucket_key == key) || excludes_bucket xs key

-- The guards of the scan, in the source's order, over one account.
unfoldable pub qualifies : Env → SchedulerDriver → RouteRequest → Pool → Account → Bool
qualifies e drv req p a =
    if excludes_account req.exclusions a.id
    then false
    else if not (a.provider == drv.provider)
    then false
    else if excludes_bucket req.exclusions (bucket_key a)
    then false
    else if not (allowed_on_surface p a req.surface)
    then false
    else if not (structurally_available p e.now a)
    then false
    else (capacity_assessment p drv req.model e.now a).eligible
