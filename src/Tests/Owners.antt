-- ===== src/Tests/Owners.antt =====
-- A route for a key that is bound to an account.
use llm_broker.Prelude.{ℕ, String, ◌≡◌, ◌≢◌, refl, none, some, [], ◌∷◌, lookup, arith}
use text.Mathlib.TextEquality.{eq_iff}
use llm_broker.Domain.{SessionBinding}
use llm_broker.Driver.{require}
use llm_broker.Pool.{Pool, load, reload_state}
use llm_broker.Pool.Availability.{RouteRequest}
use llm_broker.Pool.Route.{acquire_route, add_claim}
use llm_broker.Pool.Route.Owner.{IsGranted, OwnerServes, required_owner}
use llm_broker.Tests.Fixture.{world, driver, pool, store, request}

abbrev binding : SessionBinding
binding = record {
  session_uuid = "k";
  provider = "codex";
  subject = "a";
  created_at = 1;
  last_used_at = 1;
  expires_at = 9000;
}

-- The same pool with the key "k" bound to the first account.
abbrev bound_pool : Pool
bound_pool = record pool { store = record store { session_bindings = ("k", binding) ∷ [] } }

abbrev owner_only : RouteRequest
owner_only = record request { affinity_key = "k"; continuity = require }

owner-IsGranted : IsGranted (acquire_route world driver owner_only bound_pool)
unfolding acquire_route llm_broker.Pool.reload_state llm_broker.Pool.Route.load_binding
    llm_broker.Pool.Route.check_pin llm_broker.Pool.Route.drop_foreign
    llm_broker.Store.get_session_binding lookup load llm_broker.Pool.Route.resolve_bound
    llm_broker.Pool.Route.account_id_for_binding llm_broker.Pool.Route.without_target
    llm_broker.Pool.Route.claim_and_acquire llm_broker.Pool.Acquire.acquire_locked
    llm_broker.Pool.Acquire.acquire_any llm_broker.Pool.Acquire.choose_from
    llm_broker.Pool.Choice.sort_by_key llm_broker.Pool.Acquire.candidates
    llm_broker.Pool.Choice.collect llm_broker.Domain.Accounts.hydrate_account
    llm_broker.Domain.Surfaces.normalize_surface llm_broker.Pool.Availability.allowed_on_surface
    llm_broker.Pool.Availability.capacity_assessment llm_broker.Pool.Availability.excludes_account
    llm_broker.Pool.Availability.excludes_bucket llm_broker.Pool.Availability.qualifies
    llm_broker.Pool.Availability.structurally_available llm_broker.Pool.Buckets.cell_of
    llm_broker.Pool.Choice.least_inflight llm_broker.Pool.Choice.select add_claim
    llm_broker.Pool.Route.claimed llm_broker.Pool.bucket_cooldown llm_broker.Pool.bucket_key
    llm_broker.Pool.bucket_of llm_broker.Pool.bucket_state llm_broker.Pool.index_accounts
    llm_broker.Pool.index_buckets llm_broker.Pool.index_cells llm_broker.Pool.seed_bucket
    llm_broker.Pool.seed_buckets llm_broker.Prelude.insert llm_broker.Domain.Cells.hydrate_proxy
    llm_broker.Domain.Cells.hydrate_strings llm_broker.Pool.Route.try_bound
    llm_broker.Pool.Acquire.acquire_bound
owner-IsGranted = tt

key_named : ◌≢◌ {A = String} "k" ""
key_named = ground (arith, eq_iff "k" "")

required_owner_example :
    (r : Pool) × (reload_state world bound_pool ≡ some r)
    × OwnerServes world driver owner_only r (acquire_route world driver owner_only bound_pool)
required_owner_example =
    required_owner world driver owner_only bound_pool refl refl key_named owner-IsGranted
