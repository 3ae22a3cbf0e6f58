-- ===== src/Tests/Routes.antt =====
-- A route that is acquired and finished.
use llm_broker.Prelude.{ℕ, String, ◌≡◌, ◌<◌, arith, refl, none, some, [], ◌∷◌, lookup}
use llm_broker.Pool.{Pool, load}
use llm_broker.Pool.Acquire.{Granted}
use llm_broker.Pool.Choice.{lease_account}
use llm_broker.Pool.Protocol.{System, Reach, here, next, acquires, finishes}
use llm_broker.Pool.Protocol.Inflight.{IsExact, Reach-IsExact}
use llm_broker.Pool.Protocol.Pending.{Pending}
use llm_broker.Pool.Protocol.Claims.{IsLive, Reach-IsLive}
use llm_broker.Pool.Route.{acquire_route, granted, add_claim}
use llm_broker.Pool.Lease.{finish}
use llm_broker.Tests.Fixture.{world, driver, pool, request, first}

abbrev idle : System
idle = record { pool = pool; leases = [] }

idle-IsExact : IsExact idle
unfolding llm_broker.Prelude.count_if lookup
idle-IsExact k = refl

none-Pending : (key : String) (c : ℕ) → ¬ Pending pool key c
unfolding lookup
none-Pending key c h = ground arith

nothing_below : (c : ℕ) → ¬ (c < 0)
nothing_below c h = ground arith

idle-IsLive : IsLive idle
idle-IsLive = record {
  owned = λ key c h. absurd (none-Pending key c h);
  woken = λ c h. absurd (nothing_below c h);
}

abbrev loaded : Pool
loaded = load world pool

-- The first lease on the key "k" has a claim on it.
abbrev taken : Granted
taken = lease_account first "std" "k" (some 0) (add_claim "k" loaded)

takes : acquire_route world driver request pool ≡ (taken.0, granted taken.1)
unfolding acquire_route llm_broker.Pool.reload_state llm_broker.Pool.Route.load_binding
    llm_broker.Pool.Route.check_pin llm_broker.Pool.Route.drop_foreign
    llm_broker.Store.get_session_binding lookup load llm_broker.Pool.Route.resolve_bound
    llm_broker.Pool.Route.account_id_for_binding llm_broker.Pool.Route.without_target
    llm_broker.Pool.Route.claim_and_acquire llm_broker.Pool.Acquire.acquire_locked
    llm_broker.Pool.Acquire.acquire_any llm_broker.Pool.Acquire.choose_from
    llm_broker.Pool.Choice.sort_by_key llm_broker.Pool.Acquire.candidates
    llm_broker.Pool.Choice.collect llm_broker.Domain.Accounts.hydrate_account
    llm_broker.Domain.Surfaces.normalize_surface llm_broker.Pool.Availability.allowed_on_surface
    llm_broker.Pool.Availability.capacity_assessment llm_broker.Pool.Availability.excludes_account
    llm_broker.Pool.Availability.excludes_bucket llm_broker.Pool.Availability.qualifies
    llm_broker.Pool.Availability.structurally_available llm_broker.Pool.Buckets.cell_of
    llm_broker.Pool.Choice.least_inflight llm_broker.Pool.Choice.select add_claim
    llm_broker.Pool.Route.claimed llm_broker.Pool.bucket_cooldown llm_broker.Pool.bucket_key
    llm_broker.Pool.bucket_of llm_broker.Pool.bucket_state llm_broker.Pool.index_accounts
    llm_broker.Pool.index_buckets llm_broker.Pool.index_cells llm_broker.Pool.seed_bucket
    llm_broker.Pool.seed_buckets llm_broker.Prelude.insert llm_broker.Domain.Cells.hydrate_proxy
    llm_broker.Domain.Cells.hydrate_strings
takes = refl

abbrev busy : System
busy = record { pool = taken.0; leases = taken.1 ∷ [] }

abbrev done : System
done = record { pool = (finish taken.1 taken.0).0; leases = (finish taken.1 taken.0).1 ∷ [] }

round_trip : Reach idle done
round_trip = next (next here (acquires world driver request takes)) (finishes [] taken.1 [])

Reach-IsExact_example : IsExact done
Reach-IsExact_example = Reach-IsExact idle-IsExact round_trip

Reach-IsLive_example : IsLive done
Reach-IsLive_example = Reach-IsLive idle-IsLive round_trip
