-- ===== src/Tests/Acquires.antt =====
-- Acquiring routes on the fixture.
use llm_broker.Prelude.{
  String, ◌≡◌, ◌≢◌, refl, true, false, none, some, inl, Mem, lookup, values, insert, string_eq,
}
use text.Mathlib.TextEquality.{eq_iff}
use llm_broker.Domain.{Account}
use llm_broker.Pool.{Pool, bucket_key, bucket_of, bucket_cooldown, bucket_state}
use llm_broker.Pool.Results.{ok}
use llm_broker.Pool.Availability.{
  qualifies, excludes_account, excludes_bucket, allowed_on_surface, structurally_available,
  capacity_assessment,
}
use llm_broker.Pool.Availability.Serves.{CanServe, qualifies_iff}
use llm_broker.Pool.Choice.{
  collect, sort_by_key, least_inflight, select, lease_account, BucketCandidate,
}
use llm_broker.Pool.Acquire.{Granted, acquire_any, acquire_locked, candidates, choose_from}
use llm_broker.Pool.Acquire.Sound.{
  Beats, acquire_any-CanServe, acquire_any_complete, acquire_any_best,
}
use llm_broker.Pool.Acquire.Bound.{LeaseOf, acquire_locked_bound}
use llm_broker.Pool.Route.{acquire_route}
use llm_broker.Pool.Route.Effects.{RoundEffect, acquire_route-Effect}
use llm_broker.Tests.Fixture.{world, driver, pool, request, first}

first-qualifies : qualifies world driver request pool first ≡ true
unfolding qualifies excludes_account excludes_bucket allowed_on_surface
    llm_broker.Domain.Surfaces.normalize_surface llm_broker.Pool.Buckets.cell_of
    structurally_available bucket_cooldown bucket_of lookup bucket_key capacity_assessment
first-qualifies = refl

qualifies_iff_example : CanServe world driver request pool first
qualifies_iff_example = (qualifies_iff world driver request pool first).0 first-qualifies

pub first_serves : CanServe world driver request pool first
first_serves = (qualifies_iff world driver request pool first).0 first-qualifies

abbrev lease_of_first : Granted
lease_of_first = lease_account first "std" "k" none pool

leased : acquire_any world driver request none pool ≡ ok lease_of_first
unfolding acquire_any qualifies collect sort_by_key choose_from candidates excludes_account
    excludes_bucket allowed_on_surface llm_broker.Domain.Surfaces.normalize_surface
    llm_broker.Pool.Buckets.cell_of structurally_available bucket_cooldown bucket_of lookup
    bucket_key capacity_assessment insert select least_inflight
leased = refl

acquire_any-CanServe_example :
    (a : Account) × (class : String) × Mem a (values pool.accounts)
    × CanServe world driver request pool a
    × (lease_of_first ≡ lease_account a class "k" none pool)
acquire_any-CanServe_example =
    acquire_any-CanServe world driver request pool none lease_of_first leased

acquire_any_complete_example : (g : Granted) × (acquire_any world driver request none pool ≡ ok g)
acquire_any_complete_example =
    acquire_any_complete world driver request pool none first (inl refl) first_serves

acquire_any_best_example :
    (w : Account) × (b : BucketCandidate) × (lookup
        (bucket_key w)
        (candidates world driver request pool)
      ≡ some b)
    × (lease_of_first ≡ lease_account w b.class "k" none pool)
    × ((c : Account)
        → Mem c (values pool.accounts)
        → CanServe world driver request pool c
        → Beats world driver request pool w b c)
acquire_any_best_example = acquire_any_best world driver request pool none lease_of_first leased

abbrev bound_id : String
bound_id = "a"

abbrev no_id : String
no_id = ""

false_is_not : ¬ (false ≡ true)
false_is_not h = cc

a_named : bound_id ≢ no_id
a_named q = absurd (false_is_not ((eq_iff bound_id no_id).1 q))

acquire_locked_bound_example :
    acquire_locked world driver request "a" none pool
    ≡ ok (LeaseOf world driver request none pool first)
unfolding lookup
acquire_locked_bound_example =
    (acquire_locked_bound world driver request none pool "a" first
        (LeaseOf world driver request none pool first) a_named refl refl).1
      (first_serves, refl)

acquire_route-Effect_example :
    RoundEffect world driver request pool (acquire_route world driver request pool)
acquire_route-Effect_example = acquire_route-Effect world driver request pool
