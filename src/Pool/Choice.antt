-- ===== src/Pool/Choice.antt =====
-- internal/pool/pool_schedule.go: the candidates of a request, the choice among them, and the lease
-- of the chosen account.
pub mod Best
pub mod Scan
use llm_broker.Prelude.{
  ℕ, ◌+◌, ◌%◌, ◌^◌, String, Bool, false, ◌&&◌, ◌||◌, List, [], ◌∷◌, Option, none, some, Map, lookup,
  insert, string_eq, nat_eq, nat_beq, if◌then◌else◌, ltb, str_lt,
}
use llm_broker.Prelude.Int.{ℤ, ltb_ℤ}
use llm_broker.Domain.{Account}
use llm_broker.Driver.{SchedulerDriver, CapacityAssessment}
use llm_broker.Pool.{Pool, Env, bucket_key}
use llm_broker.Pool.Routes.{RouteKey, RouteLoad, idle_load, score, route_eq, Float64}
use llm_broker.Pool.Buckets.{time_or_zero, project_account}
use llm_broker.Pool.Availability.{RouteRequest, qualifies, capacity_assessment}

-- A lease of one attempt. `claim` is the claim on its affinity key that it holds, if any.
pub record AttemptLease : Type 0 where
  pub load_key : RouteKey
  pub account : Account
  pub affinity_key : String
  pub claim : Option ℕ
  pub accepted : Bool
  pub terminal : Bool

pub record BucketCandidate : Type 0 where
  pub key : String
  pub accts : List Account
  pub priority : ℤ
  pub class : String

abbrev max_priority : ℤ → ℤ → ℤ
max_priority old new = if ltb_ℤ old new then new else old

snoc : List Account → Account → List Account
snoc [] a = a ∷ []
snoc (x ∷ xs) a = x ∷ snoc xs a

unfoldable pub add_candidate :
    String → CapacityAssessment → Account → Option BucketCandidate → BucketCandidate
unfolding snoc
add_candidate key cap a none = record {
  key = key;
  accts = a ∷ [];
  priority = cap.priority;
  class = cap.class;
}
add_candidate key cap a (some b) = record b {
  accts = snoc b.accts a;
  priority = max_priority b.priority cap.priority;
}

-- The scan over the accounts.
unfoldable pub collect :
    Env
    → SchedulerDriver
    → RouteRequest
    → Pool
    → List Account
    → Map String BucketCandidate
    → Map String BucketCandidate
unfolding add_candidate
collect e drv req p [] m = m
collect e drv req p (a ∷ as') m = collect e drv req p as' (
    if qualifies e drv req p a
    then insert (bucket_key a)
        (add_candidate (bucket_key a) (capacity_assessment p drv req.model e.now a) a
          (lookup (bucket_key a) m))
        m
    else m)

-- sort.Slice by key; the keys are distinct.
insert_by_key : BucketCandidate → List BucketCandidate → List BucketCandidate
insert_by_key b [] = b ∷ []
insert_by_key b (c ∷ cs) = if str_lt c.key b.key then c ∷ insert_by_key b cs else b ∷ (c ∷ cs)

unfoldable pub sort_by_key : List BucketCandidate → List BucketCandidate
unfolding insert_by_key
sort_by_key [] = []
sort_by_key (b ∷ bs) = insert_by_key b (sort_by_key bs)

abbrev pub or_idle : Option RouteLoad → RouteLoad
or_idle none = idle_load
or_idle (some l) = l

unfoldable pub load_of : Pool → String → BucketCandidate → RouteLoad
load_of p provider b =
    or_idle (lookup (record { provider = provider; bucket = b.key; class = b.class }) p.route_loads)

-- Does the candidate go before the best one so far?
unfoldable pub goes_before : Pool → Float64 → String → BucketCandidate → BucketCandidate → Bool
goes_before p f provider c best =
    let load : RouteLoad = load_of p provider c in
    let best_load : RouteLoad = load_of p provider best in
    ltb (score f load c.priority) (score f best_load best.priority)
    || (nat_beq (score f load c.priority) (score f best_load best.priority)
        && (ltb load.last_assigned best_load.last_assigned
            || (nat_beq load.last_assigned best_load.last_assigned && str_lt c.key best.key)))

-- The loop keeps the best candidate so far.
unfoldable pub least_inflight :
    Pool → Float64 → String → BucketCandidate → List BucketCandidate → BucketCandidate
least_inflight p f provider best [] = best
least_inflight p f provider best (c ∷ cs) =
    least_inflight p f provider (if goes_before p f provider c best then c else best) cs

unfoldable pub least_recently_used : Account → List Account → Account
least_recently_used best [] = best
least_recently_used best (a ∷ as') =
    least_recently_used
      (if ltb (time_or_zero a.last_used_at) (time_or_zero best.last_used_at) then a else best) as'

-- The accounts of a candidate are not empty; `none` would be the source's nil.
unfoldable pub select : BucketCandidate → Option Account
unfolding least_recently_used
select b = elim b.accts [ [] ↦ none | a ∷ as' ↦ some (least_recently_used a as') ]

unfoldable pub assign : ℕ → RouteLoad → RouteLoad
assign seq load = record { inflight = load.inflight + 1; last_assigned = seq }

-- `routeSeq` is a uint64.
unfoldable pub lease_account : Account → String → String → Option ℕ → Pool → Pool × AttemptLease
unfolding assign
lease_account a class affinity_key claim p =
    let key : RouteKey = record { provider = a.provider; bucket = bucket_key a; class = class } in
    let seq : ℕ = (p.route_seq + 1) % 2 ^ 64 in
    (
      record p {
        route_seq = seq;
        route_loads = insert key (assign seq (or_idle (lookup key p.route_loads))) p.route_loads;
      },
      record {
        load_key = key;
        account = project_account p a;
        affinity_key = affinity_key;
        claim = claim;
        accepted = false;
        terminal = false;
      },
    )
