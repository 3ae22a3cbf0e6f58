-- ===== src/Pool/Lease.antt =====
-- internal/pool/pool_schedule.go: affinity claims and the life of a lease.
use llm_broker.Prelude.{
  ℕ, ◌+◌, ◌-◌, String, true, ◌∷◌, Option, none, some, lookup, insert, delete, ◌==◌, string_eq,
  nat_beq, if◌then◌else◌,
}
use llm_broker.Domain.{Account, SessionBinding}
use llm_broker.Store.{save_binding}
use llm_broker.Pool.{Pool, Env, write}
use llm_broker.Pool.Routes.{RouteKey, RouteLoad, route_eq}
use llm_broker.Pool.Results.{
  PoolError, Result, ok, err, store_failed, binding_target_missing, lease_finished,
}
use llm_broker.Pool.Choice.{AttemptLease}

-- Closes the channel of the claim, if it is the one that the key has.
unfoldable pub release_affinity_claim : String → Option ℕ → Pool → Pool
release_affinity_claim key none p = p
release_affinity_claim key (some c) p =
    if key == "" then p else elim (lookup key p.affinity_claims) [
      | none ↦ p
      | some d ↦
          if nat_beq d c
          then record p {
            affinity_claims = delete key p.affinity_claims;
            closed_claims = c ∷ p.closed_claims;
          }
          else p
    ]

-- internal/pool/pool_runtime.go
unfoldable pub binding_row : Env → String → Account → ℕ → SessionBinding
binding_row e uuid a ttl = record {
  session_uuid = uuid;
  provider = a.provider;
  subject = a.subject;
  created_at = e.now;
  last_used_at = e.now;
  expires_at = e.now + ttl;
}

unfoldable pub set_session_binding : Env → String → Account → ℕ → Pool → Result Pool
unfolding binding_row
set_session_binding e uuid a ttl p =
    if a.subject == ""
    then err binding_target_missing
    else if e.accepts (save_binding (binding_row e uuid a ttl))
    then ok (write e (save_binding (binding_row e uuid a ttl)) p)
    else err store_failed

settle : AttemptLease → Pool → Pool × AttemptLease × Option PoolError
settle l p = (release_affinity_claim l.affinity_key l.claim p, record l { accepted = true }, none)

-- The error of the call is the last part.
unfoldable pub accept : Env → ℕ → AttemptLease → Pool → Pool × AttemptLease × Option PoolError
unfolding settle
accept e ttl l p =
    if l.terminal
    then (p, l, some lease_finished)
    else if l.accepted
    then (p, l, none)
    else if l.affinity_key == ""
    then settle l p
    else elim (set_session_binding e l.affinity_key l.account ttl p) [
      | err x ↦ (release_affinity_claim l.affinity_key l.claim p, l, some x)
      | ok q ↦ settle l q
    ]

lower : RouteLoad → RouteLoad
lower load = record load { inflight = load.inflight - 1 }

unfoldable pub lower_load : RouteKey → Pool → Pool
unfolding lower
lower_load key p = elim (lookup key p.route_loads) [
  | none ↦ p
  | some load ↦ record p { route_loads = insert key (lower load) p.route_loads }
]

-- `Finish` and `Abort`. The count is lowered where it is not 0, so truncated `-` is exact.
unfoldable pub finish : AttemptLease → Pool → Pool × AttemptLease
unfolding lower_load
finish l p = if l.terminal then (p, l) else (
  release_affinity_claim l.affinity_key l.claim (lower_load l.load_key p),
  record l { terminal = true },
)
