-- ===== src/Pool/Buckets/Join.antt =====
-- The cooldown join of pool_accounts.go as the maximum of times.
use llm_broker.Prelude.{ℕ, ◌≤◌, max, true, ◌≡◌, ◌↔◌, some, arith}
use llm_broker.Domain.{QuotaBucket}
use llm_broker.Pool.Buckets.{time_or_zero, join_cooldown}

-- A join leaves the later of the two times, reports it, and says whether it was the proposed one.
pub join_cooldown-max :
    (b : QuotaBucket) (t : ℕ)
    → let r = join_cooldown b t in
      (r.1.actual ≡ max (time_or_zero b.cooldown_until) t)
      × (r.0.cooldown_until ≡ some r.1.actual)
      × ((r.1.applied ≡ true) ↔ (time_or_zero b.cooldown_until ≤ t))
unfolding join_cooldown
join_cooldown-max b t = (ground arith, ground arith, (λ h. ground arith, λ h. ground arith))

-- The order in which two cooldowns arrive does not matter, and one that arrives again is absorbed.
pub join_cooldown_comm :
    (b : QuotaBucket) (s t : ℕ)
    → ((join_cooldown (join_cooldown b s).0 t).0 ≡ (join_cooldown (join_cooldown b t).0 s).0)
      × ((join_cooldown (join_cooldown b s).0 s).0 ≡ (join_cooldown b s).0)
unfolding join_cooldown
join_cooldown_comm b s t = (ground arith, ground arith)
