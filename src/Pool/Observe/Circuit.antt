-- ===== src/Pool/Observe/Circuit.antt =====
-- internal/pool/pool_observe.go: the circuit breaker of Observe.
use llm_broker.Prelude.{◌+◌, ◌*◌, ◌≡◌, refl, string_eq}
use llm_broker.Domain.{QuotaBucket}
use llm_broker.Pool.{Pool, Env, put_account}
use llm_broker.Pool.Buckets.{join_cooldown}
use llm_broker.Pool.Messages.{second}
use llm_broker.Pool.Observe.{Seen, change_account, touch}

touch_keeps :
    (e : Env) (s : Seen)
    → ((touch e s).pool.buckets ≡ s.pool.buckets)
      × ((touch e s).pool.server_err_count ≡ s.pool.server_err_count)
      × ((touch e s).bucket ≡ s.bucket)
unfolding touch change_account put_account
touch_keeps e s = (refl, refl, refl)

abbrev joined : Env → QuotaBucket → QuotaBucket
joined e b = record ((join_cooldown b (e.now + 30 * second)).0) { updated_at = e.now }
