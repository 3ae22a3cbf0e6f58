-- ===== src/Pool/Results.antt =====
-- The errors of internal/pool, and the result of an operation that may fail.
use llm_broker.Prelude.{String, ◌≡◌}
use llm_broker.Domain.{Status}

pub data PoolError : Type 0 where
  refresh_failed binding_failed store_failed cell_id_required binding_target_missing : PoolError
  lease_finished affinity_owner_missing no_available_accounts : PoolError
  affinity_owner_unavailable : PoolError
  account_not_found : String → PoolError
  bound_account_excluded bound_bucket_excluded bound_not_found : String → PoolError
  bound_unavailable : String → Status → PoolError

pub data Result {ℓ} (A : Type ℓ) : Type ℓ where
  ok : A → Result A
  err : PoolError → Result A

pub ok-injective {ℓ} : {A : Type ℓ} (a b : A) → ok a ≡ ok b → a ≡ b
ok-injective a b h = cc
