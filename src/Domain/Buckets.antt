-- ===== src/Domain/Buckets.antt =====
-- internal/domain/quota_bucket.go.
use llm_broker.Prelude.{ℕ, String, Option}

pub record QuotaBucket : Type 0 where
  pub bucket_key : String
  pub provider : String
  pub cooldown_until : Option ℕ
  pub state_json : String
  pub updated_at : ℕ
