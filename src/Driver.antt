-- ===== src/Driver.antt =====
-- internal/driver: the values and the interface by which the pool schedules without knowing a
-- provider. A driver is a record of functions; the pool is given one for each provider.
use llm_broker.Prelude.{ℕ, String, Bool}
use llm_broker.Prelude.Int.{ℤ}
use llm_broker.Domain.{Account}

pub data EffectKind : Type 0 where
  success cooldown reject overload block auth_fail server_error : EffectKind

pub data EffectScope : Type 0 where
  account bucket : EffectScope

pub record Effect : Type 0 where
  pub kind : EffectKind
  pub scope : EffectScope
  pub cooldown_until : ℕ
  pub error_message : String
  pub upstream_status : ℕ
  pub upstream_error_type : String
  pub upstream_error_message : String
  pub updated_state : String

-- AffinityContinuity: every text but "require" lets a request move.
pub data Continuity : Type 0 where
  prefer require : Continuity

pub record CapacityAssessment : Type 0 where
  pub eligible : Bool
  pub priority : ℤ
  pub class : String

pub record SchedulerDriver : Type 0 where
  pub provider : String
  pub bucket_key : Account → String
  pub assess_capacity : String → String → ℕ → CapacityAssessment
  pub is_stale : String → ℕ → Bool
  pub compute_exhausted_cooldown : String → ℕ → ℕ
