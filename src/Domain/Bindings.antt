-- ===== src/Domain/Bindings.antt =====
-- internal/domain/session_binding.go, stainless_binding.go, oauth_session_state.go and
-- refresh_lock.go: the records that expire.
use llm_broker.Prelude.{ℕ, String}

pub record SessionBinding : Type 0 where
  pub session_uuid : String
  pub provider : String
  pub subject : String
  pub created_at : ℕ
  pub last_used_at : ℕ
  pub expires_at : ℕ

pub record StainlessBinding : Type 0 where
  pub account_id : String
  pub headers_json : String
  pub created_at : ℕ
  pub expires_at : ℕ

pub record OauthSession : Type 0 where
  pub session_id : String
  pub data_json : String
  pub created_at : ℕ
  pub expires_at : ℕ

pub record RefreshLock : Type 0 where
  pub account_id : String
  pub lock_id : String
  pub created_at : ℕ
  pub expires_at : ℕ
