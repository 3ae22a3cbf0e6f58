-- ===== src/Store.antt =====
-- internal/store: what the broker persists, as the tables of internal/store/mock_store.go. The
-- SQL store answers the same calls by one statement each over tables of the same keys.
pub mod Expiring
pub mod Locks
pub mod Ttl
pub mod Users
use llm_broker.Prelude.{
  ℕ, String, Bool, ◌&&◌, List, [], ◌∷◌, Option, none, some, Map, lookup, insert, delete, ltb, ◌==◌,
  string_eq, if◌then◌else◌,
}
use llm_broker.Domain.{
  Account, EgressCell, QuotaBucket, SessionBinding, StainlessBinding, OauthSession, RefreshLock,
}

pub record Store : Type 0 where
  pub accounts : Map String Account
  pub cells : Map String EgressCell
  pub buckets : Map String QuotaBucket
  pub session_bindings : Map String SessionBinding
  pub stainless : Map String StainlessBinding
  pub oauth_sessions : Map String OauthSession
  pub refresh_locks : Map String RefreshLock

-- The calls that answer rows, and those that change rows. Any of them can fail.
pub data Read : Type 0 where
  list_accounts list_cells list_buckets : Read
  get_binding : String → Read
  bindings_of : String → String → Read

pub data Write : Type 0 where
  save_account : Account → Write
  delete_account : String → Write
  save_cell : EgressCell → Write
  save_bucket : QuotaBucket → Write
  delete_bucket : String → Write
  save_binding : SessionBinding → Write
  delete_binding : String → Write

unfoldable pub apply : Write → Store → Store
apply (save_account a) s = record s { accounts = insert a.id a s.accounts }
apply (delete_account id) s = record s { accounts = delete id s.accounts }
apply (save_cell c) s = record s { cells = insert c.id c s.cells }
apply (save_bucket b) s = record s { buckets = insert b.bucket_key b s.buckets }
apply (delete_bucket k) s = record s { buckets = delete k s.buckets }
apply (save_binding b) s = record s {
  session_bindings = insert b.session_uuid b s.session_bindings;
}
apply (delete_binding u) s = record s { session_bindings = delete u s.session_bindings }

unfoldable pub get_session_binding : ℕ → String → Store → Option SessionBinding
get_session_binding now uuid s = elim (lookup uuid s.session_bindings) [
  | none ↦ none
  | some b ↦ if ltb now b.expires_at then some b else none
]

targets : ℕ → String → String → SessionBinding → Bool
targets now provider subject b =
    b.provider == provider && b.subject == subject && ltb now b.expires_at

bindings_in : (SessionBinding → Bool) → Map String SessionBinding → List SessionBinding
bindings_in p [] = []
bindings_in p ((k, b) ∷ m) = if p b then b ∷ bindings_in p m else bindings_in p m

unfoldable pub list_session_bindings_by_target : ℕ → String → String → Store → List SessionBinding
unfolding targets bindings_in
list_session_bindings_by_target now provider subject s =
    bindings_in (targets now provider subject) s.session_bindings

-- The entries that are left when those that expired at or before a time go.
module _ {V : Type 0} (expires_at : V → ℕ) (before : ℕ) where
  unfoldable pub purge : Map String V → Map String V
  purge [] = []
  purge ((k, v) ∷ m) = if ltb before (expires_at v) then (k, v) ∷ purge m else purge m

unfoldable pub purge_expired : ℕ → Store → Store
unfolding purge
purge_expired before s = record s {
  session_bindings = purge (λ b. b.expires_at) before s.session_bindings;
  stainless = purge (λ b. b.expires_at) before s.stainless;
  oauth_sessions = purge (λ b. b.expires_at) before s.oauth_sessions;
  refresh_locks = purge (λ b. b.expires_at) before s.refresh_locks;
}
