-- ===== src/Store/Expiring.antt =====
-- internal/store/mock_store.go: the stainless bindings, OAuth sessions and refresh locks, which expire.
-- A call answers beside the new store.
use llm_broker.Prelude.{
  ℕ, String, Bool, true, false, Option, none, some, lookup, insert, delete, ltb, ◌==◌, string_eq,
  if◌then◌else◌,
}
use llm_broker.Domain.{StainlessBinding, OauthSession, RefreshLock}
use llm_broker.Store.{Store}

-- `ok && row.ExpiresAt.After(now)`, for a row that is there or not.
abbrev pub is_live : {V : Type 0} → (V → ℕ) → ℕ → Option V → Bool
is_live expires_at now none = false
is_live expires_at now (some v) = ltb now (expires_at v)

unfoldable pub get_stainless_binding : ℕ → String → Store → Option StainlessBinding
get_stainless_binding now id s =
    let row : Option StainlessBinding = lookup id s.stainless in
    if is_live (λ b. b.expires_at) now row then row else none

-- The binding that is there stays while it is live at the time of the new one.
unfoldable pub set_stainless_binding_nx : StainlessBinding → Store → Store × Bool
set_stainless_binding_nx b s =
    if is_live (λ x. x.expires_at) b.created_at (lookup b.account_id s.stainless)
    then (s, false)
    else (record s { stainless = insert b.account_id b s.stainless }, true)

unfoldable pub delete_stainless_binding : String → Store → Store
delete_stainless_binding id s = record s { stainless = delete id s.stainless }

unfoldable pub save_oauth_session : OauthSession → Store → Store
save_oauth_session o s = record s { oauth_sessions = insert o.session_id o s.oauth_sessions }

unfoldable pub get_oauth_session : ℕ → String → Store → Option OauthSession
get_oauth_session now id s =
    let row : Option OauthSession = lookup id s.oauth_sessions in
    if is_live (λ o. o.expires_at) now row then row else none

unfoldable pub delete_oauth_session : String → Store → Store
delete_oauth_session id s = record s { oauth_sessions = delete id s.oauth_sessions }

-- An expired session stays in the table.
unfoldable pub get_and_delete_oauth_session : ℕ → String → Store → Store × Option OauthSession
get_and_delete_oauth_session now id s =
    let row : Option OauthSession = lookup id s.oauth_sessions in
    if is_live (λ o. o.expires_at) now row
    then (record s { oauth_sessions = delete id s.oauth_sessions }, row)
    else (s, none)

unfoldable pub acquire_refresh_lock : RefreshLock → Store → Store × Bool
acquire_refresh_lock lock s =
    if is_live (λ x. x.expires_at) lock.created_at (lookup lock.account_id s.refresh_locks)
    then (s, false)
    else (record s { refresh_locks = insert lock.account_id lock s.refresh_locks }, true)

abbrev pub is_held_as : String → Option RefreshLock → Bool
is_held_as lock_id none = false
is_held_as lock_id (some lock) = lock.lock_id == lock_id

-- Only the holder's id releases a lock.
unfoldable pub release_refresh_lock : String → String → Store → Store
release_refresh_lock account_id lock_id s =
    if is_held_as lock_id (lookup account_id s.refresh_locks)
    then record s { refresh_locks = delete account_id s.refresh_locks }
    else s
