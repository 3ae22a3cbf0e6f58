-- ===== src/Domain.antt =====
-- internal/domain: the records that the broker persists and the request surfaces.
-- A `time.Time` is a number of nanoseconds with 0 for the zero time; a `*time.Time` is an `Option`.
pub mod Cells
pub mod Accounts
pub mod Buckets
pub mod Bindings
pub mod Surfaces
pub use Cells.{ProxyConfig, CellStatus, EgressCell, Codec, hydrate_cell, persist_cell}
pub use Accounts.{
  Status, Account, is_active, is_blocked, provider_claude, hydrate_account, persist_account,
  transport_proxy,
}
pub use Buckets.{QuotaBucket}
pub use Bindings.{SessionBinding, StainlessBinding, OauthSession, RefreshLock}
pub use Surfaces.{Surface, native, compat, any, unset, normalize_surface, allows_surface}
