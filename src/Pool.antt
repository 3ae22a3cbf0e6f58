-- ===== src/Pool.antt =====
-- internal/pool/pool.go and pool_buckets.go: the state of the pool, its reload from the store, and
-- the buckets that its accounts share.
--
-- An operation runs under the pool's lock and takes an `Env`: the clock's reading, which calls of
-- the store succeed, and what the standard library computes. Within one operation the clock is read
-- once. A pointer into a map of the pool is the key of its entry, and account arguments are not nil.
pub mod Routes
pub mod Results
pub mod Buckets
pub mod Cells
pub mod Availability
pub mod Choice
pub mod Acquire
pub mod Lease
pub mod Route
pub mod Messages
pub mod Observe
pub mod Accounts
pub mod Cleanup
pub mod Sessions
pub mod Protocol
use llm_broker.Prelude.{
  ℕ, String, Bool, true, false, ◌&&◌, List, [], ◌∷◌, Option, none, some, Map, Eq, values, lookup,
  insert, delete, ◌==◌, ◌<>◌, string_eq, if◌then◌else◌, nat_beq,
}
use llm_broker.Domain.{
  Account, EgressCell, QuotaBucket, Codec, hydrate_account, hydrate_cell, persist_account,
}
use llm_broker.Domain.Cells.{or_braces}
use llm_broker.Driver.{SchedulerDriver}
use llm_broker.Events.{Event}
use llm_broker.Store.{
  Store, Read, list_accounts, list_cells, list_buckets, Write, save_account, save_bucket,
  delete_bucket, apply,
}
use Routes.{RouteKey, RouteLoad, Float64}

pub record Env : Type 0 where
  pub now : ℕ
  pub answers : Read → Bool
  pub accepts : Write → Bool
  pub codec : Codec
  pub floats : Float64
  pub itoa : ℕ → String
  pub rfc3339 : ℕ → String

-- `published` holds the events handed to the bus and `auth_failures` the accounts for which
-- `onAuthFailure` was started, both newest first. A claim is the number under which its channel was
-- made, and `closed_claims` holds the closed ones.
pub record Pool : Type 0 where
  pub accounts : Map String Account
  pub cells : Map String EgressCell
  pub buckets : Map String QuotaBucket
  pub server_err_count : Map String ℕ
  pub store : Store
  pub published : List Event
  pub has_auth_hook : Bool
  pub auth_failures : List String
  pub drivers : Option (Map String SchedulerDriver)
  pub route_loads : Map RouteKey RouteLoad
  pub route_seq : ℕ
  pub affinity_claims : Map String ℕ
  pub next_claim : ℕ
  pub closed_claims : List ℕ

-- A write whose error is only logged.
unfoldable pub write : Env → Write → Pool → Pool
write e w p = if e.accepts w then record p { store = apply w p.store } else p

unfoldable pub publish : Event → Pool → Pool
publish ev p = record p { published = ev ∷ p.published }

unfoldable pub put_account : Account → Pool → Pool
put_account a p = record p { accounts = insert a.id a p.accounts }

unfoldable pub put_bucket : QuotaBucket → Pool → Pool
put_bucket b p = record p { buckets = insert b.bucket_key b p.buckets }

unfoldable pub default_bucket_key : Account → String
default_bucket_key a =
    if a.subject == "" then a.provider <> (":" <> a.id) else a.provider <> (":" <> a.subject)

unfoldable pub bucket_key : Account → String
unfolding default_bucket_key
bucket_key a = if a.bucket_key == "" then default_bucket_key a else a.bucket_key

unfoldable pub bucket_of : Pool → Account → Option QuotaBucket
bucket_of p a = lookup (bucket_key a) p.buckets

unfoldable pub bucket_state : Pool → Account → String
bucket_state p a = elim (bucket_of p a) [ none ↦ "{}" | some b ↦ or_braces b.state_json ]

unfoldable pub bucket_cooldown : Pool → Account → Option ℕ
bucket_cooldown p a = elim (bucket_of p a) [ none ↦ none | some b ↦ b.cooldown_until ]

unfoldable pub fresh_bucket : Env → String → String → QuotaBucket
fresh_bucket e key provider = record {
  bucket_key = key;
  provider = provider;
  cooldown_until = none;
  state_json = "{}";
  updated_at = e.now;
}

-- The loops of the reload, over the rows that the store lists.
unfoldable pub index_accounts : Codec → List Account → Map String Account → Map String Account
index_accounts c [] m = m
index_accounts c (a ∷ as') m = index_accounts c as' (insert a.id (hydrate_account c a) m)

unfoldable pub index_cells : Codec → List EgressCell → Map String EgressCell → Map String EgressCell
index_cells c [] m = m
index_cells c (x ∷ xs) m = index_cells c xs (insert x.id (hydrate_cell c x) m)

unfoldable pub index_buckets : List QuotaBucket → Map String QuotaBucket → Map String QuotaBucket
index_buckets [] m = m
index_buckets (b ∷ bs) m =
    index_buckets bs (insert b.bucket_key (record b { state_json = or_braces b.state_json }) m)

-- A bucket in memory for each account that has none.
unfoldable pub seed_bucket : Env → Account → Map String QuotaBucket → Map String QuotaBucket
seed_bucket e a m = if bucket_key a == "" then m else elim (lookup (bucket_key a) m) [
  | some _ ↦ m
  | none ↦ insert (bucket_key a) (fresh_bucket e (bucket_key a) a.provider) m
]

unfoldable pub seed_buckets : Env → List Account → Map String QuotaBucket → Map String QuotaBucket
seed_buckets e [] m = m
seed_buckets e (a ∷ as') m = seed_buckets e as' (seed_bucket e a m)

unfoldable pub load : Env → Pool → Pool
load e p =
    let accounts' = index_accounts e.codec (values p.store.accounts) [] in
    record p {
      accounts = accounts';
      cells = index_cells e.codec (values p.store.cells) [];
      buckets = seed_buckets e (values accounts') (index_buckets (values p.store.buckets) []);
    }

-- `none` is the error of a list call; the maps stay as they were.
unfoldable pub reload_state : Env → Pool → Option Pool
reload_state e p =
    if e.answers list_accounts && (e.answers list_cells && e.answers list_buckets)
    then some (load e p)
    else none

-- The callers that log the error go on with the state at hand.
unfoldable pub reload_or_keep : Env → Pool → Pool
unfolding reload_state
reload_or_keep e p = elim (reload_state e p) [ none ↦ p | some q ↦ q ]

unfoldable pub stamp_bucket : Env → QuotaBucket → QuotaBucket
stamp_bucket e b = record b {
  state_json = or_braces b.state_json;
  updated_at = if nat_beq b.updated_at 0 then e.now else b.updated_at;
}

unfoldable pub persist_bucket : Env → QuotaBucket → Pool → Pool
unfolding stamp_bucket
persist_bucket e b p = write e (save_bucket (stamp_bucket e b)) (put_bucket (stamp_bucket e b) p)

unfoldable pub persist : Env → Account → Pool → Pool
persist e a p =
    write e (save_account (persist_account e.codec a)) (put_account (persist_account e.codec a) p)
