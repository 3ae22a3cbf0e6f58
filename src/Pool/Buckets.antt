-- ===== src/Pool/Buckets.antt =====
-- internal/pool/pool_buckets.go, with the cooldown join of pool_accounts.go.
pub mod Join
use llm_broker.Prelude.{
  ℕ, String, Bool, true, false, List, [], ◌∷◌, Option, none, some, Map, values, lookup, delete,
  ◌==◌, ◌&&◌, string_eq, if◌then◌else◌, ltb,
}
use llm_broker.Domain.{Account, EgressCell, QuotaBucket}
use llm_broker.Domain.Cells.{or_braces}
use llm_broker.Store.{delete_bucket}
use llm_broker.Pool.{Pool, Env, write, bucket_key, bucket_of, fresh_bucket, persist_bucket}

-- `actual` is the cooldown in force after the join, which may be the old one.
pub record CooldownResult : Type 0 where
  pub applied : Bool
  pub actual : ℕ

abbrev pub no_cooldown : CooldownResult
no_cooldown = record { applied = false; actual = 0 }

-- Is there a cooldown that ends after the time?
abbrev pub ends_after : Option ℕ → ℕ → Bool
ends_after none t = false
ends_after (some u) t = ltb t u

abbrev pub time_or_zero : Option ℕ → ℕ
time_or_zero none = 0
time_or_zero (some t) = t

unfoldable pub join_cooldown : QuotaBucket → ℕ → QuotaBucket × CooldownResult
join_cooldown b proposed =
    if ends_after b.cooldown_until proposed
    then (b, record { applied = false; actual = time_or_zero b.cooldown_until })
    else (record b { cooldown_until = some proposed }, record { applied = true; actual = proposed })

unfoldable pub apply_bucket_cooldown : Option QuotaBucket → ℕ → Option QuotaBucket × CooldownResult
unfolding join_cooldown
apply_bucket_cooldown none proposed = (none, no_cooldown)
apply_bucket_cooldown (some b) proposed =
    (some (join_cooldown b proposed).0, (join_cooldown b proposed).1)

unfoldable pub derived_bucket_key : Pool → Account → String → String
derived_bucket_key p a state = elim p.drivers [
  | none ↦ bucket_key a
  | some ds ↦ elim (lookup a.provider ds) [
    | none ↦ bucket_key a
    | some drv ↦
        let key : String =
          drv.bucket_key (record a { bucket_key = bucket_key a; provider_state_json = state }) in
        if key == "" then bucket_key a else key
  ]
]

-- The bucket of the old key goes to the new key, unless that has one.
unfoldable pub move_bucket : Env → String → String → QuotaBucket → Pool → Pool
move_bucket e old new b p =
    let q : Pool = record p { buckets = delete old p.buckets } in
    elim (lookup new q.buckets) [
      | some _ ↦ q
      | none ↦ persist_bucket e (record b { bucket_key = new }) q
    ]

unfoldable pub migrate_bucket : Env → String → String → Pool → Pool
unfolding move_bucket
migrate_bucket e old new p = if old == new then p else elim (lookup old p.buckets) [
  | none ↦ p
  | some b ↦ write e (delete_bucket old) (move_bucket e old new b p)
]

-- The account with its new key, and the pool with the bucket moved. The caller stores the account.
unfoldable pub refresh_bucket_key : Env → Account → String → Pool → Account × Pool
unfolding derived_bucket_key migrate_bucket
refresh_bucket_key e a state p = (
  record a { bucket_key = derived_bucket_key p a state },
  migrate_bucket e (bucket_key a) (derived_bucket_key p a state) p,
)

unfoldable pub shares_bucket : Account → Account → Bool
shares_bucket a c = c.provider == a.provider && bucket_key c == bucket_key a

unfoldable pub keep_accounts : (Account → Bool) → List Account → List Account
keep_accounts f [] = []
keep_accounts f (a ∷ as') = if f a then a ∷ keep_accounts f as' else keep_accounts f as'

abbrev or_else_self : Account → List Account → List Account
or_else_self a [] = a ∷ []
or_else_self a (x ∷ xs) = x ∷ xs

unfoldable pub bucket_accounts : Pool → Account → List Account
unfolding keep_accounts shares_bucket
bucket_accounts p a =
    if bucket_key a == ""
    then a ∷ []
    else or_else_self a (keep_accounts (shares_bucket a) (values p.accounts))

-- The pool with a bucket for the account, and that bucket; none for an empty key.
unfoldable pub ensure_bucket : Env → Account → Pool → Pool × Option QuotaBucket
unfolding bucket_of
ensure_bucket e a p = if bucket_key a == "" then (p, none) else elim (bucket_of p a) [
  | some b ↦ (p, some b)
  | none ↦
      let b : QuotaBucket = fresh_bucket e (bucket_key a) a.provider in
      (persist_bucket e b p, some b)
]

unfoldable pub has_members : String → List Account → Bool
has_members key [] = false
has_members key (a ∷ as') = if bucket_key a == key then true else has_members key as'

-- A nil table of labels is `none`; cloning turns an empty table into nil.
abbrev clone_labels : Option (Map String String) → Option (Map String String)
clone_labels none = none
clone_labels (some []) = none
clone_labels (some (l ∷ ls)) = some (l ∷ ls)

unfoldable pub clone_cell : EgressCell → EgressCell
clone_cell c = record c { labels = clone_labels c.labels }

unfoldable pub cell_of : Pool → String → Option EgressCell
cell_of p id = if id == "" then none else lookup id p.cells

unfoldable pub clone_option : Option EgressCell → Option EgressCell
clone_option none = none
clone_option (some c) = some (clone_cell c)

-- A copy of the account for callers, with what its bucket and its cell hold.
unfoldable pub project_account : Pool → Account → Account
unfolding cell_of clone_option
project_account p a = elim (bucket_of p a) [
  | none ↦ record a {
    bucket_key = bucket_key a;
    cooldown_until = none;
    provider_state_json = "{}";
    cell = clone_option (cell_of p a.cell_id);
  }
  | some b ↦ record a {
    bucket_key = bucket_key a;
    cooldown_until = b.cooldown_until;
    provider_state_json = or_braces b.state_json;
    cell = clone_option (cell_of p a.cell_id);
  }
]
