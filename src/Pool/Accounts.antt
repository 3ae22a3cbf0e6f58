-- ===== src/Pool/Accounts.antt =====
-- internal/pool/pool_accounts.go: the operations on accounts.
use llm_broker.Prelude.{
  ℕ, suc, String, Bool, true, false, ◌&&◌, ◌||◌, not, List, [], ◌∷◌, Option, none, some, values,
  lookup, delete, ◌==◌, string_eq, nat_beq, if◌then◌else◌, is_some,
}
use llm_broker.Domain.{Account, Status, is_blocked, QuotaBucket, hydrate_account, persist_account}
use llm_broker.Domain.Cells.{or_braces}
use llm_broker.Events.{EventType, blank}
use llm_broker.Store.{save_account, delete_account, delete_bucket}
use llm_broker.Pool.{
  Pool, Env, write, publish, put_account, bucket_key, persist_bucket, persist, reload_state,
  reload_or_keep,
}
use llm_broker.Pool.Results.{PoolError, refresh_failed, store_failed, account_not_found}
use llm_broker.Pool.Buckets.{ensure_bucket, refresh_bucket_key, has_members, project_account}

-- An operation that can fail, also after it changed the pool.
abbrev pub Attempt : Type 0
Attempt = Pool × Option PoolError

-- Runs a step on an account after a reload whose failure ends the operation.
abbrev pub with_account : Env → String → Pool → (Account → Pool → Attempt) → Attempt
with_account e id p step = elim (reload_state e p) [
  | none ↦ (p, some refresh_failed)
  | some q ↦ elim (lookup id q.accounts) [
    | none ↦ (q, some (account_not_found id))
    | some a ↦ step a q
  ]
]

-- The same where a failed reload is only logged and a missing account is no error.
abbrev pub with_account_or_keep : Env → String → Pool → (Account → Pool → Pool) → Pool
with_account_or_keep e id p step =
    let q : Pool = reload_or_keep e p in
    elim (lookup id q.accounts) [ none ↦ q | some a ↦ step a q ]

abbrev pub same_time : Option ℕ → Option ℕ → Bool
same_time none none = true
same_time none (some b) = false
same_time (some a) none = false
same_time (some a) (some b) = nat_beq a b

-- Ends the bucket's cooldown, if it has one.
unfoldable pub end_cooldown : Env → Option QuotaBucket → Pool → Pool
end_cooldown e none p = p
end_cooldown e (some b) p =
    if is_some b.cooldown_until
    then persist_bucket e (record b { cooldown_until = none; updated_at = e.now }) p
    else p

clear_of : Env → Account → Option QuotaBucket → Pool → Pool
unfolding end_cooldown
clear_of e a none p = p
clear_of e a (some b) p =
    if is_some b.cooldown_until
    then publish
        (record (blank EventType.recover) {
          account_id = a.id;
          bucket_key = b.bucket_key;
          message = "admin cleared cooldown";
        })
        (end_cooldown e (some b) p)
    else p

unfoldable pub clear_cooldown : Env → String → Pool → Pool
unfolding clear_of
clear_cooldown e id p =
    with_account_or_keep e id p (λ a q. let (r, b) = ensure_bucket e a q in clear_of e a b r)

set_bucket : Env → String → Option ℕ → Option QuotaBucket → Pool → Pool
set_bucket e state until none p = p
set_bucket e state until (some b) p =
    persist_bucket e (record b { state_json = state; cooldown_until = until; updated_at = e.now }) p

set_bucket_if_new : Env → String → Option ℕ → Option QuotaBucket → Pool → Pool
unfolding set_bucket
set_bucket_if_new e state until none p = p
set_bucket_if_new e state until (some b) p =
    if not (b.state_json == state) || not (same_time b.cooldown_until until)
    then set_bucket e state until (some b) p
    else p

-- The fields that `Update` copies back from the changed projection.
copied : Account → Account → Account
copied a changed = record changed {
  id = a.id;
  bucket_key = a.bucket_key;
  cooldown_until = a.cooldown_until;
  provider_state_json = a.provider_state_json;
  cell = a.cell;
}

update_account : Env → (Account → Account) → Account → Pool → Attempt
unfolding copied set_bucket_if_new
update_account e change a q =
    let changed : Account = change (project_account q a) in
    let state : String = or_braces changed.provider_state_json in
    let (a', q1) =
      refresh_bucket_key e (copied a changed) state (put_account (copied a changed) q) in
    let (q2, b) = ensure_bucket e a' (put_account a' q1) in
    (persist e a' (set_bucket_if_new e state changed.cooldown_until b q2), none)

unfoldable pub update : Env → String → (Account → Account) → Pool → Attempt
unfolding update_account
update e id change p = with_account e id p (update_account e change)

-- What a stored account keeps in memory.
stored : Env → Account → Account
stored e a = record (hydrate_account e.codec (persist_account e.codec a)) {
  cooldown_until = none;
  provider_state_json = "";
}

save_new : Env → Account → Pool → Attempt
unfolding stored
save_new e a q =
    if e.accepts (save_account (persist_account e.codec a))
    then (put_account (stored e a) (write e (save_account (persist_account e.codec a)) q), none)
    else (q, some store_failed)

add_to : Env → Account → Pool → Attempt
unfolding save_new set_bucket
add_to e a q =
    let state : String = or_braces a.provider_state_json in
    let (a', q1) = refresh_bucket_key e a state q in
    let (q2, b) = ensure_bucket e a' q1 in save_new e a' (set_bucket e state a.cooldown_until b q2)

unfoldable pub add : Env → Account → Pool → Attempt
unfolding add_to
add e a p = elim (reload_state e p) [ none ↦ (p, some refresh_failed) | some q ↦ add_to e a q ]

drop_empty_bucket : Env → String → Pool → Pool
drop_empty_bucket e key p =
    if has_members key (values p.accounts)
    then p
    else write e (delete_bucket key) (record p { buckets = delete key p.buckets })

forget_account : String → Pool → Pool
forget_account id p = record p { accounts = delete id p.accounts }

remove_account : Env → Account → Pool → Attempt
unfolding drop_empty_bucket forget_account
remove_account e a q =
    if e.accepts (delete_account a.id)
    then (
      drop_empty_bucket e (bucket_key a) (forget_account a.id (write e (delete_account a.id) q)),
      none,
    )
    else (q, some store_failed)

-- `Delete` of the source.
unfoldable pub delete_from : Env → String → Pool → Attempt
unfolding remove_account
delete_from e id p = with_account e id p (remove_account e)

refreshed : Env → String → String → ℕ → Account → Account
refreshed e access refresh expires a = record a {
  access_token_enc = access;
  refresh_token_enc = refresh;
  expires_at = expires;
  last_refresh_at = some e.now;
  status = Status.active;
  error_message = "";
}

keep_tokens : Env → Account → Pool → Attempt
unfolding end_cooldown
keep_tokens e a q =
    let (r, b) = ensure_bucket e a (put_account a q) in (persist e a (end_cooldown e b r), none)

unfoldable pub store_tokens : Env → String → String → String → ℕ → Pool → Attempt
unfolding keep_tokens refreshed
store_tokens e id access refresh expires p =
    with_account e id p (λ a q. keep_tokens e (refreshed e access refresh expires a) q)

unblocked : Account → Account
unblocked a = record a { status = Status.active; error_message = "" }

recover_member : Env → String → Account → Pool → Pool
unfolding unblocked
recover_member e key a p =
    publish
      (record (blank EventType.recover) {
        account_id = a.id;
        bucket_key = key;
        message = "blocked account recovered via probe";
      })
      (persist e (unblocked a) (put_account (unblocked a) p))

abbrev recovers : String → Account → Bool
recovers key a = bucket_key a == key && is_blocked a.status

recover_members : Env → String → List Account → ℕ → Pool → Pool × ℕ
unfolding recover_member
recover_members e key [] n p = (p, n)
recover_members e key (a ∷ as') n p =
    recover_members e key as' (if recovers key a then suc n else n)
      (if recovers key a then recover_member e key a p else p)

-- The pool, and how many accounts were recovered.
unfoldable pub recover_bucket : Env → String → Pool → Pool × ℕ
unfolding recover_members end_cooldown
recover_bucket e id p =
    let q : Pool = reload_or_keep e p in
    elim (lookup id q.accounts) [
      | none ↦ (q, 0)
      | some a ↦
          let (r, n) = recover_members e (bucket_key a) (values q.accounts) 0 q in
          (end_cooldown e (lookup (bucket_key a) r.buckets) r, n)
    ]

failed : String → Account → Account
failed msg a = record a { status = Status.error; error_message = msg }

unfoldable pub mark_error : Env → String → String → Pool → Pool
unfolding failed
mark_error e id msg p =
    with_account_or_keep e id p (λ a q. persist e (failed msg a) (put_account (failed msg a) q))

first_of_subject : String → String → List Account → Option Account
first_of_subject provider subject [] = none
first_of_subject provider subject (a ∷ as') =
    if a.provider == provider && a.subject == subject
    then some a
    else first_of_subject provider subject as'

unfoldable pub find_by_subject : Env → String → String → Pool → Pool × Option Account
unfolding first_of_subject
find_by_subject e provider subject p = if subject == "" then (p, none) else (
  reload_or_keep e p,
  first_of_subject provider subject (values (reload_or_keep e p).accounts),
)
