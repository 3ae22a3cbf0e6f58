-- ===== src/Pool/Observe.antt =====
-- internal/pool/pool_observe.go: how the pool takes in the outcome of an upstream request.
pub mod Circuit
use llm_broker.Prelude.{
  ℕ, ◌+◌, ◌*◌, String, Bool, true, false, List, [], ◌∷◌, Option, none, some, lookup, insert, delete,
  ◌==◌, ◌<>◌, string_eq, leb, if◌then◌else◌,
}
use llm_broker.Domain.{Account, Status, QuotaBucket}
use llm_broker.Driver.{
  Effect, EffectKind, success, cooldown, reject, overload, block, auth_fail, server_error,
}
use llm_broker.Events.{Event, EventType, blank}
use llm_broker.Pool.{
  Pool, Env, publish, put_account, bucket_key, persist_bucket, persist, reload_or_keep,
}
use llm_broker.Pool.Buckets.{
  CooldownResult, no_cooldown, join_cooldown, bucket_accounts, ensure_bucket, refresh_bucket_key,
}
use llm_broker.Pool.Messages.{
  second, cooldown_event_type, cooldown_event_message, event_message, effect_error_detail,
  cooldown_ptr, cooldown_suffix,
}

-- Where an observation stands: the pool, the account and its bucket as they are now, the accounts
-- to save at the end, and the event to publish.
pub record Seen : Type 0 where
  pub pool : Pool
  pub account : Account
  pub bucket : Option QuotaBucket
  pub saved : List String
  pub event : Option Event

-- `persisted` is a map in the source: an account is saved once.
unfoldable pub mark : String → List String → List String
mark id [] = id ∷ []
mark id (j ∷ ids) = if j == id then j ∷ ids else j ∷ mark id ids

-- A new value of the account, in the pool too.
unfoldable pub change_account : Account → Seen → Seen
unfolding mark
change_account a s = record s {
  pool = put_account a s.pool;
  account = a;
  saved = mark a.id s.saved;
}

unfoldable pub touch : Env → Seen → Seen
unfolding change_account
touch e s = change_account (record s.account { last_used_at = some e.now }) s

-- Joins the cooldown into the bucket and saves that.
unfoldable pub cool : Env → ℕ → Seen → Seen × CooldownResult
cool e proposed s = elim s.bucket [
  | none ↦ (s, no_cooldown)
  | some b ↦
      let b' : QuotaBucket = record ((join_cooldown b proposed).0) { updated_at = e.now } in
      (
        record s { pool = persist_bucket e b' s.pool; bucket = some b' },
        (join_cooldown b proposed).1,
      )
]

pub effect_event : EventType → Effect → Account → Option ℕ → String → Event
effect_event kind eff a until message = record (blank kind) {
  account_id = a.id;
  cooldown_until = until;
  upstream_status = eff.upstream_status;
  upstream_error_type = eff.upstream_error_type;
  upstream_error_message = eff.upstream_error_message;
  message = message <> effect_error_detail eff;
}

-- A cooldown with the event that tells of it.
pub cool_and_tell : Env → EventType → Effect → String → Bool → Seen → Seen
unfolding cool effect_event
cool_and_tell e kind eff base with_suffix s =
    let (t, r) = cool e eff.cooldown_until s in
    record t {
      event = some (
          effect_event kind eff t.account (cooldown_ptr r) (
            event_message e base eff.upstream_status
              (if with_suffix then cooldown_suffix e r else "")));
    }

abbrev count_of : Option ℕ → ℕ
count_of none = 0
count_of (some n) = n

unfoldable pub errors_of : Pool → String → ℕ
errors_of p key = count_of (lookup key p.server_err_count)

unfoldable pub set_errors : String → ℕ → Seen → Seen
set_errors key n s =
    let p : Pool = s.pool in
    record s { pool = record p { server_err_count = insert key n p.server_err_count } }

unfoldable pub clear_errors : String → Seen → Seen
clear_errors key s =
    let p : Pool = s.pool in
    record s { pool = record p { server_err_count = delete key p.server_err_count } }

-- Opens the circuit of a bucket for 30 seconds.
unfoldable pub trip : Env → String → Seen → Seen
unfolding cool clear_errors
trip e key s =
    let (t, r) = cool e (e.now + 30 * second) s in
    record (clear_errors key t) {
      event = some (record (blank EventType.overload) {
        account_id = s.account.id;
        cooldown_until = cooldown_ptr r;
        message = "circuit breaker: 3 consecutive upstream 500s" <> cooldown_suffix e r;
      });
    }

pub count_error : Env → Option QuotaBucket → Seen → Seen
unfolding trip set_errors errors_of
count_error e none s = s
count_error e (some b) s =
    if leb 3 (errors_of s.pool b.bucket_key + 1)
    then trip e b.bucket_key s
    else set_errors b.bucket_key (errors_of s.pool b.bucket_key + 1) s

-- The hook runs in its own goroutine; only its start is recorded.
pub start_auth_hook : Seen → Seen
start_auth_hook s =
    let p : Pool = s.pool in
    if p.has_auth_hook
    then record s { pool = record p { auth_failures = s.account.id ∷ p.auth_failures } }
    else s

pub block_account : Effect → Seen → Seen
unfolding change_account
block_account eff s =
    change_account (record s.account { status = Status.blocked; error_message = eff.error_message })
      s

-- The switch over the kind of the effect.
unfoldable pub dispatch : Env → Effect → EffectKind → Seen → Seen
unfolding touch cool_and_tell count_error block_account start_auth_hook
dispatch e eff success s = touch e s
dispatch e eff server_error s = count_error e s.bucket (touch e s)
dispatch e eff cooldown s =
    cool_and_tell e (cooldown_event_type eff.upstream_status) eff
      (cooldown_event_message eff.upstream_status) true s
dispatch e eff reject s = record s {
  event = some (
      effect_event EventType.reject eff s.account none
        (event_message e "rejected request" eff.upstream_status ""));
}
dispatch e eff overload s = cool_and_tell e EventType.overload eff "overloaded" true s
dispatch e eff block s =
    cool_and_tell e EventType.ban eff eff.error_message true (block_account eff s)
dispatch e eff auth_fail s =
    start_auth_hook
      (cool_and_tell e EventType.refresh eff "auth failed, background refresh triggered" false s)

abbrev pub is_server_error : EffectKind → Bool
is_server_error server_error = true
is_server_error _ = false

-- Any other outcome ends a run of server errors.
unfoldable pub reset_errors : EffectKind → Option QuotaBucket → Seen → Seen
unfolding clear_errors
reset_errors kind none s = s
reset_errors kind (some b) s = if is_server_error kind then s else clear_errors b.bucket_key s

pub start_seen : Env → Account → Pool → Seen
start_seen e a p =
    let (q, b) = ensure_bucket e a p in
    record { pool = q; account = a; bucket = b; saved = []; event = none }

-- The new key of one member of the bucket.
rekey_member : Env → String → Account → Seen → Seen
unfolding mark
rekey_member e state m s =
    let (m', p) = refresh_bucket_key e m state s.pool in
    let q : Pool = put_account m' p in
    record s {
      pool = q;
      account = if m'.id == s.account.id then m' else s.account;
      saved = if m'.bucket_key == m.bucket_key then s.saved else mark m.id s.saved;
    }

rekey_members : Env → String → List Account → Seen → Seen
unfolding rekey_member
rekey_members e state [] s = s
rekey_members e state (m ∷ ms) s = rekey_members e state ms (rekey_member e state m s)

store_state : Env → String → Seen → Seen
store_state e state s = elim s.bucket [
  | none ↦ s
  | some b ↦
      let b' : QuotaBucket = record b { state_json = state; updated_at = e.now } in
      record s { pool = persist_bucket e b' s.pool; bucket = some b' }
]

-- The provider's new state goes to the bucket, and may give its members a new key.
pub absorb_state : Env → Effect → Seen → Seen
unfolding rekey_members store_state
absorb_state e eff s =
    if eff.updated_state == ""
    then s
    else rekey_members e eff.updated_state (bucket_accounts s.pool s.account)
        (store_state e eff.updated_state s)

tell : Option Event → Account → Pool → Pool
tell none a p = p
tell (some ev) a p = publish (record ev { bucket_key = bucket_key a }) p

save_each : Env → List String → Pool → Pool
save_each e [] p = p
save_each e (id ∷ ids) p =
    save_each e ids (elim (lookup id p.accounts) [ none ↦ p | some a ↦ persist e a p ])

-- Publishes the event under the key that the account has now, and saves the changed accounts.
unfoldable pub settle : Env → Seen → Pool
unfolding tell save_each
settle e s = save_each e s.saved (tell s.event s.account s.pool)

pub observe_account : Env → Effect → Account → Pool → Pool
unfolding start_seen
observe_account e eff a p =
    let s : Seen = start_seen e a p in
    settle e (absorb_state e eff (dispatch e eff eff.kind (reset_errors eff.kind s.bucket s)))

unfoldable pub observe : Env → String → Effect → Pool → Pool
unfolding observe_account
observe e id eff p =
    let q : Pool = reload_or_keep e p in
    elim (lookup id q.accounts) [ none ↦ q | some a ↦ observe_account e eff a q ]
