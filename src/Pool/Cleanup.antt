-- ===== src/Pool/Cleanup.antt =====
-- internal/pool/pool_observe.go: the periodic cleanup and SetDrivers.
pub mod Blocked
use llm_broker.Prelude.{
  ℕ, ◌+◌, ◌-◌, ◌*◌, ◌/◌, String, Bool, false, ◌&&◌, List, [], ◌∷◌, Option, none, some, Map, values,
  lookup, ◌==◌, string_eq, nat_beq, if◌then◌else◌, ltb, is_some,
}
use llm_broker.Domain.{Account, is_active, QuotaBucket}
use llm_broker.Driver.{SchedulerDriver}
use llm_broker.Events.{EventType, blank}
use llm_broker.Pool.{
  Pool, Env, publish, put_account, bucket_key, bucket_state, persist_bucket, persist,
  reload_or_keep,
}
use llm_broker.Pool.Buckets.{join_cooldown, ensure_bucket, refresh_bucket_key}
use llm_broker.Pool.Messages.{second}

-- Seconds from the zero time to the Unix epoch.
abbrev epoch : ℕ
epoch = 62135596800

-- time.Unix of whole seconds; a time before the epoch gives 0, which the code takes as none.
unfoldable pub unix : ℕ → ℕ
unix t = t / second - epoch

unfoldable pub from_unix : ℕ → ℕ
from_unix s = (s + epoch) * second

-- `time.Now().After(t)`
abbrev pub ran_out : ℕ → Option ℕ → Bool
ran_out now none = false
ran_out now (some t) = ltb t now

-- The first phase, for one bucket: a cooldown that ran out is cleared.
unfoldable pub clear_expired : Env → QuotaBucket → Pool → Pool
clear_expired e b p =
    if ran_out e.now b.cooldown_until
    then publish
        (record (blank EventType.recover) {
          bucket_key = b.bucket_key;
          message = "cooldown expired";
        })
        (persist_bucket e (record b { cooldown_until = none; updated_at = e.now }) p)
    else p

unfoldable pub clear_each : Env → List QuotaBucket → Pool → Pool
clear_each e [] p = p
clear_each e (b ∷ bs) p = clear_each e bs (clear_expired e b p)

exhausted_until : Pool → ℕ → Account → Option SchedulerDriver → ℕ
exhausted_until p now a none = 0
exhausted_until p now a (some drv) =
    let t : ℕ = drv.compute_exhausted_cooldown (bucket_state p a) (from_unix now) in
    if nat_beq t 0 then 0 else unix t

unfoldable pub compute_exhausted_cooldown : Pool → Account → ℕ → ℕ
unfolding exhausted_until
compute_exhausted_cooldown p a now = elim p.drivers [
  | none ↦ 0
  | some ds ↦ exhausted_until p now a (lookup a.provider ds)
]

pub first_active_member : String → List Account → Option Account
first_active_member key [] = none
first_active_member key (a ∷ as') =
    if bucket_key a == key && is_active a.status then some a else first_active_member key as'

unfoldable pub enforce_until : Env → QuotaBucket → ℕ → Pool → Pool
enforce_until e b until p =
    let (b', r) = join_cooldown b (from_unix until) in
    let q : Pool = persist_bucket e (record b' { updated_at = e.now }) p in
    if r.applied
    then publish
        (record (blank EventType.ratelimit) {
          bucket_key = b.bucket_key;
          cooldown_until = some r.actual;
          message = "exhausted cooldown enforced";
        })
        q
    else q

unfoldable pub enforce_member : Env → QuotaBucket → Option Account → Pool → Pool
unfolding enforce_until
enforce_member e b none p = p
enforce_member e b (some a) p =
    let until : ℕ = compute_exhausted_cooldown p a (unix e.now) in
    if ltb 0 until then enforce_until e b until p else p

-- The second phase, for one bucket: the first active member tells whether it is exhausted.
unfoldable pub enforce_exhausted : Env → QuotaBucket → Pool → Pool
unfolding enforce_member first_active_member
enforce_exhausted e b p =
    if is_some b.cooldown_until
    then p
    else enforce_member e b (first_active_member b.bucket_key (values p.accounts)) p

unfoldable pub enforce_each : Env → List QuotaBucket → Pool → Pool
enforce_each e [] p = p
enforce_each e (b ∷ bs) p = enforce_each e bs (enforce_exhausted e b p)

unfoldable pub cleanup : Env → Pool → Pool
cleanup e p =
    let q : Pool = reload_or_keep e p in
    let r : Pool = clear_each e (values q.buckets) q in enforce_each e (values r.buckets) r

-- SetDrivers, for one account.
adopt : Env → Account → Pool → Pool
adopt e a p =
    let (a', q) = refresh_bucket_key e a (bucket_state p a) p in
    let r : Pool = (ensure_bucket e a' (put_account a' q)).0 in
    if a'.bucket_key == a.bucket_key then r else persist e a' r

adopt_each : Env → List Account → Pool → Pool
unfolding adopt
adopt_each e [] p = p
adopt_each e (a ∷ as') p = adopt_each e as' (adopt e a p)

unfoldable pub set_drivers : Env → Map String SchedulerDriver → Pool → Pool
unfolding adopt_each
set_drivers e ds p =
    let q : Pool = reload_or_keep e p in
    adopt_each e (values q.accounts) (record q { drivers = some ds })
