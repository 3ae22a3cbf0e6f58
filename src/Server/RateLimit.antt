-- ===== src/Server/RateLimit.antt =====
-- internal/server/compat_rate_limit.go: how many compat requests a user may start in a minute and
-- may have running at once.
pub mod Slots
pub mod History
pub mod Within
use llm_broker.Prelude.{
  ℕ, ◌+◌, ◌-◌, ◌*◌, String, Bool, true, false, not, ◌&&◌, List, [], ◌∷◌, ◌++◌, Option, none, some,
  Map, lookup, insert, delete, keep, length, ◌==◌, string_eq, nat_beq, ltb, leb, if◌then◌else◌,
}
use llm_broker.Prelude.Int.{ℤ, clip}
use llm_broker.Pool.Messages.{second}

pub record RateState : Type 0 where
  pub started : List ℕ
  pub inflight : ℕ

pub record RateLimiter : Type 0 where
  pub max_per_minute : ℕ
  pub max_concurrent : ℕ
  pub state : Map String RateState

-- `none` is the nil limiter, which lets every request through.
unfoldable pub new_rate_limiter : ℤ → ℤ → Option RateLimiter
new_rate_limiter per_minute concurrent =
    if nat_beq (clip per_minute) 0 && nat_beq (clip concurrent) 0
    then none
    else some
        (record { max_per_minute = clip per_minute; max_concurrent = clip concurrent; state = [] })

-- The release function that `Acquire` returns: one that does nothing, or the one of a key.
pub data Release : Type 0 where
  nothing : Release
  of_key : String → Release

-- The two errors, with the limit that they name.
pub data Admission : Type 0 where
  admitted : Release → Admission
  too_many_running too_many_started : ℕ → Admission

abbrev pub minute : ℕ
minute = 60 * second

-- `!ts.Before(now.Add(-time.Minute))`
abbrev pub is_recent : ℕ → ℕ → Bool
is_recent now t = not (ltb t (now - minute))

abbrev pub or_fresh : Option RateState → RateState
or_fresh none = record { started = []; inflight = 0 }
or_fresh (some s) = s

abbrev pub state_of : RateLimiter → String → RateState
state_of l key = or_fresh (lookup key l.state)

unfoldable pub put_state : String → RateState → RateLimiter → RateLimiter
put_state key s l = record l { state = insert key s l.state }

unfoldable pub prune : ℕ → RateState → RateState
prune now s = record s { started = keep (is_recent now) s.started }

-- The entry of an admitted request.
unfoldable pub start : RateLimiter → ℕ → RateState → RateState
start l now s = record s {
  started = if ltb 0 l.max_per_minute then s.started ++ (now ∷ []) else s.started;
  inflight = s.inflight + 1;
}

-- `Acquire` on a limiter and a key; the pruned entry is kept also when the request is refused.
unfoldable pub acquire_slot : String → ℕ → RateLimiter → RateLimiter × Admission
unfolding prune start put_state
acquire_slot key now l =
    let s : RateState = prune now (state_of l key) in
    if ltb 0 l.max_concurrent && leb l.max_concurrent s.inflight
    then (put_state key s l, too_many_running l.max_concurrent)
    else if ltb 0 l.max_per_minute && leb l.max_per_minute (length s.started)
    then (put_state key s l, too_many_started l.max_per_minute)
    else (put_state key (start l now s) l, admitted (of_key key))

unfoldable pub acquire_rate : String → ℕ → Option RateLimiter → Option RateLimiter × Admission
unfolding acquire_slot
acquire_rate key now none = (none, admitted nothing)
acquire_rate key now (some l) =
    if key == ""
    then (some l, admitted nothing)
    else let (l', a) = acquire_slot key now l in (some l', a)

abbrev pub is_empty : List ℕ → Bool
is_empty [] = true
is_empty (x ∷ xs) = false

-- The entry after a request ended. The count is lowered where it is not 0, so `-` is exact.
unfoldable pub stop : RateLimiter → ℕ → RateState → RateState
unfolding prune
stop l now s =
    let lowered : RateState = record s { inflight = s.inflight - 1 } in
    if ltb 0 l.max_per_minute then prune now lowered else lowered

unfoldable pub drop_or_put : String → RateState → RateLimiter → RateLimiter
unfolding put_state
drop_or_put key s l =
    if nat_beq s.inflight 0 && is_empty s.started
    then record l { state = delete key l.state }
    else put_state key s l

-- The call of a key's release function.
unfoldable pub release_slot : String → ℕ → RateLimiter → RateLimiter
unfolding stop drop_or_put
release_slot key now l = elim (lookup key l.state) [
  | none ↦ l
  | some s ↦ drop_or_put key (stop l now s) l
]
