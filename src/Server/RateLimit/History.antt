-- ===== src/Server/RateLimit/History.antt =====
-- internal/server/compat_rate_limit.go: what the limits mean over a history of requests.
use llm_broker.Prelude.{
  ℕ, ◌+◌, ◌≤◌, ◌<◌, String, ◌≡◌, ◌≢◌, refl, sym, ap, ◌∙◌, List, [], ◌∷◌, ◌++◌, keep, length,
  count_if, ◌==◌, string_eq, if◌then◌else◌, arith,
}
use llm_broker.Server.RateLimit.{
  RateLimiter, Admission, admitted, of_key, is_recent, state_of, acquire_slot, release_slot,
}

-- The limiter with the keys of the requests that run, one entry for each release function that was
-- handed out and not called, and the times at which requests were admitted, the oldest first.
pub record Traffic : Type 0 where
  pub limiter : RateLimiter
  pub running : List String
  pub log : List (String × ℕ)
  pub clock : ℕ

abbrev pub times_of : String → List (String × ℕ) → List ℕ
times_of key [] = []
times_of key ((k, t) ∷ xs) = if k == key then t ∷ times_of key xs else times_of key xs

-- Requests ask, and end, in any order, while the clock does not go back.
pub data Moves : Traffic → Traffic → Type 0 where
  admits :
      {l l' : RateLimiter} {running : List String} {log : List (String × ℕ)} {clock : ℕ}
      (key : String) (now : ℕ)
      → clock ≤ now
      → acquire_slot key now l ≡ (l', admitted (of_key key))
      → Moves
          (record { limiter = l; running = running; log = log; clock = clock })
          (record {
            limiter = l';
            running = key ∷ running;
            log = log ++ ((key, now) ∷ []);
            clock = now;
          })
  refuses :
      {l l' : RateLimiter} {running : List String} {log : List (String × ℕ)} {clock : ℕ}
      {a : Admission} (key : String) (now : ℕ)
      → clock ≤ now
      → acquire_slot key now l ≡ (l', a)
      → a ≢ admitted (of_key key)
      → Moves
          (record { limiter = l; running = running; log = log; clock = clock })
          (record { limiter = l'; running = running; log = log; clock = now })
  ends :
      {l : RateLimiter} {log : List (String × ℕ)} {clock : ℕ} (xs : List String) (key : String)
      (ys : List String) (now : ℕ)
      → clock ≤ now
      → Moves
          (record { limiter = l; running = xs ++ (key ∷ ys); log = log; clock = clock })
          (record { limiter = release_slot key now l; running = xs ++ ys; log = log; clock = now })

pub data Leads (s : Traffic) : Traffic → Type 0 where
  here : Leads s s
  next : {t u : Traffic} → Leads s t → Moves t u → Leads s u

-- Admissions of a key in the minute that ends now.
abbrev pub recent_of : Traffic → String → List ℕ
recent_of s key = keep (is_recent s.clock) (times_of key s.log)

abbrev pub running_of : Traffic → String → ℕ
running_of s key = count_if (λ k. k == key) s.running

-- The limits of the limiter hold for every key: neither more requests run, nor were more admitted
-- in the last minute. The entry of a key counts both.
pub record IsWithin (s : Traffic) : Type 0 where
  pub counted : (key : String) → (state_of s.limiter key).inflight ≡ running_of s key
  pub kept :
      0 < s.limiter.max_per_minute
      → (key : String) → keep (is_recent s.clock) (state_of s.limiter key).started ≡ recent_of s key
  pub concurrent :
      0 < s.limiter.max_concurrent → (key : String) → running_of s key ≤ s.limiter.max_concurrent
  pub per_minute :
      0 < s.limiter.max_per_minute
      → (key : String) → length (recent_of s key) ≤ s.limiter.max_per_minute

-- A later cut keeps what it would keep of an earlier one.
pub keep-keep :
    (clock now : ℕ) (ts : List ℕ)
    → clock ≤ now
    → keep (is_recent now) (keep (is_recent clock) ts) ≡ keep (is_recent now) ts
unfolding keep
keep-keep clock now [] h = refl
keep-keep clock now (t ∷ ts) h = ground (arith, keep-keep clock now ts h)

pub keep-append :
    (now : ℕ) (ts us : List ℕ)
    → keep (is_recent now) (ts ++ us) ≡ keep (is_recent now) ts ++ keep (is_recent now) us
unfolding keep
keep-append now [] us = refl
keep-append now (t ∷ ts) us = ground (arith, keep-append now ts us)

pub keep-now : (now : ℕ) → keep (is_recent now) (now ∷ []) ≡ now ∷ []
unfolding keep
keep-now now = ground arith

pub length-keep :
    (clock now : ℕ) (ts : List ℕ)
    → clock ≤ now
    → length (keep (is_recent now) ts) ≤ length (keep (is_recent clock) ts)
unfolding keep
length-keep clock now [] h = omega arith
length-keep clock now (t ∷ ts) h = ground (arith, length-keep clock now ts h)

pub times_of-append :
    (key k : String) (t : ℕ) (xs : List (String × ℕ))
    → times_of key (xs ++ ((k, t) ∷ [])) ≡ times_of key xs ++ (if k == key then t ∷ [] else [])
times_of-append key k t [] = refl
times_of-append key k t ((j, u) ∷ xs) = ground (arith, times_of-append key k t xs)

pub count_split :
    (key k : String) (xs ys : List String)
    → count_if (λ j. j == key) (xs ++ (k ∷ ys))
      ≡ (if k == key then 1 else 0) + count_if (λ j. j == key) (xs ++ ys)
unfolding count_if
count_split key k [] ys = ground arith
count_split key k (x ∷ xs) ys = ground (arith, count_split key k xs ys)

pub keep-advance :
    (clock now : ℕ) (ts us : List ℕ)
    → clock ≤ now
    → keep (is_recent clock) ts ≡ keep (is_recent clock) us
    → keep (is_recent now) ts ≡ keep (is_recent now) us
keep-advance clock now ts us h q =
    sym (keep-keep clock now ts h) ∙ ap (keep (is_recent now)) q ∙ keep-keep clock now us h
