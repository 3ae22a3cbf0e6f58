-- ===== src/Server/RateLimit/Slots.antt =====
-- internal/server/compat_rate_limit.go: what an acquire and a release do to the entry of a key, and
-- that they leave the other keys alone.
use mathlib.Core.Path.{subst}
use text.Mathlib.TextEquality.{eq_iff}
use llm_broker.Prelude.{
  ℕ, ◌<◌, String, true, false, ◌≡◌, ◌≢◌, refl, sym, ap, ◌∙◌, ◌⊎◌, inl, inr, List, [], ◌∷◌, none,
  some, lookup, lookup-insert, lookup-delete, length, keep, ◌==◌, string_eq, ltb, leb, nat_beq,
  ◌&&◌, if◌then◌else◌, arith, Bool-cases, Option-cases,
}
use llm_broker.Server.RateLimit.{
  RateLimiter, RateState, admitted, of_key, state_of, or_fresh, prune, start, stop, put_state,
  drop_or_put, is_empty, acquire_slot, release_slot,
}

pub state_of-put :
    (key k : String) (s : RateState) (l : RateLimiter)
    → state_of (put_state key s l) k ≡ (if key == k then s else state_of l k)
unfolding put_state
state_of-put key k s l =
    ap or_fresh (lookup-insert key k s l.state)
    ∙ elim (Bool-cases (key == k)) [ inl t ↦ rw t refl | inr t ↦ rw t refl ]

-- The two limits of the limiter stay.
pub record SameLimits (l l' : RateLimiter) : Type 0 where
  pub per_minute : l'.max_per_minute ≡ l.max_per_minute
  pub concurrent : l'.max_concurrent ≡ l.max_concurrent

put-SameLimits : (key : String) (s : RateState) (l : RateLimiter) → SameLimits l (put_state key s l)
unfolding put_state
put-SameLimits key s l = record { per_minute = refl; concurrent = refl }

-- The entry was written, below both limits where these are set.
pub record Admits (key : String) (now : ℕ) (l l' : RateLimiter) : Type 0 where
  pub written : l' ≡ put_state key (start l now (prune now (state_of l key))) l
  pub fewer_running : 0 < l.max_concurrent → (state_of l key).inflight < l.max_concurrent
  pub fewer_started :
      0 < l.max_per_minute → length (prune now (state_of l key)).started < l.max_per_minute

pub acquire_slot-cases :
    (key : String) (now : ℕ) (l : RateLimiter)
    → (((acquire_slot key now l).1 ≡ admitted (of_key key))
        × Admits key now l (acquire_slot key now l).0)
      ⊎ (((acquire_slot key now l).0 ≡ put_state key (prune now (state_of l key)) l)
          × ((acquire_slot key now l).1 ≢ admitted (of_key key)))
unfolding acquire_slot prune
acquire_slot-cases key now l =
    elim (Bool-cases (ltb 0 l.max_concurrent && leb l.max_concurrent (state_of l key).inflight)) [
      | inl t ↦ inr (rw t (refl, λ h. cc))
      | inr t ↦
          elim (Bool-cases (
            ltb 0 l.max_per_minute
            && leb l.max_per_minute (length (prune now (state_of l key)).started))) [
              | inl u ↦ inr (rw (t, u) (refl, λ h. cc))
              | inr u ↦ inl (
                  rw (t, u)
                    (
                      refl,
                      record {
                        written = refl;
                        fewer_running = λ h. ground arith;
                        fewer_started = λ h. ground arith;
                      },
                    ))
            ]
    ]

empty_state :
    (s : RateState) → (nat_beq s.inflight 0 && is_empty s.started) ≡ true → s ≡ or_fresh none
empty_state s h = go s.started s.inflight h
  where
    go :
        (ts : List ℕ) (n : ℕ)
        → (nat_beq n 0 && is_empty ts) ≡ true
        → record { started = ts; inflight = n } ≡ or_fresh none
    go [] n h = ap (λ (m : ℕ). record { started = []; inflight = m }) (ground arith)
    go (t ∷ ts) n h = ground arith

drop_or_put-state :
    (key k : String) (s : RateState) (l : RateLimiter)
    → state_of (drop_or_put key s l) k ≡ (if key == k then s else state_of l k)
unfolding drop_or_put
drop_or_put-state key k s l = elim (Bool-cases (nat_beq s.inflight 0 && is_empty s.started)) [
  | inr t ↦ rw t (state_of-put key k s l)
  | inl t ↦ rw t (
      ap or_fresh (lookup-delete key k l.state)
      ∙ elim (Bool-cases (key == k)) [ inl u ↦ rw u (sym (empty_state s t)) | inr u ↦ rw u refl ])
]

stop-fresh : (now : ℕ) (l : RateLimiter) → stop l now (or_fresh none) ≡ or_fresh none
unfolding stop prune keep
stop-fresh now l = ground arith

release-none :
    (key : String) (now : ℕ) (l : RateLimiter)
    → lookup key l.state ≡ none
    → release_slot key now l ≡ l
unfolding release_slot
release-none key now l q = rw (q, release_slot) refl

release-some :
    (key : String) (now : ℕ) (l : RateLimiter) (s : RateState)
    → lookup key l.state ≡ some s
    → release_slot key now l ≡ drop_or_put key (stop l now s) l
unfolding release_slot
release-some key now l s q = rw (q, release_slot) refl

pub release_slot-state :
    (key k : String) (now : ℕ) (l : RateLimiter)
    → state_of (release_slot key now l) k
      ≡ (if key == k then stop l now (state_of l key) else state_of l k)
release_slot-state key k now l = elim (Option-cases (lookup key l.state)) [
  | inr (s, q) ↦
      ap (λ m. state_of m k) (release-some key now l s q)
      ∙ drop_or_put-state key k (stop l now s) l
      ∙ ap (λ s'. if key == k then stop l now s' else state_of l k) (sym (ap or_fresh q))
  | inl q ↦ ap (λ m. state_of m k) (release-none key now l q) ∙ elim (Bool-cases (key == k)) [
    | inl u ↦
        let same : key ≡ k = (eq_iff key k).0 u in
        let fresh : state_of l key ≡ or_fresh none = ap or_fresh q in
        rw u (
          ap (state_of l) (sym same) ∙ fresh ∙ sym (stop-fresh now l) ∙ ap (stop l now) (sym fresh))
    | inr u ↦ rw u refl
  ]
]

pub release-SameLimits :
    (key : String) (now : ℕ) (l : RateLimiter) → SameLimits l (release_slot key now l)
unfolding release_slot drop_or_put put_state
release-SameLimits key now l = ground arith

pub acquire-SameLimits :
    (key : String) (now : ℕ) (l : RateLimiter) → SameLimits l (acquire_slot key now l).0
unfolding acquire_slot put_state
acquire-SameLimits key now l = ground arith

-- What holds of the changed entry and of the others holds of all.
pub changed_at :
    (P : RateState → String → Type 0) (key : String) (s : RateState) (l l' : RateLimiter)
    → ((k : String) → state_of l' k ≡ (if key == k then s else state_of l k))
    → P s key
    → ((k : String) → (key == k) ≡ false → P (state_of l k) k)
    → (k : String) → P (state_of l' k) k
changed_at P key s l l' e h g k = elim (Bool-cases (key == k)) [
  | inl t ↦
      let same : key ≡ k = (eq_iff key k).0 t in
      subst (λ x. P x k) (sym (e k ∙ rw t refl)) (subst (P s) same h)
  | inr t ↦ subst (λ x. P x k) (sym (e k ∙ rw t refl)) (g k t)
]
