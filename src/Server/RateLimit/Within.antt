-- ===== src/Server/RateLimit/Within.antt =====
-- internal/server/compat_rate_limit.go: the limits over a history of requests.
use mathlib.Core.Path.{subst}
use mathlib.Core.List.{append-nil}
use text.Mathlib.TextEquality.{eq_iff}
use llm_broker.Prelude.{
  ℕ, ◌+◌, ◌≤◌, ◌<◌, String, false, ◌≡◌, refl, sym, ap, ◌∙◌, inl, inr, List, [], ◌∷◌, ◌++◌, keep,
  length, length-append, ◌==◌, string_eq, if◌then◌else◌, arith, Bool-cases, beq_self,
}
use llm_broker.Server.RateLimit.{
  RateLimiter, RateState, is_recent, state_of, prune, start, stop, put_state, release_slot,
}
use llm_broker.Server.RateLimit.Slots.{
  state_of-put, acquire_slot-cases, release_slot-state, release-SameLimits, changed_at,
}
use llm_broker.Server.RateLimit.History.{
  Traffic, times_of, Moves, admits, refuses, ends, Leads, here, next, recent_of, running_of,
  IsWithin, keep-keep, keep-append, keep-now, length-keep, keep-advance, times_of-append,
  count_split,
}

module _ (s : Traffic) (key : String) (now : ℕ) (c : s.clock ≤ now) (w : IsWithin s) where
  abbrev old : RateState
  old = state_of s.limiter key

  kept_later :
      0 < s.limiter.max_per_minute
      → (k : String)
      → keep (is_recent now) (state_of s.limiter k).started
        ≡ keep (is_recent now) (times_of k s.log)
  kept_later h k =
      keep-advance s.clock now (state_of s.limiter k).started (times_of k s.log) c (w.kept h k)

  fewer_later :
      0 < s.limiter.max_per_minute
      → (k : String) → length (keep (is_recent now) (times_of k s.log)) ≤ s.limiter.max_per_minute
  fewer_later h k = omega (arith, length-keep s.clock now (times_of k s.log) c, w.per_minute h k)

  -- The times of the pruned entry are those of the log.
  pruned_log :
      0 < s.limiter.max_per_minute
      → (prune now old).started ≡ keep (is_recent now) (times_of key s.log)
  unfolding prune
  pruned_log h = kept_later h key

  prune_twice :
      0 < s.limiter.max_per_minute
      → keep (is_recent now) (prune now old).started ≡ keep (is_recent now) (times_of key s.log)
  unfolding prune
  prune_twice h = keep-keep now now old.started (omega arith) ∙ kept_later h key

  prune_inflight : (prune now old).inflight ≡ running_of s key
  unfolding prune
  prune_inflight = w.counted key

  refused-IsWithin :
      IsWithin (record s { limiter = put_state key (prune now old) s.limiter; clock = now })
  unfolding put_state
  refused-IsWithin = record {
    counted =
        changed_at (λ x k. x.inflight ≡ running_of s k) key (prune now old) s.limiter
          (put_state key (prune now old) s.limiter)
          (λ k. state_of-put key k (prune now old) s.limiter) prune_inflight (λ k n. w.counted k);
    kept = λ h.
        changed_at (λ x k. keep (is_recent now) x.started ≡ keep (is_recent now) (times_of k s.log))
          key (prune now old) s.limiter (put_state key (prune now old) s.limiter)
          (λ k. state_of-put key k (prune now old) s.limiter) (prune_twice h)
          (λ k n. kept_later h k);
    concurrent = w.concurrent;
    per_minute = fewer_later;
  }

  abbrev new : RateState
  new = start s.limiter now (prune now old)

  abbrev after : Traffic
  after = record {
    limiter = put_state key new s.limiter;
    running = key ∷ s.running;
    log = s.log ++ ((key, now) ∷ []);
    clock = now;
  }

  log_self : times_of key after.log ≡ times_of key s.log ++ (now ∷ [])
  log_self = times_of-append key key now s.log ∙ rw (beq_self key) refl

  log_other : (k : String) → (key == k) ≡ false → times_of k after.log ≡ times_of k s.log
  log_other k n = times_of-append k key now s.log ∙ rw n (append-nil (times_of k s.log))

  started_new : 0 < s.limiter.max_per_minute → new.started ≡ (prune now old).started ++ (now ∷ [])
  unfolding start
  started_new h = ground arith

  recent_self :
      keep (is_recent now) (times_of key after.log)
      ≡ keep (is_recent now) (times_of key s.log) ++ (now ∷ [])
  recent_self =
      ap (keep (is_recent now)) log_self
      ∙ keep-append now (times_of key s.log) (now ∷ [])
      ∙ ap (λ ts. keep (is_recent now) (times_of key s.log) ++ ts) (keep-now now)

  running_after : (k : String) → running_of after k ≡ (if key == k then 1 else 0) + running_of s k
  running_after k = count_split k key [] s.running

  inflight_new : new.inflight ≡ running_of after key
  unfolding start
  inflight_new = ground (arith, prune_inflight, running_after key, beq_self key)

  concurrent_after :
      (0 < s.limiter.max_concurrent → old.inflight < s.limiter.max_concurrent)
      → 0 < s.limiter.max_concurrent
      → (k : String) → running_of after k ≤ s.limiter.max_concurrent
  concurrent_after room h k = elim (Bool-cases (key == k)) [
    | inl t ↦
        subst (λ j. running_of after j ≤ s.limiter.max_concurrent) ((eq_iff key k).0 t)
          (ground (arith, running_after key, beq_self key, w.counted key, room h))
    | inr t ↦ ground (arith, running_after k, w.concurrent h k)
  ]

  rate_after :
      (0 < s.limiter.max_per_minute → length (prune now old).started < s.limiter.max_per_minute)
      → 0 < s.limiter.max_per_minute
      → (k : String) → length (recent_of after k) ≤ s.limiter.max_per_minute
  rate_after rate h k = elim (Bool-cases (key == k)) [
    | inl t ↦
        subst (λ j. length (recent_of after j) ≤ s.limiter.max_per_minute) ((eq_iff key k).0 t)
          (omega (
            arith,
            ap length recent_self,
            length-append (keep (is_recent now) (times_of key s.log)) (now ∷ []),
            ap length (pruned_log h),
            rate h,
          ))
    | inr t ↦
        omega (arith, ap (λ ts. length (keep (is_recent now) ts)) (log_other k t), fewer_later h k)
  ]

  admitted-IsWithin :
      (0 < s.limiter.max_concurrent → old.inflight < s.limiter.max_concurrent)
      → (0 < s.limiter.max_per_minute → length (prune now old).started < s.limiter.max_per_minute)
      → IsWithin after
  unfolding put_state
  admitted-IsWithin room rate = record {
    counted =
        changed_at (λ x k. x.inflight ≡ running_of after k) key new s.limiter after.limiter
          (λ k. state_of-put key k new s.limiter) inflight_new
          (λ k n. w.counted k ∙ sym (running_after k ∙ rw n (omega arith)));
    kept = λ h.
        changed_at
          (λ x k. keep (is_recent now) x.started ≡ keep (is_recent now) (times_of k after.log)) key
          new s.limiter after.limiter (λ k. state_of-put key k new s.limiter)
          (ap (keep (is_recent now)) (started_new h)
            ∙ keep-append now (prune now old).started (now ∷ [])
            ∙ ap (λ ts. keep (is_recent now) (prune now old).started ++ ts) (keep-now now)
            ∙ ap (λ ts. ts ++ (now ∷ [])) (prune_twice h)
            ∙ sym recent_self)
          (λ k n. kept_later h k ∙ ap (keep (is_recent now)) (sym (log_other k n)));
    concurrent = concurrent_after room;
    per_minute = rate_after rate;
  }

-- A request that ends gives its place back, and leaves the log.
module _ (l : RateLimiter) (xs : List String) (key : String) (ys : List String)
    (log : List (String × ℕ)) (clock now : ℕ) where
  abbrev before : Traffic
  before = record { limiter = l; running = xs ++ (key ∷ ys); log = log; clock = clock }

  abbrev ended : Traffic
  ended = record { limiter = release_slot key now l; running = xs ++ ys; log = log; clock = now }

  stop_inflight :
      (state_of l key).inflight ≡ running_of before key
      → (stop l now (state_of l key)).inflight ≡ running_of ended key
  unfolding stop prune
  stop_inflight h = ground (arith, h, count_split key key xs ys, beq_self key)

  stop_started :
      0 < l.max_per_minute
      → (stop l now (state_of l key)).started ≡ keep (is_recent now) (state_of l key).started
  unfolding stop prune
  stop_started h = ground arith

  ended-IsWithin : clock ≤ now → IsWithin before → IsWithin ended
  ended-IsWithin c w =
      let same = release-SameLimits key now l in
      record {
        counted =
            changed_at (λ x k. x.inflight ≡ running_of ended k) key (stop l now (state_of l key)) l
              ended.limiter (λ k. release_slot-state key k now l) (stop_inflight (w.counted key))
              (λ k n. w.counted k ∙ count_split k key xs ys ∙ rw n (omega arith));
        kept = λ h.
            let h' : 0 < l.max_per_minute = subst (λ (m : ℕ). 0 < m) same.per_minute h in
            changed_at
              (λ x k. keep (is_recent now) x.started ≡ keep (is_recent now) (times_of k log)) key
              (stop l now (state_of l key)) l ended.limiter (λ k. release_slot-state key k now l)
              (ap (keep (is_recent now)) (stop_started h')
                ∙ keep-keep now now (state_of l key).started (omega arith)
                ∙ kept_later before key now c w h' key)
              (λ k n. kept_later before key now c w h' k);
        concurrent = λ h k. ground (
          arith,
          same.concurrent,
          count_split k key xs ys,
          w.concurrent,
          w.concurrent (subst (λ (m : ℕ). 0 < m) same.concurrent h) k,
        );
        per_minute = λ h k. ground (
          arith,
          same.per_minute,
          fewer_later before key now c w (subst (λ (m : ℕ). 0 < m) same.per_minute h) k,
        );
      }

-- Whatever a move does to a traffic within the limits, it stays within them.
Moves-IsWithin : {s t : Traffic} → Moves s t → IsWithin s → IsWithin t
Moves-IsWithin (admits {l = l} {running = running} {log = log} {clock = clock} key now c q) w =
    let s : Traffic = record { limiter = l; running = running; log = log; clock = clock } in
    elim (acquire_slot-cases key now l) [
      | inl (e, a) ↦
          subst
            (λ m. IsWithin (record {
              limiter = m;
              running = key ∷ running;
              log = log ++ ((key, now) ∷ []);
              clock = now;
            }))
            (sym a.written ∙ ap (λ r. r.0) q)
            (admitted-IsWithin s key now c w (λ h. a.fewer_running h) (λ h. a.fewer_started h))
      | inr (e, n) ↦ absurd (n (ap (λ r. r.1) q))
    ]
Moves-IsWithin (refuses {l = l} {running = running} {log = log} {clock = clock} key now c q n) w =
    let s : Traffic = record { limiter = l; running = running; log = log; clock = clock } in
    elim (acquire_slot-cases key now l) [
      | inl (e, a) ↦ absurd (n (sym (ap (λ r. r.1) q) ∙ e))
      | inr (e, _) ↦
          subst (λ m. IsWithin (record { limiter = m; running = running; log = log; clock = now }))
            (sym e ∙ ap (λ r. r.0) q) (refused-IsWithin s key now c w)
    ]
Moves-IsWithin (ends {l = l} {log = log} {clock = clock} xs key ys now c) w =
    ended-IsWithin l xs key ys log clock now c w

-- If a traffic is within the limits, so is each traffic that its moves lead to: of every key there
-- run no more requests than the limit, and in the last minute no more were admitted than the limit,
-- each where the limit is set; and the limiter's entries count exactly these.
pub Leads-IsWithin : {s t : Traffic} → IsWithin s → Leads s t → IsWithin t
Leads-IsWithin w here = w
Leads-IsWithin w (next r m) = Moves-IsWithin m (Leads-IsWithin w r)
