-- ===== src/Pool/Choice/Best.antt =====
-- The loops of pool_schedule.go that keep the best element so far.
use llm_broker.Prelude.{
  ℕ, ◌≤◌, String, true, false, ◌≡◌, refl, List, [], ◌∷◌, inl, inr, arith, Bool-cases, Mem, Mem_if,
  All, if◌then◌else◌, ltb,
}
use llm_broker.Prelude.Text.{str_lt_irrefl, str_lt_trans, str_lt_neg_trans}
use llm_broker.Domain.{Account}
use llm_broker.Pool.{Pool}
use llm_broker.Pool.Routes.{Float64}
use llm_broker.Pool.Buckets.{time_or_zero}
use llm_broker.Pool.Choice.{BucketCandidate, goes_before, least_inflight, least_recently_used}

module _ (p : Pool) (f : Float64) (provider : String) where
  goes_before_irrefl : (c : BucketCandidate) → goes_before p f provider c c ≡ false
  unfolding goes_before
  goes_before_irrefl c = ground (arith, str_lt_irrefl c.key)

  goes_before_trans :
      (a b c : BucketCandidate)
      → goes_before p f provider a b ≡ true
      → goes_before p f provider b c ≡ true
      → goes_before p f provider a c ≡ true
  unfolding goes_before
  goes_before_trans a b c h k = ground (arith, str_lt_trans a.key b.key c.key)

  abbrev IsBest : BucketCandidate → BucketCandidate → Type 0
  IsBest b c = goes_before p f provider c b ≡ false

  goes_before_neg_trans :
      (a b c : BucketCandidate)
      → goes_before p f provider a b ≡ false
      → goes_before p f provider b c ≡ false
      → goes_before p f provider a c ≡ false
  unfolding goes_before
  goes_before_neg_trans a b c h k = ground (arith, str_lt_neg_trans a.key b.key c.key)

  -- Neither of two candidates is lost by the loop's update.
  keep-IsBest :
      (c best r : BucketCandidate)
      → IsBest r (if goes_before p f provider c best then c else best)
      → IsBest r best × IsBest r c
  keep-IsBest c best r h = elim (Bool-cases (goes_before p f provider c best)) [
    | inl e ↦
        let below : IsBest r c = rw e at h in
        (ground (arith, goes_before_trans c best r e, below), below)
    | inr e ↦ let same : IsBest r best = rw e at h in (same, goes_before_neg_trans c best r e same)
  ]

  -- No candidate goes before the one that the loop ends with.
  pub least_inflight_best :
      (best : BucketCandidate) (cs : List BucketCandidate)
      → let r = least_inflight p f provider best cs in
        (goes_before p f provider best r ≡ false)
        × All (λ c. goes_before p f provider c r ≡ false) cs
  unfolding least_inflight
  least_inflight_best best [] = (goes_before_irrefl best, tt)
  least_inflight_best best (c ∷ cs) =
      let rest = least_inflight_best (if goes_before p f provider c best then c else best) cs in
      let r =
        least_inflight p f provider (if goes_before p f provider c best then c else best) cs in
      let two = keep-IsBest c best r rest.0 in (two.0, (two.1, rest.1))

  -- The loop ends with one of the candidates.
  pub least_inflight-Mem :
      (best : BucketCandidate) (cs : List BucketCandidate)
      → Mem (least_inflight p f provider best cs) (best ∷ cs)
  unfolding least_inflight
  least_inflight-Mem best [] = inl refl
  least_inflight-Mem best (c ∷ cs) =
      Mem_if (goes_before p f provider c best) c best cs
        (least_inflight-Mem (if goes_before p f provider c best then c else best) cs)

abbrev pub used : Account → ℕ
used a = time_or_zero a.last_used_at

pub least_recently_used-Mem :
    (best : Account) (as' : List Account) → Mem (least_recently_used best as') (best ∷ as')
unfolding least_recently_used
least_recently_used-Mem best [] = inl refl
least_recently_used-Mem best (a ∷ as') =
    Mem_if (ltb (used a) (used best)) a best as'
      (least_recently_used-Mem (if ltb (used a) (used best) then a else best) as')

keep_least :
    (a best r : Account)
    → used r ≤ used (if ltb (used a) (used best) then a else best)
    → (used r ≤ used best) × (used r ≤ used a)
keep_least a best r h = ground arith

-- No account was used before the one that the loop ends with.
pub least_recently_used_least :
    (best : Account) (as' : List Account)
    → let r = least_recently_used best as' in (used r ≤ used best) × All (λ a. used r ≤ used a) as'
unfolding least_recently_used
least_recently_used_least best [] = (omega arith, tt)
least_recently_used_least best (a ∷ as') =
    let rest = least_recently_used_least (if ltb (used a) (used best) then a else best) as' in
    let two =
      keep_least a best (least_recently_used (if ltb (used a) (used best) then a else best) as')
        rest.0 in
    (two.0, (two.1, rest.1))
