-- ===== src/Pool/Acquire/Sound.antt =====
-- internal/pool/pool_schedule.go: what an unbound acquire decides.
use mathlib.Core.Path.{subst}
use llm_broker.Prelude.{
  ℕ, ◌≤◌, String, ◌≡◌, refl, sym, ◌∙◌, false, List, [], ◌∷◌, Option, none, some, inl, inr, ◌⊎◌, Mem,
  All, All_at, All-of_Mem, Map, Entries, values, lookup, string_eq,
}
use llm_broker.Domain.{Account}
use llm_broker.Driver.{SchedulerDriver}
use llm_broker.Pool.{Pool, Env, bucket_key}
use llm_broker.Pool.Results.{ok, err, ok-injective, no_available_accounts}
use llm_broker.Pool.Availability.{RouteRequest}
use llm_broker.Pool.Availability.Serves.{CanServe, qualifies_iff}
use llm_broker.Pool.Choice.{
  BucketCandidate, least_inflight, least_recently_used, select, sort_by_key, goes_before,
  lease_account,
}
use llm_broker.Pool.Choice.Best.{
  least_inflight-Mem, least_inflight_best, least_recently_used-Mem, least_recently_used_least, used,
}
use llm_broker.Pool.Choice.Scan.{
  Fits, IsCandidate, HasSome, collect-Entries, collect-adds, values-All, lookup-Mem,
  Mem-sort_by_key, All-sort_by_key, collect-Unique, lookup_of_Mem, IsNamed,
}
use llm_broker.Pool.Acquire.{Granted, candidates, choose_from, acquire_any}

Mem-All : (as' : List Account) → All (λ a. Mem a as') as'
Mem-All as' = All-of_Mem (λ a. Mem a as') as' (λ a m. m)

module _ (e : Env) (drv : SchedulerDriver) (req : RouteRequest) (p : Pool) where
  abbrev IsOne : BucketCandidate → Type 0
  IsOne b = IsCandidate e drv req p (values p.accounts) b.key b

  forget :
      (m : Map String BucketCandidate)
      → Entries (IsCandidate e drv req p (values p.accounts)) m
      → Entries (λ _. IsOne) m
  forget [] es = tt
  forget ((k, b) ∷ m) es = (
    subst (λ j. IsCandidate e drv req p (values p.accounts) j b) (sym es.0.named) es.0,
    forget m es.1,
  )

  candidates-All : All IsOne (sort_by_key (values (candidates e drv req p)))
  unfolding candidates
  candidates-All = All-sort_by_key IsOne _ (
      values-All IsOne _ (
        forget _ (
          collect-Entries e drv req p (values p.accounts) (values p.accounts) []
            (Mem-All (values p.accounts)) tt)))

  -- A candidate has an account to select, the one that was used least recently.
  select-Mem :
      (b : BucketCandidate)
      → IsOne b
      → (a : Account) × (select b ≡ some a) × Mem a b.accts × All (λ c. used a ≤ used c) b.accts
  unfolding select
  select-Mem b h = go b.accts h.inhabited
    where
      go :
          (xs : List Account)
          → HasSome xs
          → (a : Account) × ((elim xs [ [] ↦ none | a ∷ as' ↦ some (least_recently_used a as') ])
              ≡ some a)
            × Mem a xs
            × All (λ c. used a ≤ used c) xs
      go [] h = absurd h
      go (a ∷ as') h = (
        least_recently_used a as',
        refl,
        least_recently_used-Mem a as',
        least_recently_used_least a as',
      )

  abbrev pub Wins : BucketCandidate → List BucketCandidate → Type 0
  Wins b = All (λ c. goes_before p e.floats drv.provider c b ≡ false)

  -- What the choice among candidates ends with.
  pub record Chosen (claim : Option ℕ) (ls : List BucketCandidate) : Type 0 where
    pub candidate : BucketCandidate
    pub account : Account
    pub offered : Mem candidate ls
    pub wins : Wins candidate ls
    pub member : Mem account candidate.accts
    pub oldest : All (λ c. used account ≤ used c) candidate.accts
    pub leased :
        choose_from e drv req claim p ls
        ≡ ok (lease_account account candidate.class req.affinity_key claim p)

  choose_from_cases :
      (claim : Option ℕ) (ls : List BucketCandidate)
      → All IsOne ls
      → ((ls ≡ []) × (choose_from e drv req claim p ls ≡ err no_available_accounts))
        ⊎ Chosen claim ls
  unfolding choose_from
  choose_from_cases claim [] h = inl (refl, refl)
  choose_from_cases claim (b ∷ bs) h =
      let chosen : BucketCandidate = least_inflight p e.floats drv.provider b bs in
      let inside = least_inflight-Mem p e.floats drv.provider b bs in
      let (a, picked, member, oldest) = select-Mem chosen (All_at IsOne (b ∷ bs) chosen h inside) in
      inr (record {
        candidate = chosen;
        account = a;
        offered = inside;
        wins = least_inflight_best p e.floats drv.provider b bs;
        member = member;
        oldest = oldest;
        leased = rw picked;
      })

  sorted : List BucketCandidate
  sorted = sort_by_key (values (candidates e drv req p))

  found : (b : BucketCandidate) → Mem b sorted → Mem b (values (candidates e drv req p))
  unfolding sorted
  found b =
      All_at (λ c. Mem c (values (candidates e drv req p))) sorted b
        (All-sort_by_key (λ c. Mem c (values (candidates e drv req p))) _
          (All-of_Mem _ _ (λ c m. m)))

  -- The candidate of a serving account's bucket, which holds the account.
  offers :
      (c : Account)
      → Mem c (values p.accounts)
      → CanServe e drv req p c
      → (b : BucketCandidate) × (lookup (bucket_key c) (candidates e drv req p) ≡ some b)
        × Mem c b.accts
  unfolding candidates
  offers c m s =
      collect-adds e drv req p (values p.accounts) (values p.accounts) c [] m
        ((qualifies_iff e drv req p c).1 s)

  offers-Mem :
      (c : Account)
      → Mem c (values p.accounts)
      → CanServe e drv req p c
      → (b : BucketCandidate) × Mem b sorted
  unfolding sorted
  offers-Mem c m s =
      let (b, q, _) = offers c m s in (b, Mem-sort_by_key b _ (lookup-Mem (bucket_key c) b _ q))

  acquire_any_cases :
      (claim : Option ℕ)
      → ((sorted ≡ []) × (acquire_any e drv req claim p ≡ err no_available_accounts))
        ⊎ Chosen claim sorted
  unfolding acquire_any sorted
  acquire_any_cases claim = choose_from_cases claim sorted candidates-All

  -- An account that can serve the request is in the pool: then the acquire leases one.
  pub acquire_any_complete :
      (claim : Option ℕ) (c : Account)
      → Mem c (values p.accounts)
      → CanServe e drv req p c
      → (g : Granted) × (acquire_any e drv req claim p ≡ ok g)
  unfolding acquire_any sorted
  acquire_any_complete claim c m s = elim (acquire_any_cases claim) [
    | inl (q, _) ↦ absurd (subst (Mem (offers-Mem c m s).0) q (offers-Mem c m s).1)
    | inr d ↦ (_, d.leased)
  ]

  -- A successful acquire leases an account of the pool that can serve the request.
  pub acquire_any-CanServe :
      (claim : Option ℕ) (g : Granted)
      → acquire_any e drv req claim p ≡ ok g
      → (a : Account) × (class : String) × Mem a (values p.accounts)
        × CanServe e drv req p a
        × (g ≡ lease_account a class req.affinity_key claim p)
  acquire_any-CanServe claim g h = elim (acquire_any_cases claim) [
    | inl (_, q) ↦ cc
    | inr d ↦
        let fits =
          All_at (Fits e drv req p (values p.accounts) d.candidate.key) d.candidate.accts d.account
            (All_at IsOne sorted d.candidate (unfold sorted in candidates-All) d.offered).fitting
            d.member in
        (
          d.account,
          d.candidate.class,
          fits.listed,
          (qualifies_iff e drv req p d.account).0 fits.qualified,
          ok-injective g _ (sym h ∙ (unfold acquire_any sorted in d.leased)),
        )
  ]

  named :
      (m : Map String BucketCandidate)
      → Entries (IsCandidate e drv req p (values p.accounts)) m
      → Entries IsNamed m
  named [] es = tt
  named ((k, b) ∷ m) es = (es.0.named, named m es.1)

  -- A candidate of the scan is the one that its key finds.
  offered_once :
      (b : BucketCandidate) → Mem b sorted → lookup b.key (candidates e drv req p) ≡ some b
  unfolding candidates
  offered_once b m =
      lookup_of_Mem b _ (found b m) (collect-Unique e drv req p (values p.accounts) [] tt) (
        named _ (
          collect-Entries e drv req p (values p.accounts) (values p.accounts) []
            (Mem-All (values p.accounts)) tt))

  abbrev pub Beats : Account → BucketCandidate → Account → Type 0
  Beats w b c =
      (bucket_key c ≡ bucket_key w → used w ≤ used c)
      × ((b' : BucketCandidate) × (lookup (bucket_key c) (candidates e drv req p) ≡ some b')
          × (goes_before p e.floats drv.provider b' b ≡ false))

  Chosen-Beats :
      (claim : Option ℕ) (d : Chosen claim sorted) (c : Account)
      → Mem c (values p.accounts)
      → CanServe e drv req p c
      → bucket_key d.account ≡ d.candidate.key
      → Beats d.account d.candidate c
  Chosen-Beats claim d c m s k =
      let (b', q, i) = offers c m s in
      (
        λ same.
            let one : some d.candidate ≡ some b' =
              sym (offered_once d.candidate d.offered) ∙ rw (← k, ← same) q in
            let eq : b' ≡ d.candidate = cc in
            All_at (λ x. used d.account ≤ used x) d.candidate.accts c d.oldest
              (subst (λ x. Mem c x.accts) eq i),
        (
          b',
          q,
          All_at (λ x. goes_before p e.floats drv.provider x d.candidate ≡ false) sorted b' d.wins
              (unfold sorted in Mem-sort_by_key b' _ (lookup-Mem (bucket_key c) b' _ q)),
        ),
      )

  -- A successful acquire leases an account of a candidate bucket: no candidate with an account that
  -- can serve the request goes before it, and no such account of the same bucket was used earlier.
  pub acquire_any_best :
      (claim : Option ℕ) (g : Granted)
      → acquire_any e drv req claim p ≡ ok g
      → (w : Account) × (b : BucketCandidate) × (lookup (bucket_key w) (candidates e drv req p)
          ≡ some b)
        × (g ≡ lease_account w b.class req.affinity_key claim p)
        × ((c : Account) → Mem c (values p.accounts) → CanServe e drv req p c → Beats w b c)
  acquire_any_best claim g h = elim (acquire_any_cases claim) [
    | inl (_, q) ↦ cc
    | inr d ↦
        let k : bucket_key d.account ≡ d.candidate.key =
          (All_at (Fits e drv req p (values p.accounts) d.candidate.key) d.candidate.accts d.account
            (All_at IsOne sorted d.candidate (unfold sorted in candidates-All) d.offered).fitting
            d.member).keyed in
        (
          d.account,
          d.candidate,
          rw k (offered_once d.candidate d.offered),
          ok-injective g _ (sym h ∙ (unfold acquire_any sorted in d.leased)),
          λ c m s. Chosen-Beats claim d c m s k,
        )
  ]
