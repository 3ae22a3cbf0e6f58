-- ===== src/Relay/Loop/Distinct.antt =====
-- internal/relay/relay_flow.go: no account is tried twice.
use llm_broker.Prelude.{
  ℕ, zero, suc, String, Bool, true, false, ◌≡◌, ◌≢◌, refl, sym, ap, ◌∙◌, ◌⊎◌, inl, inr, List, [],
  ◌∷◌, ◌++◌, Bool-cases, arith, Mem, All_at, Mem-append_left, Mem-append_right,
}
use mathlib.Core.Path.{subst}
use mathlib.Core.List.{append-nil}
use llm_broker.Domain.{Account}
use llm_broker.Pool.Availability.{RouteRequest, Exclusion}
use llm_broker.Pool.Availability.Serves.{Spares}
use llm_broker.Relay.Answers.{
  Prepared, RelayConfig, ExecutionDriver, Answers, leased, AcquireError, continues, stops, done,
  AttemptState, Call, Step, acquires, aborts, new_attempt_state,
}
use llm_broker.Relay.Attempt.{route_request, on_leased, on_unleased, between_lease, execute_attempt}
use llm_broker.Relay.Loop.{finish_failure, proceed, rounds_of, relay_from, relay}
use llm_broker.Relay.Loop.Rounds.{Acquired-cases, all_keep, IsRound, on_leased-IsRound}
use llm_broker.Relay.Loop.Excluded.{Names, Moves, ends_done, ends_stops, bars, on_leased-Moves}

-- The accounts that are leased, in order.
leased_of : Call → List String → List String
leased_of (acquires a) ids = a.id ∷ ids
leased_of _ ids = ids

unfoldable pub leased_ids : List Call → List String
unfolding leased_of
leased_ids [] = []
leased_ids (c ∷ cs) = leased_of c (leased_ids cs)

abbrev pub Distinct : List String → Type 0
Distinct [] = Unit
Distinct (id ∷ ids) = ¬ Mem id ids × Distinct ids

-- Every account leased has an id and its own bucket key, and no exclusion of the request names it.
abbrev pub Respects : (String → String) → Answers → Type 0
Respects bucket ans =
    (req : RouteRequest) (a : Account)
    → ans.acquire req ≡ leased a
    → (a.id ≢ "")
      × (a.bucket_key ≡ bucket a.id)
      × Spares (λ x. x.account_id) a.id req.exclusions
      × Spares (λ x. x.bucket_key) a.bucket_key req.exclusions

-- An exclusion names the account with this id.
record Bars (bucket : String → String) (id : String) (xs : List Exclusion) : Type 0 where
  by : Exclusion
  listed : Mem by xs
  named : ((by.account_id ≡ id) × (id ≢ "")) ⊎ ((by.bucket_key ≡ bucket id) × (bucket id ≢ ""))

Bars-append :
    (bucket : String → String) (id : String) (xs ys : List Exclusion)
    → Bars bucket id xs
    → Bars bucket id (xs ++ ys)
Bars-append bucket id xs ys b = record {
  by = b.by;
  listed = Mem-append_left xs ys b.by b.listed;
  named = b.named;
}

Bars-Names :
    (bucket : String → String) (a : Account) (xs : List Exclusion) (x : Exclusion)
    → a.id ≢ ""
    → a.bucket_key ≡ bucket a.id
    → Names a x
    → Bars bucket a.id (xs ++ (x ∷ []))
Bars-Names bucket a xs x i k (inl e) = record {
  by = x;
  listed = Mem-append_right xs (x ∷ []) x (inl refl);
  named = inl (ap (λ (y : Exclusion). y.account_id) e, i);
}
Bars-Names bucket a xs x i k (inr (e, n)) = record {
  by = x;
  listed = Mem-append_right xs (x ∷ []) x (inl refl);
  named = inr (ap (λ (y : Exclusion). y.bucket_key) e ∙ k, λ z. n (k ∙ z));
}

-- An account that is barred is not the one leased.
Bars-spared :
    (bucket : String → String) (id : String) (xs : List Exclusion) (a : Account)
    → Bars bucket id xs
    → a.bucket_key ≡ bucket a.id
    → Spares (λ x. x.account_id) a.id xs
    → Spares (λ x. x.bucket_key) a.bucket_key xs
    → id ≢ a.id
Bars-spared bucket id xs a b k s t e = elim b.named [
  | inl (n, i) ↦
      elim (All_at (λ x. (x.account_id ≡ "") ⊎ (x.account_id ≢ a.id)) xs b.by s b.listed) [
        | inl z ↦ i (sym n ∙ z)
        | inr d ↦ d (n ∙ e)
      ]
  | inr (n, i) ↦
      elim (All_at (λ x. (x.bucket_key ≡ "") ⊎ (x.bucket_key ≢ a.bucket_key)) xs b.by t b.listed) [
        | inl z ↦ i (sym n ∙ z)
        | inr d ↦ d (n ∙ ap bucket e ∙ sym k)
      ]
]

leased_ids-append : (xs ys : List Call) → leased_ids (xs ++ ys) ≡ leased_ids xs ++ leased_ids ys
unfolding leased_ids
leased_ids-append [] ys = refl
leased_ids-append (c ∷ xs) ys = ground (arith, leased_ids-append xs ys)

leased_ids-keep : (cs : List Call) → all_keep cs ≡ true → leased_ids cs ≡ []
unfolding leased_ids
leased_ids-keep [] h = refl
leased_ids-keep (c ∷ cs) h = ground (arith, leased_ids-keep cs)

leased_ids-nil : leased_ids [] ≡ []
unfolding leased_ids
leased_ids-nil = refl

-- What is leased after an attempt.
abbrev rest_of : (AttemptState → List Call) → Step → List String
rest_of next (continues, st, calls) = leased_ids (next st)
rest_of next (stops, st, calls) = []
rest_of next (done, st, calls) = []

leased_ids-finish_failure : (st : AttemptState) → leased_ids (finish_failure st) ≡ []
unfolding leased_ids finish_failure
leased_ids-finish_failure st = ground arith

leased_ids-lease :
    (a : Account) (calls more : List Call)
    → all_keep calls ≡ true
    → leased_ids ((acquires a ∷ (calls ++ (aborts ∷ []))) ++ more) ≡ a.id ∷ leased_ids more
unfolding leased_ids
leased_ids-lease a calls more h = ground (
  arith,
  leased_ids-append (calls ++ (aborts ∷ [])) more,
  leased_ids-append calls (aborts ∷ []),
  leased_ids-keep calls h,
)

module _ (bucket : String → String) where
  -- No barred account is leased, and none twice.
  record Fresh (xs : List Exclusion) (ids : List String) : Type 0 where
    unbarred : (id : String) → Bars bucket id xs → ¬ Mem id ids
    distinct : Distinct ids

  Fresh-nil : (xs : List Exclusion) → Fresh xs []
  Fresh-nil xs = record { unbarred = λ id b m. elim m [ ]; distinct = tt }

  Fresh-rest :
      (a : Account) (xs : List Exclusion) (next : AttemptState → List Call) (s : Step)
      → a.id ≢ ""
      → a.bucket_key ≡ bucket a.id
      → Moves a xs s
      → ((st : AttemptState) → Fresh st.exclusions (leased_ids (next st)))
      → Fresh xs (rest_of next s) × (¬ Mem a.id (rest_of next s))
  Fresh-rest a xs next _ i k ends_done h = (Fresh-nil xs, λ m. elim m [ ])
  Fresh-rest a xs next _ i k ends_stops h = (Fresh-nil xs, λ m. elim m [ ])
  Fresh-rest a xs next _ i k (bars {st} x n e) h =
      let f : Fresh (xs ++ (x ∷ [])) (leased_ids (next st)) =
        subst (λ ys. Fresh ys (leased_ids (next st))) e (h st) in
      (
        record {
          unbarred = λ id b. f.unbarred id (Bars-append bucket id xs (x ∷ []) b);
          distinct = f.distinct;
        },
        f.unbarred a.id (Bars-Names bucket a xs x i k n),
      )

  module _ (cfg : RelayConfig) (drv : ExecutionDriver) (pr : Prepared) where
    module _ (ans : Answers) (attempt : ℕ) where
      leased_ids-proceed :
          (next : AttemptState → List Call) (a : Account) (s : Step)
          → IsRound s
          → leased_ids (proceed next (between_lease cfg drv pr ans attempt a s))
            ≡ a.id ∷ rest_of next s
      unfolding proceed
      leased_ids-proceed next a (continues, st, calls) r = leased_ids-lease a calls (next st) r.1
      leased_ids-proceed next a (stops, st, calls) r =
          leased_ids-lease a calls (finish_failure st) r.1
          ∙ ap (λ ids. a.id ∷ ids) (leased_ids-finish_failure st)
      leased_ids-proceed next a (done, st, calls) r =
          ap leased_ids (sym (append-nil (acquires a ∷ (calls ++ (aborts ∷ [])))))
          ∙ leased_ids-lease a calls [] r.1
          ∙ ap (λ ids. a.id ∷ ids) leased_ids-nil

      leased_ids-unleased :
          (next : AttemptState → List Call) (x : AcquireError) (st : AttemptState)
          → leased_ids (proceed next (on_unleased cfg drv pr ans attempt x st)) ≡ []
      unfolding proceed on_unleased leased_ids finish_failure
      leased_ids-unleased next x st = ground arith

      execute_attempt-cases :
          (st : AttemptState)
          → ((a : Account) × (ans.acquire (route_request cfg drv pr ans attempt st) ≡ leased a)
              × (execute_attempt cfg drv pr ans attempt st
                  ≡ between_lease cfg drv pr ans attempt a
                      (on_leased cfg drv pr ans attempt a (record st { retry_account_id = "" }))))
            ⊎ ((x : AcquireError) × (execute_attempt cfg drv pr ans attempt st
                  ≡ on_unleased cfg drv pr ans attempt x st))
      unfolding execute_attempt
      execute_attempt-cases st =
          elim (Acquired-cases (ans.acquire (route_request cfg drv pr ans attempt st))) [
            | inl (a, q) ↦ inl (a, q, rw (q, execute_attempt) refl)
            | inr (x, q) ↦ inr (x, rw (q, execute_attempt) refl)
          ]

      Fresh-attempt :
          ((status : ℕ) (body : String) (n : ℕ) → drv.retry_same_account status body n ≡ false)
          → Respects bucket ans
          → (next : AttemptState → List Call) (st : AttemptState)
          → ((st' : AttemptState) → Fresh st'.exclusions (leased_ids (next st')))
          → Fresh st.exclusions
              (leased_ids (proceed next (execute_attempt cfg drv pr ans attempt st)))
      unfolding route_request
      Fresh-attempt never spares next st h =
          let st' : AttemptState = record st { retry_account_id = "" } in
          elim (execute_attempt-cases st) [
            | inl (a, q, z) ↦
                let s : Step = on_leased cfg drv pr ans attempt a st' in
                let g = spares (route_request cfg drv pr ans attempt st) a q in
                let f =
                  Fresh-rest a st.exclusions next s g.0 g.1
                    (on_leased-Moves cfg drv pr ans attempt a never st') h in
                subst (λ w. Fresh st.exclusions (leased_ids (proceed next w))) (sym z)
                  (subst (Fresh st.exclusions)
                    (sym (
                      leased_ids-proceed next a s (on_leased-IsRound cfg drv pr ans attempt a st')))
                    (record {
                      unbarred = λ id b m. elim m [
                        | inl e ↦ Bars-spared bucket id st.exclusions a b g.1 g.2 g.3 e
                        | inr t ↦ f.0.unbarred id b t
                      ];
                      distinct = (f.1, f.0.distinct);
                    }))
            | inr (x, z) ↦
                subst (λ w. Fresh st.exclusions (leased_ids (proceed next w))) (sym z)
                  (subst (Fresh st.exclusions) (sym (leased_ids-unleased next x st))
                    (Fresh-nil st.exclusions))
          ]

    module _ (answers : ℕ → Answers) (cancelled : ℕ → Bool) where
      Fresh-relay_from :
          ((status : ℕ) (body : String) (n : ℕ) → drv.retry_same_account status body n ≡ false)
          → ((k : ℕ) → Respects bucket (answers k))
          → (n attempt : ℕ) (st : AttemptState)
          → Fresh st.exclusions (leased_ids (relay_from cfg drv pr answers cancelled n attempt st))
      unfolding relay_from
      Fresh-relay_from never spares zero attempt st =
          subst (Fresh st.exclusions) (sym (leased_ids-finish_failure st)) (Fresh-nil st.exclusions)
      Fresh-relay_from never spares (suc n) attempt st = elim (Bool-cases (cancelled attempt)) [
        | inl c ↦ rw c (subst (Fresh st.exclusions) (sym leased_ids-nil) (Fresh-nil st.exclusions))
        | inr c ↦ rw c (
            Fresh-attempt (answers attempt) attempt never (spares attempt)
              (relay_from cfg drv pr answers cancelled n (suc attempt)) st
              (Fresh-relay_from never spares n (suc attempt)))
      ]

      -- When the driver never retries on the same account, and every account that is leased to an attempt
      -- has an id, the bucket key of its id, and is not named by the exclusions of the attempt's request,
      -- then no two attempts of the request lease the same account.
      pub relay-Distinct :
          ((status : ℕ) (body : String) (n : ℕ) → drv.retry_same_account status body n ≡ false)
          → ((k : ℕ) → Respects bucket (answers k))
          → Distinct (leased_ids (relay cfg drv pr answers cancelled))
      unfolding relay
      relay-Distinct never spares =
          (Fresh-relay_from never spares (rounds_of cfg.max_retry_accounts) 0
            new_attempt_state).distinct
