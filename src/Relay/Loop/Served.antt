-- ===== src/Relay/Loop/Served.antt =====
-- internal/relay/relay_flow.go: what the client gets, and how the relay uses its leases.
use llm_broker.Prelude.{
  ℕ, zero, suc, ◌≤◌, Bool, true, false, not, ◌&&◌, ◌≡◌, refl, inl, inr, List, [], ◌∷◌, ◌++◌,
  count_if, count_if-append, Bool-cases, arith,
}
use llm_broker.Domain.{Account}
use llm_broker.Relay.Answers.{
  Prepared, RelayConfig, ExecutionDriver, Answers, AcquireError, Outcome, continues, stops, done,
  AttemptState, Call, Step, aborts, new_attempt_state,
}
use llm_broker.Relay.Attempt.{route_request, on_leased, on_unleased, between_lease, execute_attempt}
use llm_broker.Relay.Loop.{finish_failure, proceed, rounds_of, relay_from, relay}
use llm_broker.Relay.Loop.Rounds.{
  is_reply, owed, LeaseUse, takes, gives, needs, free, lease_use, Acquired-cases, all_keep, IsRound,
  on_leased-IsRound,
}

abbrev is_take : LeaseUse → Bool
is_take takes = true
is_take gives = false
is_take needs = false
is_take free = false

abbrev pub is_acquire : Call → Bool
is_acquire c = is_take (lease_use c)

abbrev pub fits : LeaseUse → Bool → Bool
fits takes held = not held
fits gives held = held
fits needs held = held
fits free held = true

abbrev pub after : LeaseUse → Bool → Bool
after takes held = true
after gives held = false
after needs held = held
after free held = held

-- Leases are taken one at a time and given back, and are accepted and finished only while held.
unfoldable pub well_leased : Bool → List Call → Bool
well_leased held [] = not held
well_leased held (c ∷ cs) = fits (lease_use c) held && well_leased (after (lease_use c) held) cs

well_leased-aborts :
    (cs : List Call) → all_keep cs ≡ true → well_leased true (cs ++ (aborts ∷ [])) ≡ true
unfolding well_leased
well_leased-aborts [] h = refl
well_leased-aborts (c ∷ cs) h = ground (arith, h, well_leased-aborts cs)

well_leased-append :
    (held : Bool) (xs ys : List Call)
    → well_leased held xs ≡ true
    → well_leased false ys ≡ true
    → well_leased held (xs ++ ys) ≡ true
unfolding well_leased
well_leased-append held [] ys h k = ground (arith, h, k)
well_leased-append held (c ∷ xs) ys h k =
    ground (arith, well_leased-append (after (lease_use c) held) xs ys)

acquires-all_keep : (cs : List Call) → all_keep cs ≡ true → count_if is_acquire cs ≡ 0
unfolding count_if
acquires-all_keep [] h = refl
acquires-all_keep (c ∷ cs) h = ground (arith, acquires-all_keep cs)

-- An attempt writes a reply exactly when it is done, and takes one lease at most, which it gives back.
abbrev IsServed : Step → Type 0
IsServed (o, st, calls) =
    (count_if is_reply calls ≡ owed o)
    × (well_leased false calls ≡ true)
    × (count_if is_acquire calls ≤ 1)

finish_failure-replies : (st : AttemptState) → count_if is_reply (finish_failure st) ≡ 1
unfolding finish_failure count_if
finish_failure-replies st = ground arith

finish_failure-leases :
    (st : AttemptState)
    → (well_leased false (finish_failure st) ≡ true) × (count_if is_acquire (finish_failure st) ≡ 0)
unfolding finish_failure count_if well_leased
finish_failure-leases st = ground arith

module _ (cfg : RelayConfig) (drv : ExecutionDriver) (pr : Prepared) (ans : Answers)
    (attempt : ℕ) where
  between_lease-IsServed :
      (a : Account) (s : Step) → IsRound s → IsServed (between_lease cfg drv pr ans attempt a s)
  unfolding count_if well_leased
  between_lease-IsServed a (o, st, calls) (r, k) = (
    ground (arith, r, count_if-append is_reply calls (aborts ∷ [])),
    ground (arith, k, well_leased-aborts calls),
    ground (arith, k, acquires-all_keep calls, count_if-append is_acquire calls (aborts ∷ [])),
  )

  on_unleased-IsServed :
      (x : AcquireError) (st : AttemptState) → IsServed (on_unleased cfg drv pr ans attempt x st)
  unfolding on_unleased count_if well_leased
  on_unleased-IsServed x st = ground arith

  execute_attempt-IsServed :
      (st : AttemptState) → IsServed (execute_attempt cfg drv pr ans attempt st)
  unfolding execute_attempt
  execute_attempt-IsServed st =
      let st' : AttemptState = record st { retry_account_id = "" } in
      elim (Acquired-cases (ans.acquire (route_request cfg drv pr ans attempt st))) [
        | inl (a, q) ↦
            rw (q, execute_attempt)
              (between_lease-IsServed a (on_leased cfg drv pr ans attempt a st')
                (on_leased-IsRound cfg drv pr ans attempt a st'))
        | inr (x, q) ↦ rw (q, execute_attempt) (on_unleased-IsServed x st)
      ]

-- The calls from one attempt on, when it is followed by calls that are in order themselves.
record InOrder (rounds : ℕ) (cs : List Call) : Type 0 where
  replied : count_if is_reply cs ≤ 1
  leased_well : well_leased false cs ≡ true
  bounded : count_if is_acquire cs ≤ rounds

finish_failure-InOrder : (n : ℕ) (st : AttemptState) → InOrder n (finish_failure st)
finish_failure-InOrder n st = record {
  replied = omega (arith, finish_failure-replies st);
  leased_well = (finish_failure-leases st).0;
  bounded = omega (arith, (finish_failure-leases st).1);
}

InOrder-append :
    (o : Outcome) (st : AttemptState) (xs ys : List Call) (n : ℕ)
    → IsServed (o, st, xs)
    → owed o ≡ 0
    → InOrder n ys
    → InOrder (suc n) (xs ++ ys)
InOrder-append o st xs ys n s z k = record {
  replied = omega (arith, s.0, z, k.replied, count_if-append is_reply xs ys);
  leased_well = well_leased-append false xs ys s.1 k.leased_well;
  bounded = omega (arith, s.2, k.bounded, count_if-append is_acquire xs ys);
}

proceed-InOrder :
    (next : AttemptState → List Call) (n : ℕ) (s : Step)
    → IsServed s
    → ((st : AttemptState) → InOrder n (next st))
    → InOrder (suc n) (proceed next s)
unfolding proceed
proceed-InOrder next n (continues, st, xs) s h =
    InOrder-append continues st xs (next st) n s refl (h st)
proceed-InOrder next n (stops, st, xs) s h =
    InOrder-append stops st xs (finish_failure st) n s refl (finish_failure-InOrder n st)
proceed-InOrder next n (done, st, xs) s h = record {
  replied = omega (arith, s.0);
  leased_well = s.1;
  bounded = omega (arith, s.2);
}

proceed-replies :
    (next : AttemptState → List Call) (s : Step)
    → IsServed s
    → ((st : AttemptState) → count_if is_reply (next st) ≡ 1)
    → count_if is_reply (proceed next s) ≡ 1
unfolding proceed
proceed-replies next (continues, st, xs) s h =
    omega (arith, s.0, h st, count_if-append is_reply xs (next st))
proceed-replies next (stops, st, xs) s h =
    omega (arith, s.0, finish_failure-replies st, count_if-append is_reply xs (finish_failure st))
proceed-replies next (done, st, xs) s h = s.0

module _ (cfg : RelayConfig) (drv : ExecutionDriver) (pr : Prepared) (answers : ℕ → Answers) where
  relay_from-InOrder :
      (cancelled : ℕ → Bool) (n attempt : ℕ) (st : AttemptState)
      → InOrder n (relay_from cfg drv pr answers cancelled n attempt st)
  unfolding relay_from count_if well_leased
  relay_from-InOrder cancelled zero attempt st = finish_failure-InOrder zero st
  relay_from-InOrder cancelled (suc n) attempt st = elim (Bool-cases (cancelled attempt)) [
    | inl c ↦ rw c (record { replied = omega arith; leased_well = refl; bounded = omega arith })
    | inr c ↦ rw c (
        proceed-InOrder (relay_from cfg drv pr answers cancelled n (suc attempt)) n
          (execute_attempt cfg drv pr (answers attempt) attempt st)
          (execute_attempt-IsServed cfg drv pr (answers attempt) attempt st)
          (relay_from-InOrder cancelled n (suc attempt)))
  ]

  relay_from-replies :
      (n attempt : ℕ) (st : AttemptState)
      → count_if is_reply (relay_from cfg drv pr answers (λ (k : ℕ). false) n attempt st) ≡ 1
  unfolding relay_from
  relay_from-replies zero attempt st = finish_failure-replies st
  relay_from-replies (suc n) attempt st =
      proceed-replies (relay_from cfg drv pr answers (λ (k : ℕ). false) n (suc attempt))
        (execute_attempt cfg drv pr (answers attempt) attempt st)
        (execute_attempt-IsServed cfg drv pr (answers attempt) attempt st)
        (relay_from-replies n (suc attempt))

  -- However the services answer, a request whose context never ends gets exactly one reply.
  pub relay-replies : count_if is_reply (relay cfg drv pr answers (λ (k : ℕ). false)) ≡ 1
  unfolding relay
  relay-replies = relay_from-replies (rounds_of cfg.max_retry_accounts) 0 new_attempt_state

  -- However the services answer and whenever the request's context ends, the client gets one reply at
  -- most, leases are taken one at a time, each is given back before the next is taken and before the end,
  -- a lease is accepted and finished only while it is held, and there are at most `max_retry_accounts`
  -- and one more leases, none for a negative number.
  pub relay_bounded :
      (cancelled : ℕ → Bool)
      → (count_if is_reply (relay cfg drv pr answers cancelled) ≤ 1)
        × (well_leased false (relay cfg drv pr answers cancelled) ≡ true)
        × (count_if is_acquire (relay cfg drv pr answers cancelled)
            ≤ rounds_of cfg.max_retry_accounts)
  unfolding relay
  relay_bounded cancelled =
      let h : InOrder (rounds_of cfg.max_retry_accounts) (
          relay_from cfg drv pr answers cancelled (rounds_of cfg.max_retry_accounts) 0
            new_attempt_state) =
        relay_from-InOrder cancelled (rounds_of cfg.max_retry_accounts) 0 new_attempt_state in
      (h.replied, h.leased_well, h.bounded)
