-- ===== src/Relay/Loop/Rounds.antt =====
-- What each handler of internal/relay/relay_attempt.go writes to the client, and that it leaves the lease alone.
use llm_broker.Prelude.{
  ℕ, String, Bool, true, false, ◌&&◌, ◌≡◌, refl, ◌⊎◌, inl, inr, List, [], ◌∷◌, count_if, Bool-cases,
  nat_beq, arith,
}
use llm_broker.Prelude.Int.{pos, ltb_ℤ}
use llm_broker.Domain.{Account}
use llm_broker.Relay.Answers.{
  Prepared, RelayConfig, ExecutionDriver, Answers, Response, Sent, answered, failed, Built, request,
  invalid, unbuildable, Acquired, leased, unleased, AcquireError, accepted, broken, found, Outcome,
  continues, stops, done, AttemptState, Call, Step, acquires, aborts, finishes, accepts, observes,
  cools_cell, logs, writes_error, writes_upstream_error, writes_stream, writes_json, publishes,
}
use llm_broker.Relay.Attempt.{
  on_retriable, on_rejected, serve_stream, serve_json, on_preflight, finish_success, on_response,
  on_unsent, on_built, on_leased,
}

abbrev pub is_reply : Call → Bool
is_reply (writes_error code message) = true
is_reply (writes_upstream_error code body) = true
is_reply writes_stream = true
is_reply (writes_json code body) = true
is_reply (acquires a) = false
is_reply aborts = false
is_reply finishes = false
is_reply accepts = false
is_reply (observes id eff) = false
is_reply (cools_cell id until) = false
is_reply (logs entry) = false
is_reply (publishes x) = false

-- How many replies an attempt with the outcome has written.
abbrev pub owed : Outcome → ℕ
owed done = 1
owed stops = 0
owed continues = 0

pub data LeaseUse : Type 0 where
  takes gives needs free : LeaseUse

abbrev pub lease_use : Call → LeaseUse
lease_use (acquires a) = takes
lease_use aborts = gives
lease_use finishes = needs
lease_use accepts = needs
lease_use (writes_error code message) = free
lease_use (writes_upstream_error code body) = free
lease_use writes_stream = free
lease_use (writes_json code body) = free
lease_use (observes id eff) = free
lease_use (cools_cell id until) = free
lease_use (logs entry) = free
lease_use (publishes x) = free

-- Neither takes a lease nor gives it back.
abbrev pub keeps_lease : LeaseUse → Bool
keeps_lease takes = false
keeps_lease gives = false
keeps_lease needs = true
keeps_lease free = true

abbrev pub all_keep : List Call → Bool
all_keep [] = true
all_keep (c ∷ cs) = keeps_lease (lease_use c) && all_keep cs

abbrev pub IsRound : Step → Type 0
IsRound (o, st, calls) = (count_if is_reply calls ≡ owed o) × (all_keep calls ≡ true)

pub Acquired-cases :
    (q : Acquired) → ((a : Account) × (q ≡ leased a)) ⊎ ((x : AcquireError) × (q ≡ unleased x))
Acquired-cases (leased a) = inl (a, refl)
Acquired-cases (unleased x) = inr (x, refl)

pub Built-cases :
    (b : Built)
    → ((code : ℕ) × (message : String) × (b ≡ invalid code message))
      ⊎ (b ≡ unbuildable)
      ⊎ (b ≡ request)
Built-cases (invalid code message) = inl (code, message, refl)
Built-cases unbuildable = inr (inl refl)
Built-cases request = inr (inr refl)

pub Sent-cases : (s : Sent) → ((r : Response) × (s ≡ answered r)) ⊎ ((t : Bool) × (s ≡ failed t))
Sent-cases (answered r) = inl (r, refl)
Sent-cases (failed t) = inr (t, refl)

module _ (cfg : RelayConfig) (drv : ExecutionDriver) (pr : Prepared) (ans : Answers)
    (attempt : ℕ) where
  on_retriable-IsRound :
      (a : Account) (r : Response) (st : AttemptState)
      → IsRound (on_retriable cfg drv pr ans attempt a r st)
  unfolding on_retriable count_if
  on_retriable-IsRound a r st = ground arith

  on_rejected-IsRound :
      (a : Account) (r : Response) (st : AttemptState)
      → IsRound (on_rejected cfg drv pr ans attempt a r st)
  unfolding on_rejected count_if
  on_rejected-IsRound a r st = ground arith

  serve_stream-IsRound :
      (a : Account) (r : Response) (st : AttemptState)
      → IsRound (serve_stream cfg drv pr ans attempt a r st)
  unfolding serve_stream count_if
  serve_stream-IsRound a r st = ground arith

  serve_json-IsRound :
      (a : Account) (r : Response) (st : AttemptState)
      → IsRound (serve_json cfg drv pr ans attempt a r st)
  unfolding serve_json count_if
  serve_json-IsRound a r st = ground arith

  on_preflight-IsRound :
      (a : Account) (r : Response) (st : AttemptState)
      → IsRound (on_preflight cfg drv pr ans attempt a r st)
  unfolding on_preflight count_if
  on_preflight-IsRound a r st =
      elim ans.preflight
        as (λ p. IsRound (on_preflight cfg drv pr (record ans { preflight = p }) attempt a r st)) [
          | accepted ↦ serve_stream-IsRound a r st
          | broken ↦ (refl, refl)
          | found eff body ↦ (refl, refl)
        ]

  finish_success-IsRound :
      (a : Account) (r : Response) (st : AttemptState)
      → IsRound (finish_success cfg drv pr ans attempt a r st)
  unfolding finish_success
  finish_success-IsRound a r st = elim (Bool-cases pr.is_stream) [
    | inl s ↦ elim (Bool-cases drv.has_preflight) [
      | inl h ↦ rw (s, h) (on_preflight-IsRound a r st)
      | inr h ↦ rw (s, h) (serve_stream-IsRound a r st)
    ]
    | inr s ↦ rw s (serve_json-IsRound a r st)
  ]

  on_response-IsRound :
      (a : Account) (r : Response) (st : AttemptState)
      → IsRound (on_response cfg drv pr ans attempt a r st)
  unfolding on_response
  on_response-IsRound a r st =
      elim (Bool-cases (drv.should_retry r.status && ltb_ℤ (pos attempt) cfg.max_retry_accounts)) [
        | inl t ↦ rw t (on_retriable-IsRound a r st)
        | inr t ↦ elim (Bool-cases (nat_beq r.status 200)) [
          | inl s ↦ rw (t, s) (finish_success-IsRound a r st)
          | inr s ↦ rw (t, s) (on_rejected-IsRound a r st)
        ]
      ]

  on_unsent-IsRound :
      (a : Account) (t : Bool) (st : AttemptState)
      → IsRound (on_unsent cfg drv pr ans attempt a t st)
  unfolding on_unsent count_if
  on_unsent-IsRound a t st = ground arith

  on_built-IsRound :
      (a : Account) (st : AttemptState) → IsRound (on_built cfg drv pr ans attempt a st)
  unfolding on_built count_if
  on_built-IsRound a st = elim (Built-cases ans.built) [
    | inl (code, message, b) ↦ rw b (refl, refl)
    | inr (inl b) ↦ rw b (refl, refl)
    | inr (inr b) ↦ elim (Sent-cases ans.sent) [
      | inl (r, s) ↦ rw (b, s) (on_response-IsRound a r st)
      | inr (t, s) ↦ rw (b, s) (on_unsent-IsRound a t st)
    ]
  ]

  pub on_leased-IsRound :
      (a : Account) (st : AttemptState) → IsRound (on_leased cfg drv pr ans attempt a st)
  unfolding on_leased count_if
  on_leased-IsRound a st = elim (Bool-cases ans.token_valid) [
    | inl v ↦ rw v (on_built-IsRound a st)
    | inr v ↦ rw v (refl, refl)
  ]
