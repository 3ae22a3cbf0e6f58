-- ===== src/Relay/Loop/Excluded.antt =====
-- internal/relay/relay_flow.go: which accounts the attempts of a request go to.
use llm_broker.Prelude.{
  ℕ, String, false, ◌&&◌, ◌==◌, string_eq, ◌≡◌, ◌≢◌, refl, ◌⊎◌, inl, inr, List, [], ◌∷◌, ◌++◌,
  Option, some, Bool-cases, arith, nat_beq,
}
use text.Mathlib.TextEquality.{eq_iff}
use llm_broker.Prelude.Int.{pos, ltb_ℤ}
use llm_broker.Domain.{Account}
use llm_broker.Driver.{Effect}
use llm_broker.Pool.Availability.{Exclusion}
use llm_broker.Relay.Answers.{
  Prepared, RelayConfig, ExecutionDriver, Answers, Response, Preflight, accepted, broken, found,
  with_account_id, with_bucket_key, is_bucket, exclude, exclude_account_id, continues, stops, done,
  AttemptState, Call, Step, RelayError, upstream, upstream_preflight, status_or_429,
}
use llm_broker.Relay.Attempt.{
  on_retriable, on_rejected, serve_stream, serve_json, on_preflight, finish_success, on_response,
  on_unsent, on_built, on_leased,
}
use llm_broker.Relay.Loop.Rounds.{Built-cases, Sent-cases}

-- The exclusion keeps the account away.
abbrev pub Names : Account → Exclusion → Type 0
Names a x = (x ≡ with_account_id a.id) ⊎ ((x ≡ with_bucket_key a.bucket_key) × (a.bucket_key ≢ ""))

-- The outcome ends the request, or one exclusion more keeps the account away.
pub data Moves (a : Account) (xs : List Exclusion) : Step → Type 0 where
  ends_done : {st : AttemptState} {calls : List Call} → Moves a xs (done, st, calls)
  ends_stops : {st : AttemptState} {calls : List Call} → Moves a xs (stops, st, calls)
  bars :
      {st : AttemptState} {calls : List Call} (x : Exclusion)
      → Names a x
      → st.exclusions ≡ xs ++ (x ∷ [])
      → Moves a xs (continues, st, calls)

bars-exclude :
    (a : Account) (eff : Effect) (x : RelayError) (st : AttemptState) (calls : List Call)
    → Moves a st.exclusions (continues, exclude a eff x st, calls)
unfolding exclude exclude_account_id
bars-exclude a eff x st calls = elim (Bool-cases (is_bucket eff.scope)) [
  | inl s ↦ elim (Bool-cases (a.bucket_key == "")) [
    | inl k ↦ rw (s, k) (bars (with_account_id a.id) (inl refl) refl)
    | inr k ↦
        rw (s, k)
          (bars (with_bucket_key a.bucket_key)
            (inr (refl, ground (arith, k, eq_iff a.bucket_key ""))) refl)
  ]
  | inr s ↦ rw s (bars (with_account_id a.id) (inl refl) refl)
]

Preflight-cases :
    (p : Preflight)
    → (p ≡ accepted)
      ⊎ (p ≡ broken)
      ⊎ ((eff : Effect) × (body : Option String) × (p ≡ found eff body))
Preflight-cases accepted = inl refl
Preflight-cases broken = inr (inl refl)
Preflight-cases (found eff body) = inr (inr (eff, body, refl))

module _ (cfg : RelayConfig) (drv : ExecutionDriver) (pr : Prepared) (ans : Answers) (attempt : ℕ)
    (a : Account) where
  on_retriable-Moves :
      (r : Response) (st : AttemptState)
      → ((status : ℕ) (body : String) (n : ℕ) → drv.retry_same_account status body n ≡ false)
      → Moves a st.exclusions (on_retriable cfg drv pr ans attempt a r st)
  unfolding on_retriable
  on_retriable-Moves r st h = elim (Bool-cases (drv.parse_non_retriable r.status r.body)) [
    | inl s ↦ rw s ends_done
    | inr s ↦
        rw (s, h)
          (bars-exclude a
            (drv.interpret ans.now r.status r.headers r.body pr.model a.provider_state_json)
            (upstream r.status)
            (record st { last_upstream_status = r.status; last_upstream_body = some r.body }) _)
  ]

  serve_stream-Moves :
      (r : Response) (st : AttemptState)
      → Moves a st.exclusions (serve_stream cfg drv pr ans attempt a r st)
  unfolding serve_stream
  serve_stream-Moves r st = elim (Bool-cases ans.bound) [
    | inl s ↦ rw s ends_done
    | inr s ↦ rw s ends_stops
  ]

  serve_json-Moves :
      (r : Response) (st : AttemptState)
      → Moves a st.exclusions (serve_json cfg drv pr ans attempt a r st)
  unfolding serve_json
  serve_json-Moves r st = elim (Bool-cases r.complete) [
    | inl c ↦ elim (Bool-cases ans.bound) [
      | inl s ↦ rw (c, s) ends_done
      | inr s ↦ rw (c, s) ends_stops
    ]
    | inr c ↦ rw c ends_stops
  ]

  on_preflight-Moves :
      (r : Response) (st : AttemptState)
      → Moves a st.exclusions (on_preflight cfg drv pr ans attempt a r st)
  unfolding on_preflight exclude_account_id
  on_preflight-Moves r st = elim (Preflight-cases ans.preflight) [
    | inl p ↦ rw p (serve_stream-Moves r st)
    | inr (inl p) ↦ rw p (bars (with_account_id a.id) (inl refl) refl)
    | inr (inr (eff, body, p)) ↦ rw p (
        bars-exclude a eff (upstream_preflight (status_or_429 eff.upstream_status))
          (record st {
            last_upstream_status = status_or_429 eff.upstream_status;
            last_upstream_body = body;
          })
          _)
  ]

  finish_success-Moves :
      (r : Response) (st : AttemptState)
      → Moves a st.exclusions (finish_success cfg drv pr ans attempt a r st)
  unfolding finish_success
  finish_success-Moves r st = elim (Bool-cases pr.is_stream) [
    | inl s ↦ elim (Bool-cases drv.has_preflight) [
      | inl h ↦ rw (s, h) (on_preflight-Moves r st)
      | inr h ↦ rw (s, h) (serve_stream-Moves r st)
    ]
    | inr s ↦ rw s (serve_json-Moves r st)
  ]

  module _
      (never : (status : ℕ) (body : String) (n : ℕ)
        → drv.retry_same_account status body n ≡ false) where
    on_response-Moves :
        (r : Response) (st : AttemptState)
        → Moves a st.exclusions (on_response cfg drv pr ans attempt a r st)
    unfolding on_response on_rejected
    on_response-Moves r st =
        elim (Bool-cases
          (drv.should_retry r.status && ltb_ℤ (pos attempt) cfg.max_retry_accounts)) [
            | inl t ↦ rw t (on_retriable-Moves r st never)
            | inr t ↦ elim (Bool-cases (nat_beq r.status 200)) [
              | inl s ↦ rw (t, s) (finish_success-Moves r st)
              | inr s ↦ rw (t, s) ends_done
            ]
          ]

    on_built-Moves :
        (st : AttemptState) → Moves a st.exclusions (on_built cfg drv pr ans attempt a st)
    unfolding on_built on_unsent exclude_account_id
    on_built-Moves st = elim (Built-cases ans.built) [
      | inl (code, message, b) ↦ rw b ends_done
      | inr (inl b) ↦ rw b ends_stops
      | inr (inr b) ↦ elim (Sent-cases ans.sent) [
        | inl (r, s) ↦ rw (b, s) (on_response-Moves r st)
        | inr (t, s) ↦ rw (b, s) (bars (with_account_id a.id) (inl refl) refl)
      ]
    ]

    pub on_leased-Moves :
        (st : AttemptState) → Moves a st.exclusions (on_leased cfg drv pr ans attempt a st)
    unfolding on_leased exclude_account_id
    on_leased-Moves st = elim (Bool-cases ans.token_valid) [
      | inl v ↦ rw v (on_built-Moves st)
      | inr v ↦ rw v (bars (with_account_id a.id) (inl refl) refl)
    ]
