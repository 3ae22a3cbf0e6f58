-- ===== src/Relay/Loop.antt =====
-- internal/relay/relay_flow.go, and finishRelayFailure of relay_attempt.go: the attempts of one request,
-- as the list of the calls that they make. `answers` says what the services answer to each attempt and
-- `cancelled` whether the request's context has ended before it.
pub mod Rounds
pub mod Served
pub mod Excluded
pub mod Distinct
use llm_broker.Prelude.{
  ℕ, zero, suc, String, Bool, true, false, List, [], ◌∷◌, ◌++◌, Option, none, some,
}
use llm_broker.Prelude.Int.{ℤ, pos, negsuc}
use llm_broker.Relay.Answers.{
  Prepared, RelayConfig, ExecutionDriver, Answers, RelayError, AttemptState, Call, Step, continues,
  stops, done, publishes, writes_upstream_error, writes_error, new_attempt_state,
}
use llm_broker.Relay.Attempt.{execute_attempt}

abbrev pub reports : Option RelayError → List Call
reports none = []
reports (some x) = publishes x ∷ []

abbrev pub failure_reply : ℕ → Option String → Call
failure_reply status none = writes_error 503 "no available accounts"
failure_reply status (some body) = writes_upstream_error status body

unfoldable pub finish_failure : AttemptState → List Call
finish_failure st =
    reports st.last_err ++ (failure_reply st.last_upstream_status st.last_upstream_body ∷ [])

-- What follows an attempt: its calls, then the next attempt or the end.
unfoldable pub proceed : (AttemptState → List Call) → Step → List Call
unfolding finish_failure
proceed next (continues, st, calls) = calls ++ next st
proceed next (stops, st, calls) = calls ++ finish_failure st
proceed next (done, st, calls) = calls

-- The number of rounds of `attempt <= max`.
unfoldable pub rounds_of : ℤ → ℕ
rounds_of (pos max) = suc max
rounds_of (negsuc n) = 0

abbrev pub unless : Bool → List Call → List Call
unless true calls = []
unless false calls = calls

module _ (cfg : RelayConfig) (drv : ExecutionDriver) (pr : Prepared) (answers : ℕ → Answers)
    (cancelled : ℕ → Bool) where
  unfoldable pub relay_from : ℕ → ℕ → AttemptState → List Call
  unfolding finish_failure
  relay_from zero attempt st = finish_failure st
  relay_from (suc n) attempt st = unless (cancelled attempt) (
      proceed (relay_from n (suc attempt))
        (execute_attempt cfg drv pr (answers attempt) attempt st))

  unfoldable pub relay : List Call
  unfolding relay_from rounds_of
  relay = relay_from (rounds_of cfg.max_retry_accounts) 0 new_attempt_state
