-- ===== src/Relay/Answers.antt =====
-- internal/relay/relay_attempt.go: the state of a request between its attempts, what the services answer
-- to an attempt, and the calls that it makes.
use llm_broker.Prelude.{
  ℕ, ◌+◌, String, Bool, true, false, not, ◌&&◌, List, [], ◌∷◌, ◌++◌, Option, none, some, Map,
  lookup, insert, ◌==◌, string_eq, nat_beq, leb, if◌then◌else◌,
}
use llm_broker.Prelude.Int.{ℤ}
use llm_broker.Domain.{Account}
use llm_broker.Driver.{
  Continuity, Effect, EffectKind, EffectScope, success, cooldown, reject, overload, block,
  auth_fail, server_error,
}
use llm_broker.Pool.Results.{PoolError}
use llm_broker.Pool.Availability.{RouteRequest, Exclusion}

pub record Prepared : Type 0 where
  pub user_id : String
  pub bound_account_id : String
  pub model : String
  pub surface : String
  pub is_stream : Bool
  pub affinity_key : String
  pub continuity : Continuity

pub record RelayConfig : Type 0 where
  pub max_retry_accounts : ℤ
  pub cell_error_pause : ℕ

-- The part of the driver that decides; a response's headers are text to the relay. `interpret` also
-- reads the clock.
pub record ExecutionDriver : Type 0 where
  pub should_retry : ℕ → Bool
  pub retry_same_account : ℕ → String → ℕ → Bool
  pub parse_non_retriable : ℕ → String → Bool
  pub interpret : ℕ → ℕ → String → String → String → String → Effect
  pub has_preflight : Bool

-- AcquireRoute fails with an error of the pool or with the request's context.
pub data AcquireError : Type 0 where
  of_pool : PoolError → AcquireError
  of_context : AcquireError

pub data Acquired : Type 0 where
  leased : Account → Acquired
  unleased : AcquireError → Acquired

pub data Built : Type 0 where
  request : Built
  invalid : ℕ → String → Built
  unbuildable : Built

-- `body` is what could be read, and `complete` whether that was all.
pub record Response : Type 0 where
  pub status : ℕ
  pub headers : String
  pub body : String
  pub complete : Bool

pub data Sent : Type 0 where
  answered : Response → Sent
  failed : Bool → Sent

pub data Preflight : Type 0 where
  accepted broken : Preflight
  found : Effect → Option String → Preflight

-- What the services answer to one attempt. `failed` says whether the error is one of transport.
pub record Answers : Type 0 where
  pub now : ℕ
  pub acquire : RouteRequest → Acquired
  pub token_valid : Bool
  pub built : Built
  pub sent : Sent
  pub preflight : Preflight
  pub bound : Bool
  pub stream_completed : Bool

pub data RelayError : Type 0 where
  acquire_failed : AcquireError → RelayError
  token_invalid build_failed transport_failed preflight_failed binding_unsaved body_unread
        request_unread :
      RelayError
  upstream upstream_preflight : ℕ → RelayError
  upstream_retry : ℕ → ℕ → RelayError

pub data Outcome : Type 0 where
  continues stops done : Outcome

pub record AttemptState : Type 0 where
  pub exclusions : List Exclusion
  pub forbidden_retries : Map String ℕ
  pub retry_account_id : String
  pub last_err : Option RelayError
  pub last_upstream_status : ℕ
  pub last_upstream_body : Option String

-- The status of a log entry, as the source composes it.
pub data LogStatus : Type 0 where
  ok_status incomplete_status transport_status preflight_status : LogStatus
  validation_status upstream_status : ℕ → LogStatus

pub record LogEntry : Type 0 where
  pub account_id : String
  pub attempt_count : ℕ
  pub status : LogStatus
  pub effect_kind : String
  pub upstream_status : ℕ

pub data Call : Type 0 where
  acquires : Account → Call
  aborts finishes accepts : Call
  observes : String → Effect → Call
  cools_cell : String → ℕ → Call
  logs : LogEntry → Call
  writes_error : ℕ → String → Call
  writes_upstream_error : ℕ → String → Call
  writes_stream : Call
  writes_json : ℕ → String → Call
  publishes : RelayError → Call

abbrev pub Step : Type 0
Step = Outcome × AttemptState × List Call

unfoldable pub relay_effect_kind : EffectKind → String
relay_effect_kind success = "success"
relay_effect_kind cooldown = "cooldown"
relay_effect_kind reject = "reject"
relay_effect_kind overload = "overload"
relay_effect_kind block = "block"
relay_effect_kind auth_fail = "auth_fail"
relay_effect_kind server_error = "server_error"

unfoldable pub request_validation_effect_kind : ℕ → String
request_validation_effect_kind code =
    if nat_beq code 429
    then "overload"
    else if nat_beq code 401
    then "auth_fail"
    else if leb 500 code
    then "server_error"
    else "reject"

abbrev pub new_attempt_state : AttemptState
new_attempt_state = record {
  exclusions = [];
  forbidden_retries = [];
  retry_account_id = "";
  last_err = none;
  last_upstream_status = 0;
  last_upstream_body = none;
}

abbrev pub with_account_id : String → Exclusion
with_account_id id = record { account_id = id; bucket_key = "" }

abbrev pub with_bucket_key : String → Exclusion
with_bucket_key key = record { account_id = ""; bucket_key = key }

abbrev pub is_bucket : EffectScope → Bool
is_bucket EffectScope.bucket = true
is_bucket EffectScope.account = false

unfoldable pub exclude_account_id : String → RelayError → AttemptState → AttemptState
exclude_account_id id x st = record st {
  exclusions = st.exclusions ++ (with_account_id id ∷ []);
  last_err = some x;
}

-- `exclude`, with the error that the caller sets beside it.
unfoldable pub exclude : Account → Effect → RelayError → AttemptState → AttemptState
unfolding exclude_account_id
exclude a eff x st =
    if is_bucket eff.scope && not (a.bucket_key == "")
    then record st {
      exclusions = st.exclusions ++ (with_bucket_key a.bucket_key ∷ []);
      last_err = some x;
    }
    else exclude_account_id a.id x st

abbrev pub retries_of : Option ℕ → ℕ
retries_of none = 0
retries_of (some n) = n

unfoldable pub retry_account : String → ℕ → AttemptState → AttemptState
retry_account id status st =
    let n : ℕ = retries_of (lookup id st.forbidden_retries) + 1 in
    record st {
      forbidden_retries = insert id n st.forbidden_retries;
      retry_account_id = id;
      last_err = some (upstream_retry status n);
    }

abbrev pub status_or_429 : ℕ → ℕ
status_or_429 n = if nat_beq n 0 then 429 else n
