-- ===== src/Relay/Handle.antt =====
-- internal/relay/relay_flow.go with relay_request.go and relay_count_tokens.go: one request from its
-- arrival to its reply.
pub mod Replies
use llm_broker.Prelude.{
  ℕ, zero, String, Bool, true, false, not, ◌&&◌, List, [], ◌∷◌, ◌++◌, ◌==◌, string_eq,
  if◌then◌else◌,
}
use llm_broker.Domain.{Account}
use llm_broker.Driver.{Continuity, prefer, require}
use llm_broker.Pool.Availability.{RouteRequest}
use llm_broker.Relay.Answers.{
  Prepared, RelayConfig, ExecutionDriver, Answers, Acquired, leased, unleased, Built, request,
  invalid, unbuildable, Response, Sent, answered, failed, Call, acquires, aborts, finishes, accepts,
  writes_error, writes_stream, writes_json, publishes, request_unread,
}
use llm_broker.Relay.Loop.{relay}
use llm_broker.Relay.Request.{RouteAffinity, route_affinity_key}

-- How far the body could be read and parsed.
pub data BodyRead : Type 0 where
  too_large unreadable not_json parsed : BodyRead

-- A request, what its key says, and what the driver plans for it. `intercepts` says whether the driver
-- answers it by itself.
pub record Incoming : Type 0 where
  pub authenticated : Bool
  pub user_id : String
  pub bound_account_id : String
  pub provider : String
  pub surface : String
  pub body : BodyRead
  pub model : String
  pub is_stream : Bool
  pub is_count_tokens : Bool
  pub affinity : RouteAffinity
  pub continuity : Continuity
  pub intercepts : Bool

pub data Reception : Type 0 where
  replied : List Call → Reception
  counts_tokens : Reception
  ready : Prepared → Reception

abbrev pub is_required : Continuity → Bool
is_required prefer = false
is_required require = true

unfoldable pub plan_route : (List ℕ → String) → Incoming → Reception
plan_route uuid inc =
    let key : String = route_affinity_key uuid inc.user_id inc.provider inc.surface inc.affinity in
    if is_required inc.continuity && (key == "" && inc.bound_account_id == "")
    then replied (
        writes_error 400 "conversation continuity cannot be resolved; start a new conversation"
        ∷ [])
    else ready (record {
      user_id = inc.user_id;
      bound_account_id = inc.bound_account_id;
      model = inc.model;
      surface = inc.surface;
      is_stream = inc.is_stream;
      affinity_key = key;
      continuity = inc.continuity;
    })

unfoldable pub on_parsed : (List ℕ → String) → Incoming → Reception
unfolding plan_route
on_parsed uuid inc =
    if inc.intercepts
    then replied (writes_stream ∷ [])
    else if inc.is_count_tokens
    then counts_tokens
    else plan_route uuid inc

unfoldable pub parse_relay_input : (List ℕ → String) → Incoming → BodyRead → Reception
unfolding on_parsed
parse_relay_input uuid inc too_large =
    replied (writes_error 413 "request body exceeds size limit" ∷ [])
parse_relay_input uuid inc unreadable =
    replied (writes_error 400 "failed to read request body" ∷ (publishes request_unread ∷ []))
parse_relay_input uuid inc not_json = replied (writes_error 400 "invalid JSON body" ∷ [])
parse_relay_input uuid inc parsed = on_parsed uuid inc

unfoldable pub prepare_relay_request : (List ℕ → String) → Incoming → Reception
unfolding parse_relay_input
prepare_relay_request uuid inc =
    if inc.authenticated
    then parse_relay_input uuid inc inc.body
    else replied (writes_error 401 "not authenticated" ∷ [])

-- handleCountTokens: one attempt whose failures are answered at once.
module _ (inc : Incoming) (ans : Answers) where
  abbrev pub count_request : RouteRequest
  count_request = record {
    exclusions = [];
    model = inc.model;
    surface = inc.surface;
    hard_account_id = inc.bound_account_id;
    affinity_key = "";
    continuity = prefer;
  }

  unfoldable pub forward_response : Response → Call
  forward_response r =
      if r.complete
      then writes_json r.status r.body
      else writes_error 502 "failed to read upstream response"

  unfoldable pub on_sent : Sent → List Call
  unfolding forward_response
  on_sent (failed t) = writes_error 502 "upstream request failed" ∷ []
  on_sent (answered r) =
      if ans.bound
      then accepts ∷ (forward_response r ∷ (finishes ∷ []))
      else accepts ∷ (writes_error 503 "route state unavailable" ∷ [])

  unfoldable pub on_count_built : Built → List Call
  unfolding on_sent
  on_count_built (invalid code message) = writes_error code message ∷ []
  on_count_built unbuildable = writes_error 500 "failed to build request" ∷ []
  on_count_built request = on_sent ans.sent

  unfoldable pub on_count_acquired : Acquired → List Call
  unfolding on_count_built
  on_count_acquired (unleased x) = writes_error 503 "no available accounts" ∷ []
  on_count_acquired (leased a) =
      acquires a
      ∷ ((if ans.token_valid
            then on_count_built ans.built
            else writes_error 503 "token unavailable" ∷ [])
          ++ (aborts ∷ []))

  unfoldable pub handle_count_tokens : List Call
  unfolding on_count_acquired
  handle_count_tokens = on_count_acquired (ans.acquire count_request)

module _ (cfg : RelayConfig) (drv : ExecutionDriver) (uuid : List ℕ → String) (inc : Incoming)
    (answers : ℕ → Answers) (cancelled : ℕ → Bool) where
  unfoldable pub handle_prepared : Reception → List Call
  unfolding handle_count_tokens
  handle_prepared (replied calls) = calls
  handle_prepared counts_tokens = handle_count_tokens inc (answers 0)
  handle_prepared (ready pr) = relay cfg drv pr answers cancelled

  unfoldable pub handle_with_driver : List Call
  unfolding handle_prepared prepare_relay_request
  handle_with_driver = handle_prepared (prepare_relay_request uuid inc)
