-- ===== src/Relay/Attempt.antt =====
-- internal/relay/relay_attempt.go: one attempt of a request. What the services answer is given; the
-- attempt yields its outcome, the state for the next attempt, and the calls that it makes in order.
use llm_broker.Prelude.{
  ℕ, ◌+◌, String, Bool, not, ◌&&◌, [], ◌∷◌, ◌++◌, some, lookup, ◌==◌, string_eq, nat_beq, ltb,
  if◌then◌else◌,
}
use llm_broker.Prelude.Int.{pos, ltb_ℤ}
use llm_broker.Domain.{Account}
use llm_broker.Driver.{Effect}
use llm_broker.Pool.Results.{affinity_owner_missing, affinity_owner_unavailable}
use llm_broker.Pool.Availability.{RouteRequest}
use llm_broker.Relay.Answers.{
  Prepared, RelayConfig, ExecutionDriver, AcquireError, Response, Answers, AttemptState, LogStatus,
  Call, Step, relay_effect_kind, request_validation_effect_kind, exclude_account_id, exclude,
  retries_of, retry_account, status_or_429, of_pool, leased, unleased, request, invalid,
  unbuildable, answered, failed, accepted, broken, found, acquire_failed, token_invalid,
  build_failed, transport_failed, preflight_failed, binding_unsaved, body_unread, upstream,
  upstream_preflight, continues, stops, done, ok_status, incomplete_status, transport_status,
  preflight_status, validation_status, upstream_status, acquires, aborts, finishes, accepts,
  observes, cools_cell, logs, writes_error, writes_upstream_error, writes_stream, writes_json,
}

module _ (cfg : RelayConfig) (drv : ExecutionDriver) (pr : Prepared) (ans : Answers)
    (attempt : ℕ) where
  unfoldable pub route_request : AttemptState → RouteRequest
  route_request st = record {
    exclusions = st.exclusions;
    model = pr.model;
    surface = pr.surface;
    hard_account_id =
        if st.retry_account_id == "" then pr.bound_account_id else st.retry_account_id;
    affinity_key = pr.affinity_key;
    continuity = pr.continuity;
  }

  entry : Account → LogStatus → String → ℕ → Call
  entry a status kind code = logs (record {
    account_id = a.id;
    attempt_count = attempt + 1;
    status = status;
    effect_kind = kind;
    upstream_status = code;
  })

  effect_of : Account → Response → String → Effect
  effect_of a r body = drv.interpret ans.now r.status r.headers body pr.model a.provider_state_json

  -- A status that the driver may retry, with attempts left.
  unfoldable pub on_retriable : Account → Response → AttemptState → Step
  unfolding entry effect_of exclude retry_account relay_effect_kind
  on_retriable a r st =
      let st' : AttemptState = record st {
        last_upstream_status = r.status;
        last_upstream_body = some r.body;
      } in
      let eff : Effect = effect_of a r r.body in
      if drv.parse_non_retriable r.status r.body
      then (
        done,
        st',
        entry a (upstream_status r.status) "" r.status
            ∷ (writes_upstream_error r.status r.body ∷ []),
      )
      else if drv.retry_same_account r.status r.body (retries_of (lookup a.id st.forbidden_retries))
      then (
        continues,
        retry_account a.id r.status st',
        entry a (upstream_status r.status) "" r.status ∷ [],
      )
      else (
        continues,
        exclude a eff (upstream r.status) st',
        entry a (upstream_status r.status) (relay_effect_kind eff.kind) r.status
            ∷ (observes a.id eff ∷ []),
      )

  unfoldable pub on_rejected : Account → Response → AttemptState → Step
  unfolding entry effect_of relay_effect_kind
  on_rejected a r st =
      let eff : Effect = effect_of a r r.body in
      (
        done,
        st,
        entry a (upstream_status r.status) (relay_effect_kind eff.kind) r.status
            ∷ (observes a.id eff ∷ (writes_upstream_error r.status r.body ∷ [])),
      )

  -- The stream is accepted, bound to the account, and copied to the client.
  unfoldable pub serve_stream : Account → Response → AttemptState → Step
  unfolding entry effect_of relay_effect_kind
  serve_stream a r st =
      let eff : Effect = drv.interpret ans.now 200 r.headers "" pr.model a.provider_state_json in
      if ans.bound
      then (
        done,
        st,
        observes a.id eff
            ∷ (accepts
                ∷ (writes_stream
                    ∷ (finishes
                        ∷ (entry a (if ans.stream_completed then ok_status else incomplete_status)
                              (relay_effect_kind eff.kind) 0
                            ∷ [])))),
      )
      else (
        stops,
        record st { last_err = some binding_unsaved },
        observes a.id eff ∷ (accepts ∷ []),
      )

  unfoldable pub serve_json : Account → Response → AttemptState → Step
  unfolding entry effect_of relay_effect_kind
  serve_json a r st =
      let eff : Effect =
        drv.interpret ans.now 200 r.headers r.body pr.model a.provider_state_json in
      if not r.complete
      then (stops, record st { last_err = some body_unread }, [])
      else if ans.bound
      then (
        done,
        st,
        observes a.id eff
            ∷ (accepts
                ∷ (writes_json r.status r.body
                    ∷ (finishes ∷ (entry a ok_status (relay_effect_kind eff.kind) 0 ∷ [])))),
      )
      else (
        stops,
        record st { last_err = some binding_unsaved },
        observes a.id eff ∷ (accepts ∷ []),
      )

  unfoldable pub on_preflight : Account → Response → AttemptState → Step
  unfolding entry exclude exclude_account_id serve_stream relay_effect_kind
  on_preflight a r st = elim ans.preflight [
    | accepted ↦ serve_stream a r st
    | broken ↦ (
      continues,
      exclude_account_id a.id preflight_failed st,
      entry a preflight_status "transport_error" 0 ∷ [],
    )
    | found eff body ↦
        let code : ℕ = status_or_429 eff.upstream_status in
        (
          continues,
          exclude a eff (upstream_preflight code)
              (record st { last_upstream_status = code; last_upstream_body = body }),
          entry a (upstream_status code) (relay_effect_kind eff.kind) code
              ∷ (observes a.id eff ∷ []),
        )
  ]

  unfoldable pub finish_success : Account → Response → AttemptState → Step
  unfolding on_preflight serve_stream serve_json
  finish_success a r st =
      if pr.is_stream
      then if drv.has_preflight then on_preflight a r st else serve_stream a r st
      else serve_json a r st

  unfoldable pub on_response : Account → Response → AttemptState → Step
  unfolding on_retriable on_rejected finish_success
  on_response a r st =
      if drv.should_retry r.status && ltb_ℤ (pos attempt) cfg.max_retry_accounts
      then on_retriable a r st
      else if not (nat_beq r.status 200)
      then on_rejected a r st
      else finish_success a r st

  -- The transport failed; the cell rests if the error tells of it.
  unfoldable pub on_unsent : Account → Bool → AttemptState → Step
  unfolding entry exclude_account_id
  on_unsent a transport st = (
    continues,
    exclude_account_id a.id transport_failed st,
    (if not (a.cell_id == "") && (ltb 0 cfg.cell_error_pause && transport)
          then cools_cell a.cell_id (ans.now + cfg.cell_error_pause) ∷ []
          else [])
        ++ (entry a transport_status "transport_error" 0 ∷ []),
  )

  unfoldable pub on_built : Account → AttemptState → Step
  unfolding entry request_validation_effect_kind on_response on_unsent
  on_built a st = elim ans.built [
    | invalid code message ↦ (
      done,
      st,
      entry a (validation_status code) (request_validation_effect_kind code) code
          ∷ (writes_error code message ∷ []),
    )
    | unbuildable ↦ (stops, record st { last_err = some build_failed }, [])
    | request ↦ elim ans.sent [ answered r ↦ on_response a r st | failed t ↦ on_unsent a t st ]
  ]

  unfoldable pub on_leased : Account → AttemptState → Step
  unfolding exclude_account_id on_built
  on_leased a st =
      if ans.token_valid
      then on_built a st
      else (continues, exclude_account_id a.id token_invalid st, [])

  abbrev owner_gone : String
  owner_gone =
      "conversation cannot continue on its original upstream account; start a new conversation"

  unfoldable pub on_unleased : AcquireError → AttemptState → Step
  on_unleased (of_pool affinity_owner_missing) st = (done, st, writes_error 400 owner_gone ∷ [])
  on_unleased (of_pool affinity_owner_unavailable) st = (done, st, writes_error 400 owner_gone ∷ [])
  on_unleased x st = (stops, record st { last_err = some (acquire_failed x) }, [])

  -- The deferred `lease.Abort()` runs when the attempt returns.
  abbrev pub between_lease : Account → Step → Step
  between_lease a (o, st, calls) = (o, st, acquires a ∷ (calls ++ (aborts ∷ [])))

  unfoldable pub execute_attempt : AttemptState → Step
  unfolding route_request on_leased on_unleased
  execute_attempt st = elim (ans.acquire (route_request st)) [
    | leased a ↦ between_lease a (on_leased a (record st { retry_account_id = "" }))
    | unleased x ↦ on_unleased x st
  ]
