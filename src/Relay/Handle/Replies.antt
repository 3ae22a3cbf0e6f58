-- ===== src/Relay/Handle/Replies.antt =====
-- internal/relay/relay_flow.go: every request is answered once.
use llm_broker.Prelude.{
  ℕ, String, true, false, ◌&&◌, ◌==◌, string_eq, ◌≡◌, refl, List, [], ◌∷◌, ◌++◌, count_if,
  Bool-cases, inl, inr, arith,
}
use llm_broker.Relay.Answers.{
  RelayConfig, ExecutionDriver, Answers, Acquired, leased, unleased, Built, request, invalid,
  unbuildable, Sent, answered, failed, Call, aborts,
}
use llm_broker.Relay.Request.{route_affinity_key}
use llm_broker.Relay.Loop.Rounds.{is_reply}
use llm_broker.Relay.Loop.Served.{well_leased, relay-replies, relay_bounded}
use llm_broker.Relay.Handle.{
  BodyRead, too_large, unreadable, not_json, parsed, Incoming, Reception, replied, counts_tokens,
  ready, is_required, plan_route, on_parsed, parse_relay_input, prepare_relay_request,
  forward_response, on_sent, on_count_built, on_count_acquired, handle_count_tokens,
  handle_prepared, handle_with_driver,
}

-- The calls write one reply, and take and give back leases one at a time.
abbrev pub IsAnswered : List Call → Type 0
IsAnswered calls = (count_if is_reply calls ≡ 1) × (well_leased false calls ≡ true)

abbrev IsReceived : Reception → Type 0
IsReceived (replied calls) = IsAnswered calls
IsReceived counts_tokens = Unit
IsReceived (ready pr) = Unit

module _ (uuid : List ℕ → String) (inc : Incoming) where
  plan_route-IsReceived : IsReceived (plan_route uuid inc)
  unfolding plan_route count_if well_leased
  plan_route-IsReceived =
      elim (Bool-cases (
        is_required inc.continuity
        && (route_affinity_key uuid inc.user_id inc.provider inc.surface inc.affinity == ""
            && inc.bound_account_id == ""))) [ inl t ↦ rw t (refl, refl) | inr t ↦ rw t tt ]

  on_parsed-IsReceived : IsReceived (on_parsed uuid inc)
  unfolding on_parsed count_if well_leased
  on_parsed-IsReceived = elim (Bool-cases inc.intercepts) [
    | inl t ↦ rw t (refl, refl)
    | inr t ↦ elim (Bool-cases inc.is_count_tokens) [
      | inl u ↦ rw (t, u) tt
      | inr u ↦ rw (t, u) plan_route-IsReceived
    ]
  ]

  parse_relay_input-IsReceived : (b : BodyRead) → IsReceived (parse_relay_input uuid inc b)
  unfolding parse_relay_input count_if well_leased
  parse_relay_input-IsReceived too_large = (refl, refl)
  parse_relay_input-IsReceived unreadable = (refl, refl)
  parse_relay_input-IsReceived not_json = (refl, refl)
  parse_relay_input-IsReceived parsed = on_parsed-IsReceived

  prepare_relay_request-IsReceived : IsReceived (prepare_relay_request uuid inc)
  unfolding prepare_relay_request count_if well_leased
  prepare_relay_request-IsReceived = elim (Bool-cases inc.authenticated) [
    | inl t ↦ rw t (parse_relay_input-IsReceived inc.body)
    | inr t ↦ rw t (refl, refl)
  ]

module _ (inc : Incoming) (ans : Answers) where
  abbrev IsInner : List Call → Type 0
  IsInner calls =
      (count_if is_reply (calls ++ (aborts ∷ [])) ≡ 1)
      × (well_leased true (calls ++ (aborts ∷ [])) ≡ true)

  on_sent-IsInner : (s : Sent) → IsInner (on_sent inc ans s)
  unfolding on_sent forward_response count_if well_leased
  on_sent-IsInner (failed t) = (refl, refl)
  on_sent-IsInner (answered r) = ground arith

  on_count_built-IsInner : (b : Built) → IsInner (on_count_built inc ans b)
  unfolding on_count_built count_if well_leased
  on_count_built-IsInner (invalid code message) = (refl, refl)
  on_count_built-IsInner unbuildable = (refl, refl)
  on_count_built-IsInner request = on_sent-IsInner ans.sent

  on_count_acquired-IsAnswered : (q : Acquired) → IsAnswered (on_count_acquired inc ans q)
  unfolding on_count_acquired count_if well_leased
  on_count_acquired-IsAnswered (unleased x) = (refl, refl)
  on_count_acquired-IsAnswered (leased a) = elim (Bool-cases ans.token_valid) [
    | inl t ↦ rw t (on_count_built-IsInner ans.built)
    | inr t ↦ rw t (refl, refl)
  ]

-- However the services answer, a request whose context never ends gets exactly one reply, whether it is
-- refused, answered by the driver, a count of tokens or relayed; and its leases are taken one at a time,
-- each is given back before the next is taken and before the end, and they are accepted and finished
-- only while they are held.
pub handle_with_driver-IsAnswered :
    (cfg : RelayConfig) (drv : ExecutionDriver) (uuid : List ℕ → String) (inc : Incoming)
    (answers : ℕ → Answers)
    → IsAnswered (handle_with_driver cfg drv uuid inc answers (λ (k : ℕ). false))
unfolding handle_with_driver handle_prepared handle_count_tokens
handle_with_driver-IsAnswered cfg drv uuid inc answers =
    handled (prepare_relay_request uuid inc) (prepare_relay_request-IsReceived uuid inc)
  where
    handled :
        (r : Reception)
        → IsReceived r
        → IsAnswered (handle_prepared cfg drv uuid inc answers (λ (k : ℕ). false) r)
    handled (replied calls) h = h
    handled counts_tokens h = on_count_acquired-IsAnswered inc (answers 0) _
    handled (ready pr) h =
        (relay-replies cfg drv pr answers, (relay_bounded cfg drv pr answers (λ (k : ℕ). false)).1)
