-- ===== src/Server/Chat/Served.antt =====
-- What a compat request leaves: one answer, and its slot of the limiter given back.
use mathlib.Core.Path.{subst}
use llm_broker.Prelude.{
  ℕ, ◌-◌, ◌≤◌, String, Bool, true, false, not, ◌&&◌, List, [], ◌∷◌, Option, none, some, ◌≡◌, ◌≢◌,
  refl, sym, ap, ◌∙◌, ◌⊎◌, inl, inr, arith, nat_beq, ltb, leb, length, ◌==◌, string_eq, beq_self,
  Bool-cases, if◌then◌else◌,
}
use llm_broker.Server.Chat.{
  ChatCalls, ChatRequest, Target, Answer, limited, errors, upstream_error, answers, streams, Entry,
  failure, outcome, compat_status, incomplete_entries, BuiltTarget, bad_request, built, lines_of,
  stream_through, log_stream, answer_whole, on_target, on_decoded, on_body, build_compat_target,
  on_admission, admit_key, handle_chat, on_converted,
}
use llm_broker.Server.RateLimit.{
  RateLimiter, RateState, acquire_rate, acquire_slot, release_slot, state_of, start, stop, prune,
  put_state,
}
use llm_broker.Server.RateLimit.Slots.{state_of-put, release_slot-state}
use llm_broker.Server.Stream.Chunking.{concat}
use llm_broker.Server.Stream.Delivered.{IsDelivered, finalize-IsDelivered, finalize-failed}
use llm_broker.Server.Stream.Trims.{extract_error_body}
use llm_broker.Server.Stream.Writes.{Writer, is_success, completed}
use llm_broker.Server.Stream.Delivery.{client_status, client_status-eq}
use llm_broker.Server.Stream.{Bytes, failed}

abbrev pub running : RateLimiter → String → ℕ
running l key = (state_of l key).inflight

running-put :
    (key : String) (s : RateState) (l : RateLimiter) → running (put_state key s l) key ≡ s.inflight
running-put key s l =
    let same : state_of (put_state key s l) key ≡ s =
      state_of-put key key s l ∙ rw (beq_self key) refl in
    ap (λ (t : RateState). t.inflight) same

stop-inflight :
    (l : RateLimiter) (now : ℕ) (s : RateState) → (stop l now s).inflight ≡ s.inflight - 1
unfolding stop prune
stop-inflight l now s = ground arith

running-release_rate :
    (key : String) (now : ℕ) (l : RateLimiter)
    → running (release_slot key now l) key ≡ running l key - 1
running-release_rate key now l =
    let same : state_of (release_slot key now l) key ≡ stop l now (state_of l key) =
      release_slot-state key key now l ∙ rw (beq_self key) refl in
    ap (λ (t : RateState). t.inflight) same ∙ stop-inflight l now (state_of l key)

module _ (c : ChatCalls) where
  -- The stream of a target, and the entries of its request. It ended as it should, and is logged as a
  -- success just when it is completed. Or the upstream's error was sent as one response, and is
  -- logged as a success, too.
  abbrev pub IsStreamed : Writer → List Entry → Type 0
  IsStreamed w entries =
      (t : Target) × (w ≡ stream_through c t)
      × (((is_success (c.relay t).status ≡ true)
            × IsDelivered w
            × (entries ≡ (if completed w then outcome "ok" ∷ [] else incomplete_entries)))
          ⊎ ((is_success (c.relay t).status ≡ false)
              × (w.stream.wire
                  ≡ failed (c.relay t).status (extract_error_body (concat (c.relay t).writes)) ∷ [])
              × (entries ≡ outcome "ok" ∷ [])))

  log_stream-delivered :
      (w : Writer)
      → IsDelivered w
      → log_stream c w ≡ (if completed w then outcome "ok" ∷ [] else incomplete_entries)
  unfolding log_stream
  log_stream-delivered w d = ground (arith, client_status-eq w.stream.wire d.no_failure)

  log_stream-failed :
      (w : Writer) (status : ℕ) (body : Bytes)
      → w.stream.wire ≡ failed status body ∷ []
      → is_success status ≡ false
      → log_stream c w ≡ outcome "ok" ∷ []
  unfolding log_stream client_status
  log_stream-failed w status body e f = ground (arith, ap client_status e)

  stream_through-IsStreamed :
      (t : Target) → IsStreamed (stream_through c t) (log_stream c (stream_through c t))
  unfolding stream_through
  stream_through-IsStreamed t = elim (Bool-cases (is_success (c.relay t).status)) [
    | inl s ↦
        let d : IsDelivered (stream_through c t) =
          finalize-IsDelivered (lines_of c t.provider) c.client (c.relay t).writes
            (c.relay t).status c.has_flusher t.requested_model c.now s in
        (t, refl, inl (s, d, log_stream-delivered (stream_through c t) d))
    | inr f ↦
        let (before, sent) =
          finalize-failed (lines_of c t.provider) c.client (c.relay t).writes (c.relay t).status
            c.has_flusher t.requested_model c.now f in
        (
          t,
          refl,
          inr (
            f,
            sent,
            log_stream-failed (stream_through c t) (c.relay t).status
                (extract_error_body (concat (c.relay t).writes)) sent f,
          ),
        )
  ]

  -- Each answer that is not a stream has the entries of its kind.
  abbrev pub HasEntries : Answer × List Entry → Type 0
  HasEntries (limited a, entries) =
      entries ≡ failure "compat_preflight" (compat_status 429) "overload" ∷ (outcome "error" ∷ [])
  HasEntries (errors status kind message, entries) =
      (400 ≤ status)
      × ((phase : String) × (effect : String) × (entries
            ≡ failure phase (compat_status status) effect ∷ (outcome "error" ∷ [])))
  HasEntries (upstream_error status body, entries) =
      (status ≢ 200) × (entries ≡ outcome "error" ∷ [])
  HasEntries (answers body, entries) = entries ≡ outcome "ok" ∷ []
  HasEntries (streams w, entries) = IsStreamed w entries

  if-HasEntries :
      (b : Bool) (x y : Answer × List Entry)
      → (b ≡ true → HasEntries x)
      → (b ≡ false → HasEntries y)
      → HasEntries (if b then x else y)
  if-HasEntries true x y f g = f refl
  if-HasEntries false x y f g = g refl

  on_converted-HasEntries : (o : Option Bytes) → HasEntries (on_converted c o)
  unfolding on_converted
  on_converted-HasEntries none = (omega arith, ("compat_final", "server_error", refl))
  on_converted-HasEntries (some body) = refl

  answer_whole-HasEntries : (t : Target) → HasEntries (answer_whole c t)
  unfolding answer_whole
  answer_whole-HasEntries t =
      let status : ℕ = if nat_beq (c.relay t).status 0 then 200 else (c.relay t).status in
      if-HasEntries (not (nat_beq status 200)) _ _ (λ e. (ground arith, refl))
        (λ _. on_converted-HasEntries (c.convert t (concat (c.relay t).writes)))

  on_target-HasEntries : (b : BuiltTarget) → HasEntries (on_target c b)
  unfolding on_target
  on_target-HasEntries (bad_request message) = (omega arith, ("compat_preflight", "reject", refl))
  on_target-HasEntries (built t) =
      if-HasEntries (not (c.has_driver t.provider)) _ _
        (λ _. (omega arith, ("compat_preflight", "server_error", refl)))
        (λ _.
          if-HasEntries t.is_stream _ _ (λ _. stream_through-IsStreamed t)
            (λ _. answer_whole-HasEntries t))

  on_decoded-HasEntries : (o : Option ChatRequest) → HasEntries (on_decoded c o)
  unfolding on_decoded
  on_decoded-HasEntries none = (omega arith, ("compat_preflight", "reject", refl))
  on_decoded-HasEntries (some r) = on_target-HasEntries (build_compat_target c r)

  on_body-HasEntries : (o : Option Bytes) → HasEntries (on_body c o)
  unfolding on_body
  on_body-HasEntries none = (omega arith, ("compat_preflight", "reject", refl))
  on_body-HasEntries (some body) = on_decoded-HasEntries (c.decode body)

  -- The handler's limiter and answer: one answer, and as many requests of the key running as before.
  abbrev pub IsSettled : String → RateLimiter → Option RateLimiter × (Answer × List Entry) → Type 0
  IsSettled key l out =
      HasEntries out.1 × ((l' : RateLimiter) × (out.0 ≡ some l') × (running l' key ≡ running l key))

  handle_chat-key :
      (key : String) (l : RateLimiter)
      → c.key ≡ some key
      → handle_chat c (some l) ≡ on_admission c (acquire_rate key c.acquired_at (some l))
  unfolding handle_chat admit_key
  handle_chat-key key l e = ap (λ k. admit_key c k (some l)) e

  acquire_rate-IsSettled :
      (key : String) (l : RateLimiter)
      → ((m : RateLimiter) → running (c.others m) key ≡ running m key)
      → IsSettled key l (on_admission c (acquire_rate key c.acquired_at (some l)))
  unfolding acquire_rate acquire_slot prune start
  acquire_rate-IsSettled key l keeps =
      let s : RateState = prune c.acquired_at (state_of l key) in
      elim (Bool-cases (key == "")) [
        | inl e ↦ rw e (on_body-HasEntries c.body, (c.others l, refl, keeps l))
        | inr e ↦ elim (Bool-cases (ltb 0 l.max_concurrent && leb l.max_concurrent s.inflight)) [
          | inl t ↦ rw (e, t) (refl, (put_state key s l, refl, running-put key s l))
          | inr t ↦
              elim (Bool-cases
                (ltb 0 l.max_per_minute && leb l.max_per_minute (length s.started))) [
                  | inl u ↦ rw (e, t, u) (refl, (put_state key s l, refl, running-put key s l))
                  | inr u ↦
                      let l1 : RateLimiter = put_state key (start l c.acquired_at s) l in
                      rw (e, t, u)
                        (
                          on_body-HasEntries c.body,
                          (
                            release_slot key c.released_at (c.others l1),
                            refl,
                            omega (
                              arith,
                              running-release_rate key c.released_at (c.others l1),
                              keeps l1,
                              running-put key (start l c.acquired_at s) l,
                            ),
                          ),
                        )
                ]
        ]
      ]

  -- A request of a user, if other requests in the meantime leave as many of the user's requests
  -- running, leaves as many running as there were. It has one answer: the limit that it met, an error
  -- from 400 on, the error of an upstream response, a converted response, or a stream. Its entries are
  -- those of the answer: a stream is logged as a success if it is completed, and also if the upstream
  -- answered with an error.
  pub handle_chat-IsSettled :
      (key : String) (l : RateLimiter)
      → c.key ≡ some key
      → ((m : RateLimiter) → running (c.others m) key ≡ running m key)
      → IsSettled key l (handle_chat c (some l))
  handle_chat-IsSettled key l e keeps =
      subst (IsSettled key l) (sym (handle_chat-key key l e)) (acquire_rate-IsSettled key l keeps)
