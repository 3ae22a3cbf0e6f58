-- ===== src/Server/Chat.antt =====
-- internal/server/compat_openai_chat.go: handleCompatOpenAIChatCompletions from the rate limiter to the
-- response, over what the body decodes to, the drivers, and what the relay writes. Traces, the headers
-- of the relayed request and the details of log entries are left out.
pub mod Models
pub mod Served
use llm_broker.Prelude.{
  ℕ, String, Bool, true, false, not, ◌&&◌, List, [], ◌∷◌, ◌++◌, Option, none, some, nat_beq, ◌<>◌,
  if◌then◌else◌,
}
use llm_broker.Domain.Surfaces.{runes}
use llm_broker.Server.Chat.Models.{
  Provider, claude, gemini, Resolved, refused, resolved, resolve_compat_model,
}
use llm_broker.Server.RateLimit.{
  RateLimiter, Release, nothing, of_key, Admission, admitted, too_many_running, too_many_started,
  acquire_rate, release_slot,
}
use llm_broker.Server.Stream.Delivery.{client_status}
use llm_broker.Server.Stream.{Bytes, Outside}
use llm_broker.Server.Stream.Chunking.{concat}
use llm_broker.Server.Stream.Claude.{ClaudeEvents, claude_lines}
use llm_broker.Server.Stream.Gemini.{gemini_lines}
use llm_broker.Server.Stream.Gemini.Events.{GeminiEvents}
use llm_broker.Server.Stream.Writes.{
  Writer, LineHandler, write_header, new_stream_writer, write_all, finalize, completed,
}

pub record ChatRequest : Type 0 where
  pub model : List ℕ
  pub is_stream : Bool

-- compatTarget; `accept` is "" where the code sets none.
pub record Target : Type 0 where
  pub provider : Provider
  pub requested_model : List ℕ
  pub relay_path : String
  pub upstream_body : Bytes
  pub upstream_accept : String
  pub is_stream : Bool

-- A request in the form of a provider: its error, or its JSON, `none` if that cannot be printed.
pub data Converted : Type 0 where
  rejected : String → Converted
  printed : Option Bytes → Converted

-- What the relay wrote: the status that it set, 0 for none, and the body.
pub record Relayed : Type 0 where
  pub status : ℕ
  pub writes : List Bytes

-- What the handler calls, and what its request holds. `key` is the id of a user, `none` for the
-- administrator, who has no limits. `others` is what other requests do to the limiter meanwhile.
pub record ChatCalls : Type 0 where
  pub key : Option String
  pub acquired_at : ℕ
  pub released_at : ℕ
  pub others : RateLimiter → RateLimiter
  pub body : Option Bytes
  pub decode : Bytes → Option ChatRequest
  pub lower : List ℕ → List ℕ
  pub to_claude : ChatRequest → Converted
  pub to_gemini : ChatRequest → Converted
  pub has_driver : Provider → Bool
  pub relay : Target → Relayed
  pub convert : Target → Bytes → Option Bytes
  pub client : Outside
  pub claude_events : ClaudeEvents
  pub gemini_events : GeminiEvents
  pub has_flusher : Bool
  pub now : ℕ

-- What the client gets: the limit that it met, an error of the handler, the error of an upstream
-- response, a converted response, or the stream that a writer has sent.
pub data Answer : Type 0 where
  limited : Admission → Answer
  errors : ℕ → String → String → Answer
  upstream_error : ℕ → Bytes → Answer
  answers : Bytes → Answer
  streams : Writer → Answer

-- "compat_" with a status, or "compat_stream_incomplete".
pub data FailureStatus : Type 0 where
  compat_status : ℕ → FailureStatus
  compat_stream_incomplete : FailureStatus

-- An entry of a failed request with its phase, status and kind, and the outcome that is logged.
pub data Entry : Type 0 where
  failure : String → FailureStatus → String → Entry
  outcome : String → Entry

pub data BuiltTarget : Type 0 where
  bad_request : String → BuiltTarget
  built : Target → BuiltTarget

abbrev pub on_claude : List ℕ → Bool → Converted → BuiltTarget
on_claude model is_stream (rejected message) = bad_request message
on_claude model is_stream (printed none) = bad_request "failed to marshal claude compat request"
on_claude model is_stream (printed (some body)) = built (record {
  provider = claude;
  requested_model = model;
  relay_path = "/v1/messages";
  upstream_body = body;
  upstream_accept = "text/event-stream";
  is_stream = is_stream;
})

abbrev pub on_gemini : List ℕ → Bool → Converted → BuiltTarget
on_gemini model is_stream (rejected message) = bad_request message
on_gemini model is_stream (printed none) = bad_request "failed to marshal gemini compat request"
on_gemini model is_stream (printed (some body)) = built (record {
  provider = gemini;
  requested_model = model;
  relay_path =
      if is_stream
      then "/gemini/v1internal:streamGenerateContent"
      else "/gemini/v1internal:generateContent";
  upstream_body = body;
  upstream_accept = "";
  is_stream = is_stream;
})

abbrev pub incomplete_entries : List Entry
incomplete_entries =
    failure "compat_final" compat_stream_incomplete "stream_incomplete" ∷ (outcome "error" ∷ [])

module _ (c : ChatCalls) where
  on_resolved : ChatRequest → Resolved → BuiltTarget
  on_resolved r (refused message) = bad_request message
  on_resolved r (resolved claude base model) = on_claude model r.is_stream (c.to_claude r)
  on_resolved r (resolved gemini base model) = on_gemini model r.is_stream (c.to_gemini r)

  unfoldable pub build_compat_target : ChatRequest → BuiltTarget
  unfolding on_resolved resolve_compat_model
  build_compat_target r = on_resolved r (resolve_compat_model c.lower r.model)

  abbrev pub lines_of : Provider → LineHandler
  lines_of claude = claude_lines c.client c.claude_events
  lines_of gemini = gemini_lines c.client c.gemini_events

  abbrev pub fails_preflight : ℕ → String → String → String → Answer × List Entry
  fails_preflight status kind effect message = (
    errors status kind message,
    failure "compat_preflight" (compat_status status) effect ∷ (outcome "error" ∷ []),
  )

  -- The writer of a stream after the relay and `finalize`.
  unfoldable pub stream_through : Target → Writer
  unfolding write_all finalize
  stream_through t =
      let run : Relayed = c.relay t in
      finalize (lines_of t.provider) c.client (
        write_all (lines_of t.provider) run.writes
          (write_header run.status (new_stream_writer c.has_flusher t.requested_model c.now)))

  unfoldable pub log_stream : Writer → List Entry
  unfolding client_status
  log_stream w =
      if not (completed w) && nat_beq (client_status w.stream.wire) 200
      then incomplete_entries
      else outcome "ok" ∷ []

  unfoldable pub on_converted : Option Bytes → Answer × List Entry
  on_converted none = (
    errors 502 "server_error" "failed to convert compat response",
    failure "compat_final" (compat_status 502) "server_error" ∷ (outcome "error" ∷ []),
  )
  on_converted (some body) = (answers body, outcome "ok" ∷ [])

  unfoldable pub answer_whole : Target → Answer × List Entry
  unfolding on_converted
  answer_whole t =
      let run : Relayed = c.relay t in
      let status : ℕ = if nat_beq run.status 0 then 200 else run.status in
      if not (nat_beq status 200)
      then (upstream_error status (concat run.writes), outcome "error" ∷ [])
      else on_converted (c.convert t (concat run.writes))

  unfoldable pub on_target : BuiltTarget → Answer × List Entry
  on_target (bad_request message) = fails_preflight 400 "invalid_request_error" "reject" message
  on_target (built t) =
      if not (c.has_driver t.provider)
      then fails_preflight 503 "server_error" "server_error"
          "provider compat surface is unavailable"
      else if t.is_stream
      then (streams (stream_through t), log_stream (stream_through t))
      else answer_whole t

  unfoldable pub on_decoded : Option ChatRequest → Answer × List Entry
  unfolding on_target build_compat_target
  on_decoded none = fails_preflight 400 "invalid_request_error" "reject" "invalid JSON body"
  on_decoded (some r) = on_target (build_compat_target r)

  unfoldable pub on_body : Option Bytes → Answer × List Entry
  unfolding on_decoded
  on_body none = fails_preflight 400 "invalid_request_error" "reject" "invalid JSON body"
  on_body (some body) = on_decoded (c.decode body)

  abbrev pub meanwhile : Option RateLimiter → Option RateLimiter
  meanwhile none = none
  meanwhile (some l) = some (c.others l)

  abbrev pub release_rate : Release → Option RateLimiter → Option RateLimiter
  release_rate nothing l = l
  release_rate (of_key key) none = none
  release_rate (of_key key) (some l) = some (release_slot key c.released_at l)

  abbrev pub on_admission :
      Option RateLimiter × Admission → Option RateLimiter × (Answer × List Entry)
  on_admission (l, admitted r) = (release_rate r (meanwhile l), on_body c.body)
  on_admission (l, too_many_running n) = (
    l,
    (
      limited (too_many_running n),
      failure "compat_preflight" (compat_status 429) "overload" ∷ (outcome "error" ∷ []),
    ),
  )
  on_admission (l, too_many_started n) = (
    l,
    (
      limited (too_many_started n),
      failure "compat_preflight" (compat_status 429) "overload" ∷ (outcome "error" ∷ []),
    ),
  )

  unfoldable pub admit_key :
      Option String → Option RateLimiter → Option RateLimiter × (Answer × List Entry)
  unfolding on_body acquire_rate release_slot
  admit_key none l = (meanwhile l, on_body c.body)
  admit_key (some key) l = on_admission (acquire_rate key c.acquired_at l)

  unfoldable pub handle_chat : Option RateLimiter → Option RateLimiter × (Answer × List Entry)
  unfolding admit_key
  handle_chat l = admit_key c.key l
