-- ===== src/Server/Stream/Claude.antt =====
-- compat_openai_stream.go: handleClaudeStreamLine, with compatClaudeFinishReason of
-- compat_openai_claude.go. What json.Unmarshal reads of a payload is given, `none` for its error.
use llm_broker.Prelude.{
  ℕ, Bool, true, false, inl, inr, arith, Option-cases, List, [], ◌∷◌, Option, none, some, ◌≡◌, refl,
  Bool-cases, if◌then◌else◌,
}
use llm_broker.Domain.Surfaces.{runes, same_codes}
use llm_broker.Server.Stream.Delivery.{Delivery, short-IsQuiet}
use llm_broker.Server.Stream.Sends.{
  Sends, emit_chunk-Sends, emit_comment-Sends, emit_done-Sends, here-Sends, by_test,
}
use llm_broker.Server.Stream.Trims.{after_prefix}
use llm_broker.Server.Stream.Writes.{LineHandler}
use llm_broker.Server.Stream.{
  Bytes, Delta, Outside, Stream, is_ok, is_blank, emit_chunk, emit_done, emit_comment,
}

pub record ClaudeEvents : Type 0 where
  pub message_id : Bytes → Option (List ℕ)
  pub delta_of : Bytes → Option (List ℕ × List ℕ)
  pub stop_reason_of : Bytes → Option (List ℕ)

abbrev pub role_delta : Delta
role_delta = record { role = runes "assistant"; content = [] }

abbrev pub text_delta : List ℕ → Delta
text_delta text = record { role = []; content = text }

abbrev pub no_delta : Delta
no_delta = record { role = []; content = [] }

unfoldable pub claude_finish_reason : List ℕ → List ℕ
claude_finish_reason reason =
    if same_codes reason (runes "max_tokens")
    then runes "length"
    else if same_codes reason (runes "tool_use")
    then runes "tool_calls"
    else runes "stop"

abbrev pub with_id : Option (List ℕ) → Stream → Stream
with_id none s = s
with_id (some id) s = if is_blank id then s else record s { chunk_id = id }

pub with_id-Delivery :
    (o : Option (List ℕ)) (s : Stream)
    → is_ok s ≡ true
    → Delivery s
    → (is_ok (with_id o s) ≡ true) × Delivery (with_id o s)
with_id-Delivery none s h d = (h, d)
with_id-Delivery (some id) s h d = elim (Bool-cases (is_blank id)) [
  | inl t ↦ rw t (h, d)
  | inr t ↦ rw t (h, ground arith)
]

module _ (out : Outside) (events : ClaudeEvents) where
  unfoldable pub on_start : Stream → Stream × Bool
  on_start s =
      if s.role_sent
      then (s, true)
      else emit_chunk out role_delta none (record s { role_sent = true })

  unfoldable pub on_delta : Option (List ℕ × List ℕ) → Stream → Stream × Bool
  on_delta none s = (s, true)
  on_delta (some (kind, [])) s = (s, true)
  on_delta (some (kind, c ∷ cs)) s =
      if same_codes kind (runes "text_delta")
      then emit_chunk out (text_delta (c ∷ cs)) none s
      else (s, true)

  unfoldable pub on_stop_reason : Option (List ℕ) → Stream → Stream × Bool
  unfolding claude_finish_reason
  on_stop_reason none s = (s, true)
  on_stop_reason (some reason) s =
      if is_blank reason
      then (s, true)
      else emit_chunk out no_delta (some (claude_finish_reason reason)) s

  -- The payload of a data line, by the type of the last event line.
  unfoldable pub on_payload : Bytes → Bytes → Stream → Stream × Bool
  unfolding on_start on_delta on_stop_reason
  on_payload kind payload s =
      if same_codes kind (runes "message_start")
      then on_start (with_id (events.message_id payload) s)
      else if same_codes kind (runes "content_block_delta")
      then on_delta (events.delta_of payload) s
      else if same_codes kind (runes "message_delta")
      then on_stop_reason (events.stop_reason_of payload) s
      else if same_codes kind (runes "message_stop")
      then emit_done out false (record s { terminal_signal_seen = true })
      else if same_codes kind (runes "ping")
      then emit_comment out (runes "ping") s
      else (s, true)

  unfoldable pub on_data : Option Bytes → Stream → Stream × Bool
  unfolding on_payload
  on_data none s = (s, true)
  on_data (some payload) s = on_payload s.last_event_type payload s

  unfoldable pub handle_claude_stream_line : Bytes → Stream → Stream × Bool
  unfolding on_data after_prefix
  handle_claude_stream_line line s = elim (after_prefix (runes "event: ") line) [
    | some kind ↦ (record s { last_event_type = kind }, true)
    | none ↦ on_data (after_prefix (runes "data: ") line) s
  ]

  on_start-Sends : (s : Stream) → is_ok s ≡ true → Delivery s → Sends (on_start s)
  unfolding on_start
  on_start-Sends s h d =
      by_test Sends s.role_sent (λ e. here-Sends s h d)
        (λ e. emit_chunk-Sends out role_delta none (record s { role_sent = true }) h (ground arith))

  on_delta-Sends :
      (o : Option (List ℕ × List ℕ)) (s : Stream)
      → is_ok s ≡ true
      → Delivery s
      → Sends (on_delta o s)
  unfolding on_delta
  on_delta-Sends none s h d = here-Sends s h d
  on_delta-Sends (some (kind, [])) s h d = here-Sends s h d
  on_delta-Sends (some (kind, c ∷ cs)) s h d =
      by_test Sends (same_codes kind (runes "text_delta"))
        (λ e. emit_chunk-Sends out (text_delta (c ∷ cs)) none s h d) (λ e. here-Sends s h d)

  on_stop_reason-Sends :
      (o : Option (List ℕ)) (s : Stream) → is_ok s ≡ true → Delivery s → Sends (on_stop_reason o s)
  unfolding on_stop_reason
  on_stop_reason-Sends none s h d = here-Sends s h d
  on_stop_reason-Sends (some reason) s h d =
      by_test Sends (is_blank reason) (λ e. here-Sends s h d)
        (λ e. emit_chunk-Sends out no_delta (some (claude_finish_reason reason)) s h d)

  on_payload-Sends :
      (kind payload : Bytes) (s : Stream)
      → is_ok s ≡ true
      → Delivery s
      → Sends (on_payload kind payload s)
  unfolding on_payload
  on_payload-Sends kind payload s h d =
      let named = with_id-Delivery (events.message_id payload) s h d in
      by_test Sends (same_codes kind (runes "message_start"))
        (λ _. on_start-Sends (with_id (events.message_id payload) s) named.0 named.1)
        (λ _.
          by_test Sends (same_codes kind (runes "content_block_delta"))
            (λ _. on_delta-Sends (events.delta_of payload) s h d)
            (λ _.
              by_test Sends (same_codes kind (runes "message_delta"))
                (λ _. on_stop_reason-Sends (events.stop_reason_of payload) s h d)
                (λ _.
                  by_test Sends (same_codes kind (runes "message_stop"))
                    (λ _.
                      emit_done-Sends out (record s { terminal_signal_seen = true }) h refl
                        (ground arith))
                    (λ _.
                      by_test Sends (same_codes kind (runes "ping"))
                        (λ _. emit_comment-Sends out (runes "ping") s (short-IsQuiet _ refl) h d)
                        (λ _. here-Sends s h d)))))

  on_data-Sends :
      (o : Option Bytes) (s : Stream) → is_ok s ≡ true → Delivery s → Sends (on_data o s)
  unfolding on_data
  on_data-Sends none s h d = here-Sends s h d
  on_data-Sends (some payload) s h d = on_payload-Sends s.last_event_type payload s h d

  pub handle_line-Sends :
      (line : Bytes) (s : Stream)
      → is_ok s ≡ true
      → Delivery s
      → Sends (handle_claude_stream_line line s)
  unfolding handle_claude_stream_line
  handle_line-Sends line s h d = elim (Option-cases (after_prefix (runes "event: ") line)) [
    | inl e ↦ rw e (on_data-Sends (after_prefix (runes "data: ") line) s h d)
    | inr (kind, e) ↦ rw e (here-Sends (record s { last_event_type = kind }) h (ground arith))
  ]

  -- Claude's writer handles lines by `handle_claude_stream_line`.
  abbrev pub claude_lines : LineHandler
  claude_lines = record { handle = handle_claude_stream_line; handle_sends = handle_line-Sends }
