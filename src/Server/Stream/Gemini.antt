-- ===== src/Server/Stream/Gemini.antt =====
-- compat_openai_stream.go: handleGeminiStreamLine.
pub mod Events
use llm_broker.Prelude.{
  ℕ, Bool, true, false, ◌-◌, ◌&&◌, ◌||◌, not, List, [], ◌∷◌, ◌++◌, Option, none, some, ◌≡◌, refl,
  sym, ap, ◌∙◌, ◌⊎◌, inl, inr, arith, map, nat_beq, leb, Option-cases, Bool-cases, if◌then◌else◌,
}
use llm_broker.Domain.Surfaces.{runes, same_codes, trim_space}
use llm_broker.Server.Stream.Claude.{role_delta, text_delta, no_delta, with_id, with_id-Delivery}
use llm_broker.Server.Stream.Delivery.{Delivery, Told}
use llm_broker.Server.Stream.Sends.{Sends, emit_chunk-Sends, emit_done-Sends, here-Sends, by_test}
use llm_broker.Server.Stream.Gemini.Events.{
  GeminiCandidate, GeminiResponse, GeminiEvents, is_nil, parse_gemini_response,
  gemini_finish_reason, joined_text,
}
use llm_broker.Server.Stream.Trims.{after_prefix, trim_bytes}
use llm_broker.Server.Stream.Writes.{LineHandler}
use llm_broker.Server.Stream.{Bytes, Delta, Outside, Stream, is_ok, is_blank, emit_chunk, emit_done}

module _ (out : Outside) where
  unfoldable pub send_role : Stream → Stream × Bool
  send_role s =
      if s.role_sent
      then (s, true)
      else emit_chunk out role_delta none (record s { role_sent = true })

  unfoldable pub send_text : List ℕ → Stream × Bool → Stream × Bool
  send_text text (s, false) = (s, false)
  send_text [] (s, true) = (s, true)
  send_text (c ∷ cs) (s, true) = emit_chunk out (text_delta (c ∷ cs)) none s

  unfoldable pub send_content : Option (List (List ℕ)) → Stream → Stream × Bool
  unfolding send_role send_text joined_text
  send_content none s = (s, true)
  send_content (some parts) s = send_text (joined_text parts) (send_role s)

  unfoldable pub send_finish : List ℕ → Stream × Bool → Stream × Bool
  unfolding gemini_finish_reason
  send_finish reason (s, false) = (s, false)
  send_finish reason (s, true) =
      if is_blank reason
      then (s, true)
      else emit_chunk out no_delta (some (gemini_finish_reason reason))
          (record s { terminal_signal_seen = true })

  unfoldable pub on_candidates : List GeminiCandidate → Stream → Stream × Bool
  unfolding send_content send_finish
  on_candidates [] s = (s, true)
  on_candidates (candidate ∷ others) s =
      send_finish candidate.finish_reason (send_content candidate.content s)

  unfoldable pub on_gemini_response : Option GeminiResponse → Stream → Stream × Bool
  unfolding on_candidates
  on_gemini_response none s = (s, true)
  on_gemini_response (some r) s = on_candidates r.candidates (with_id (some r.response_id) s)

  unfoldable pub on_gemini_data : GeminiEvents → Option Bytes → Stream → Stream × Bool
  unfolding on_gemini_response parse_gemini_response trim_bytes
  on_gemini_data events none s = (s, true)
  on_gemini_data events (some rest) s =
      let payload : Bytes = trim_bytes rest in
      if is_nil payload || same_codes payload (runes "[DONE]")
      then emit_done out false (record s { terminal_signal_seen = true })
      else on_gemini_response (parse_gemini_response events payload) s

  unfoldable pub handle_gemini_stream_line : GeminiEvents → Bytes → Stream → Stream × Bool
  unfolding on_gemini_data after_prefix
  handle_gemini_stream_line events line s =
      on_gemini_data events (after_prefix (runes "data: ") line) s

  send_role-Sends : (s : Stream) → is_ok s ≡ true → Delivery s → Sends (send_role s)
  unfolding send_role
  send_role-Sends s h d =
      by_test Sends s.role_sent (λ _. here-Sends s h d)
        (λ _. emit_chunk-Sends out role_delta none (record s { role_sent = true }) h (ground arith))

  send_text-Sends : (text : List ℕ) (r : Stream × Bool) → Sends r → Sends (send_text text r)
  unfolding send_text Sends
  send_text-Sends text (s, false) d = d
  send_text-Sends [] (s, true) d = d
  send_text-Sends (c ∷ cs) (s, true) d =
      emit_chunk-Sends out (text_delta (c ∷ cs)) none s (sym d.0) d.1

  send_content-Sends :
      (o : Option (List (List ℕ))) (s : Stream)
      → is_ok s ≡ true
      → Delivery s
      → Sends (send_content o s)
  unfolding send_content
  send_content-Sends none s h d = here-Sends s h d
  send_content-Sends (some parts) s h d =
      send_text-Sends (joined_text parts) (send_role s) (send_role-Sends s h d)

  send_finish-Sends : (reason : List ℕ) (r : Stream × Bool) → Sends r → Sends (send_finish reason r)
  unfolding send_finish Sends
  send_finish-Sends reason (s, false) d = d
  send_finish-Sends reason (s, true) d =
      by_test Sends (is_blank reason) (λ _. d)
        (λ _.
          emit_chunk-Sends out no_delta (some (gemini_finish_reason reason))
            (record s { terminal_signal_seen = true }) (sym d.0)
            (let e : Delivery s = d.1 in ground arith))

  on_candidates-Sends :
      (cs : List GeminiCandidate) (s : Stream)
      → is_ok s ≡ true
      → Delivery s
      → Sends (on_candidates cs s)
  unfolding on_candidates
  on_candidates-Sends [] s h d = here-Sends s h d
  on_candidates-Sends (c ∷ cs) s h d =
      send_finish-Sends c.finish_reason (send_content c.content s)
        (send_content-Sends c.content s h d)

  on_gemini_response-Sends :
      (o : Option GeminiResponse) (s : Stream)
      → is_ok s ≡ true
      → Delivery s
      → Sends (on_gemini_response o s)
  unfolding on_gemini_response
  on_gemini_response-Sends none s h d = here-Sends s h d
  on_gemini_response-Sends (some r) s h d =
      let named = with_id-Delivery (some r.response_id) s h d in
      on_candidates-Sends r.candidates (with_id (some r.response_id) s) named.0 named.1

  on_data-Sends :
      (events : GeminiEvents) (o : Option Bytes) (s : Stream)
      → is_ok s ≡ true
      → Delivery s
      → Sends (on_gemini_data events o s)
  unfolding on_gemini_data
  on_data-Sends events none s h d = here-Sends s h d
  on_data-Sends events (some rest) s h d =
      by_test Sends (is_nil (trim_bytes rest) || same_codes (trim_bytes rest) (runes "[DONE]"))
        (λ _. emit_done-Sends out (record s { terminal_signal_seen = true }) h refl (ground arith))
        (λ _. on_gemini_response-Sends (parse_gemini_response events (trim_bytes rest)) s h d)

  pub handle_line-Sends :
      (events : GeminiEvents) (line : Bytes) (s : Stream)
      → is_ok s ≡ true
      → Delivery s
      → Sends (handle_gemini_stream_line events line s)
  unfolding handle_gemini_stream_line
  handle_line-Sends events line = on_data-Sends events (after_prefix (runes "data: ") line)

  -- Gemini's writer handles lines by `handle_gemini_stream_line`.
  abbrev pub gemini_lines : GeminiEvents → LineHandler
  gemini_lines events = record {
    handle = handle_gemini_stream_line events;
    handle_sends = handle_line-Sends events;
  }
