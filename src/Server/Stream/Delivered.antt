-- ===== src/Server/Stream/Delivered.antt =====
-- What the client has when a stream has ended, and what it has when the upstream refused.
use mathlib.Core.List.{append_assoc, append-nil}
use mathlib.Core.Path.{subst}
use llm_broker.Prelude.{
  ℕ, ◌≤◌, Bool, true, false, not, List, [], ◌∷◌, ◌++◌, ◌≡◌, refl, sym, ap, ◌∙◌, ◌⊎◌, inl, inr,
  arith, count_if, Bool-cases,
}
use llm_broker.Server.Stream.Chunking.{concat, deliver, write_all-stream, new_stream-Delivery}
use llm_broker.Server.Stream.Delivery.{Delivery, Marks, dones, is_failed}
use llm_broker.Server.Stream.Sends.{Sends, emit_done-Marks, emit_done-ends, here-Sends}
use llm_broker.Server.Stream.Lines.{feed, feed-Sends, whole_lines, open_line}
use llm_broker.Server.Stream.Trims.{trim_right, extract_error_body}
use llm_broker.Server.Stream.Writes.{
  Writer, LineHandler, is_line_end, is_success, write_body, write_all, handle_last, end_stream,
  finalize, new_stream_writer, write_header, completed,
}
use llm_broker.Server.Stream.{Bytes, failed, Outside, Stream, is_ok}

record Ended (s : Stream) : Type 0 where
  once : dones s ≤ 1
  no_failure : count_if is_failed s.wire ≡ 0
  marked :
      (is_ok s ≡ false)
      ⊎ ((dones s ≡ 1) × (s.done_sent ≡ true) × (s.synthetic_done ≡ not s.terminal_signal_seen))

end_stream-Ended : (out : Outside) (r : Stream × Bool) → Sends r → Ended (end_stream out r)
unfolding Sends
end_stream-Ended out (s, false) d =
    let e : Delivery s = d.1 in
    record { once = e.once; no_failure = e.no_failure; marked = inl (sym d.0) }
end_stream-Ended out (s, true) d =
    let e : Delivery s = d.1 in
    let m : Marks (end_stream out (s, true)) =
      emit_done-Marks out (not s.terminal_signal_seen) s (sym d.0) e in
    let ends = emit_done-ends out (not s.terminal_signal_seen) s in
    record {
      once = m.once;
      no_failure = m.no_failure;
      marked = ground (arith, m.exact, ends.0, ends.1, ends.2, e.unsynthetic, e.after_terminal);
    }

handle_last-Sends :
    (h : LineHandler) (line : Bytes) (s : Stream)
    → is_ok s ≡ true
    → Delivery s
    → Sends (handle_last h line s)
unfolding handle_last
handle_last-Sends h [] s ok d = here-Sends s ok d
handle_last-Sends h (c ∷ cs) s ok d = h.handle_sends (c ∷ cs) s ok d

deliver-Ended :
    (h : LineHandler) (out : Outside) (body : Bytes) (s : Stream)
    → is_ok s ≡ true
    → Delivery s
    → Ended (deliver h out body s)
unfolding deliver Sends
deliver-Ended h out body s ok d =
    let read : Sends (feed h (whole_lines body) s) = feed-Sends h (whole_lines body) s ok d in
    let s' : Stream = (feed h (whole_lines body) s).0 in
    let last : Bytes = trim_right is_line_end (open_line body) in
    elim (Bool-cases (feed h (whole_lines body) s).1) [
      | inl t ↦ rw t (
          end_stream-Ended out (handle_last h last s')
            (handle_last-Sends h last s' (sym read.0 ∙ t) read.1))
      | inr f ↦ rw f (end_stream-Ended out (s', false) (rw f at read))
    ]

-- A stream that ended. Without an error of the client's connection it has one end mark, counts as
-- completed just when the terminal signal was seen, and its mark is synthetic just when it was not.
pub record IsDelivered (w : Writer) : Type 0 where
  pub once : dones w.stream ≤ 1
  pub no_failure : count_if is_failed w.stream.wire ≡ 0
  pub marked :
      ((is_ok w.stream ≡ false) × (completed w ≡ false))
      ⊎ ((dones w.stream ≡ 1)
          × (completed w ≡ w.stream.terminal_signal_seen)
          × (w.stream.synthetic_done ≡ not (completed w)))

finalize-status :
    (h : LineHandler) (out : Outside) (w : Writer) → (finalize h out w).status ≡ w.status
unfolding finalize
finalize-status h out w = ground arith

-- Of a new writer whose status was not set or is 200, after any writes and its end, the client has
-- the end mark once at most, and no error response. If its connection is without an error it has the
-- mark once. The stream then counts as completed just when the terminal signal of the provider was
-- seen, and the mark is noted as synthetic just when it was not. With an error it is not completed.
pub finalize-IsDelivered :
    (h : LineHandler) (out : Outside) (ps : List Bytes) (status : ℕ) (has_flusher : Bool)
    (requested_model : List ℕ) (now : ℕ)
    → is_success status ≡ true
    → IsDelivered (
        finalize h out (
          write_all h ps (write_header status (new_stream_writer has_flusher requested_model now))))
finalize-IsDelivered h out ps status has_flusher requested_model now success =
    let w : Writer = write_header status (new_stream_writer has_flusher requested_model now) in
    let d : Delivery w.stream = new_stream-Delivery has_flusher requested_model now in
    let (same, kept) = write_all-stream h out ps w refl success refl d in
    let e : Ended (finalize h out (write_all h ps w)).stream =
      subst Ended (sym same) (deliver-Ended h out (concat ps) w.stream refl d) in
    let status_kept = finalize-status h out (write_all h ps w) in
    record {
      once = e.once;
      no_failure = e.no_failure;
      marked = ground (arith, e.marked, kept, status_kept);
    }

module _ (h : LineHandler) where
  write_failed :
      (bytes : Bytes) (w : Writer)
      → is_success w.status ≡ false
      → is_ok w.stream ≡ true
      → write_body h bytes w ≡ record w { raw_error_body = w.raw_error_body ++ bytes }
  unfolding write_body
  write_failed bytes w f ok = ground arith

  write_all_failed :
      (ps : List Bytes) (w : Writer)
      → is_success w.status ≡ false
      → is_ok w.stream ≡ true
      → write_all h ps w ≡ record w { raw_error_body = w.raw_error_body ++ concat ps }
  unfolding write_all
  write_all_failed [] w f ok =
      ap (λ b. record w { raw_error_body = b }) (sym (append-nil w.raw_error_body))
  write_all_failed (bytes ∷ ps) w f ok =
      ap (write_all h ps) (write_failed bytes w f ok)
      ∙ write_all_failed ps (record w { raw_error_body = w.raw_error_body ++ bytes }) f ok
      ∙ ap (λ b. record w { raw_error_body = b }) (append_assoc w.raw_error_body bytes (concat ps))

  -- A writer with another status sends nothing before its end, and then one error response with that
  -- status, made from all that was written.
  pub finalize-failed :
      (out : Outside) (ps : List Bytes) (status : ℕ) (has_flusher : Bool) (requested_model : List ℕ)
      (now : ℕ)
      → is_success status ≡ false
      → ((write_all h ps
            (write_header status (new_stream_writer has_flusher requested_model now))).stream.wire
          ≡ [])
        × ((finalize h out (
              write_all h ps (
                write_header status
                  (new_stream_writer has_flusher requested_model now)))).stream.wire
            ≡ failed status (extract_error_body (concat ps)) ∷ [])
  unfolding finalize
  finalize-failed out ps status has_flusher requested_model now f =
      let w : Writer = write_header status (new_stream_writer has_flusher requested_model now) in
      rw (write_all_failed ps w f refl) (ground arith)
