-- ===== src/Server/Stream/Chunking.antt =====
-- What a client is sent depends on the bytes of the upstream's body alone.
use mathlib.Core.List.{append_assoc, append-nil}
use mathlib.Core.Path.{subst}
use llm_broker.Prelude.{
  ℕ, suc, Bool, true, false, List, [], ◌∷◌, ◌++◌, ◌≡◌, refl, sym, ap, ◌∙◌, ◌⊎◌, inl, inr, arith,
  length, count_if, Bool-cases, if◌then◌else◌,
}
use llm_broker.Server.Stream.Delivery.{Delivery}
use llm_broker.Server.Stream.Sends.{Sends}
use llm_broker.Server.Stream.Lines.{
  whole_lines, open_line, whole_lines-append, open_line-append, feed, feed-append, feed-Sends,
  drain-feed,
}
use llm_broker.Server.Stream.Trims.{trim_right}
use llm_broker.Server.Stream.Writes.{
  Writer, LineHandler, is_line_end, is_success, write_body, write_all, handle_last, end_stream,
  finalize, new_stream_writer, write_header,
}
use llm_broker.Server.Stream.{Bytes, Outside, Stream, is_ok}

abbrev pub concat : List Bytes → Bytes
concat [] = []
concat (bytes ∷ more) = bytes ++ concat more

module _ (h : LineHandler) where
  -- A whole body at once: its lines, then the line that no newline ended, then the end.
  unfoldable pub deliver : Outside → Bytes → Stream → Stream
  unfolding feed handle_last
  deliver out body s =
      let (s', more) = feed h (whole_lines body) s in
      end_stream out
        (if more then handle_last h (trim_right is_line_end (open_line body)) s' else (s', false))

  -- A writer that started with `s` and was written `body`.
  record HasRead (s : Stream) (body : Bytes) (w : Writer) : Type 0 where
    success : is_success w.status ≡ true
    same : w.stream ≡ (feed h (whole_lines body) s).0
    told : (feed h (whole_lines body) s).1 ≡ is_ok w.stream
    kept : (is_ok w.stream ≡ false) ⊎ (w.line_buf ≡ open_line body)

  feed_more :
      (body bytes : Bytes) (s : Stream)
      → feed h (whole_lines (body ++ bytes)) s ≡ (
          if (feed h (whole_lines body) s).1
          then feed h (whole_lines (open_line body ++ bytes)) (feed h (whole_lines body) s).0
          else feed h (whole_lines body) s)
  feed_more body bytes s =
      ap (λ ls. feed h ls s) (whole_lines-append body bytes)
      ∙ feed-append h (whole_lines body) (whole_lines (open_line body ++ bytes)) s

  write_body-HasRead :
      (bytes body : Bytes) (s : Stream) (w : Writer)
      → is_ok s ≡ true
      → Delivery s
      → HasRead s body w
      → HasRead s (body ++ bytes) (write_body h bytes w)
  unfolding write_body Sends
  write_body-HasRead bytes body s w ok d r = elim (Bool-cases (is_ok w.stream)) [
    | inl t ↦
        let keeps : w.line_buf ≡ open_line body = ground (arith, r.kept, t) in
        let whole : Sends (feed h (whole_lines (body ++ bytes)) s) =
          feed-Sends h (whole_lines (body ++ bytes)) s ok d in
        let buf : Bytes = w.line_buf ++ bytes in
        ground (
          arith,
          r.success,
          r.same,
          r.told,
          ap (λ b. b ++ bytes) keeps,
          whole.0,
          feed_more body bytes s,
          open_line-append body bytes,
          drain-feed h (suc (length buf)) buf w.stream (omega arith),
        )
    | inr f ↦ ground (arith, r.success, r.same, r.told, r.kept, feed_more body bytes s)
  ]

  write_all-HasRead :
      (ps : List Bytes) (body : Bytes) (s : Stream) (w : Writer)
      → is_ok s ≡ true
      → Delivery s
      → HasRead s body w
      → HasRead s (body ++ concat ps) (write_all h ps w)
  unfolding write_all
  write_all-HasRead [] body s w ok d r = subst (λ b. HasRead s b w) (sym (append-nil body)) r
  write_all-HasRead (bytes ∷ ps) body s w ok d r =
      subst (λ b. HasRead s b (write_all h ps (write_body h bytes w)))
        (append_assoc body bytes (concat ps))
        (write_all-HasRead ps (body ++ bytes) s (write_body h bytes w) ok d
          (write_body-HasRead bytes body s w ok d r))

  finalize-HasRead :
      (out : Outside) (body : Bytes) (s : Stream) (w : Writer)
      → HasRead s body w
      → (finalize h out w).stream ≡ deliver out body s
  unfolding finalize deliver
  finalize-HasRead out body s w r = ground (arith, r.success, r.same, r.told, r.kept)

  pub write_all-stream :
      (out : Outside) (ps : List Bytes) (w : Writer)
      → w.line_buf ≡ []
      → is_success w.status ≡ true
      → is_ok w.stream ≡ true
      → Delivery w.stream
      → ((finalize h out (write_all h ps w)).stream ≡ deliver out (concat ps) w.stream)
        × (is_success (write_all h ps w).status ≡ true)
  unfolding feed whole_lines open_line
  write_all-stream out ps w e success ok d =
      let r : HasRead w.stream (concat ps) (write_all h ps w) =
        write_all-HasRead ps [] w.stream w ok d
          (record { success = success; same = refl; told = sym ok; kept = inr e }) in
      (finalize-HasRead out (concat ps) w.stream (write_all h ps w) r, r.success)

pub new_stream-Delivery :
    (has_flusher : Bool) (requested_model : List ℕ) (now : ℕ)
    → Delivery (new_stream_writer has_flusher requested_model now).stream
unfolding count_if
new_stream-Delivery has_flusher requested_model now = ground arith

-- What a new writer has sent after any writes and its end is what the whole body gives, handled at
-- once: the lines in order up to a failure, the line that no newline ended, and the end. So how the
-- body was cut into writes makes no difference. The status was not set, or is 200.
pub finalize-write_all :
    (h : LineHandler) (out : Outside) (ps : List Bytes) (status : ℕ) (has_flusher : Bool)
    (requested_model : List ℕ) (now : ℕ)
    → is_success status ≡ true
    → (finalize h out (
        write_all h ps
          (write_header status (new_stream_writer has_flusher requested_model now)))).stream
      ≡ deliver h out (concat ps) (new_stream_writer has_flusher requested_model now).stream
finalize-write_all h out ps status has_flusher requested_model now success =
    (write_all-stream h out ps
      (write_header status (new_stream_writer has_flusher requested_model now)) refl success refl
      (new_stream-Delivery has_flusher requested_model now)).0
