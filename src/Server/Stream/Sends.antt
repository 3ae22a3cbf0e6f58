-- ===== src/Server/Stream/Sends.antt =====
-- Each way to send keeps what Delivery says of a stream, and answers whether it is without an error.
use llm_broker.Prelude.{
  ℕ, Bool, true, false, List, Option, none, some, ◌≡◌, refl, sym, ◌∙◌, ◌⊎◌, inr, arith,
  if◌then◌else◌,
}
use mathlib.Core.Path.{subst}
use llm_broker.Domain.Surfaces.{runes}
use llm_broker.Server.Stream.{
  Bytes, Delta, Reply, whole, cut, Outside, Stream, is_ok, ensure_success_headers, on_reply,
  chunk_of, counted, flush_sent, done_line, mark_done, write_downstream, then_write, send_body,
  emit_chunk, emit_done, emit_comment,
}
use llm_broker.Server.Stream.Delivery.{
  Told, Delivery, IsQuiet, short-IsQuiet, brace-IsQuiet, flush-Delivery, ensure-Delivery, ensure_ok,
  on_reply-Told, on_reply-Delivery, Marks, done-Marks,
}

mark_done-Told : (r : Stream × Bool) → Told r → Told (mark_done r)
mark_done-Told (s, false) h = h
mark_done-Told (s, true) h = refl

flush_sent-Told : (r : Stream × Bool) → Told r → Told (flush_sent r)
flush_sent-Told (s, false) h = h
flush_sent-Told (s, true) h = refl

flush_sent-Delivery : (r : Stream × Bool) → Delivery r.0 → Delivery (flush_sent r).0
flush_sent-Delivery (s, false) d = d
flush_sent-Delivery (s, true) d = flush-Delivery s d

-- A send from a stream that is without an error and as described: its answer, and what it leaves.
unfoldable pub Sends : Stream × Bool → Type 0
Sends r = Told r × Delivery r.0

done_ends :
    (s : Stream) (r : Reply)
    → ((mark_done (on_reply done_line s r)).0.terminal_signal_seen ≡ s.terminal_signal_seen)
      × ((mark_done (on_reply done_line s r)).0.synthetic_done ≡ s.synthetic_done)
      × ((is_ok (mark_done (on_reply done_line s r)).0 ≡ false)
          ⊎ ((mark_done (on_reply done_line s r)).0.done_sent ≡ true))
done_ends s whole = ground arith
done_ends s (cut n e) = ground arith

pub by_test :
    (P : Stream × Bool → Type 0) (b : Bool) {x y : Stream × Bool}
    → (b ≡ true → P x)
    → (b ≡ false → P y)
    → P (if b then x else y)
by_test P true f g = f refl
by_test P false f g = g refl

abbrev begun : Bool → Stream → Stream
begun synthetic s = record (ensure_success_headers s) { synthetic_done = synthetic }

pub here-Sends : (s : Stream) → is_ok s ≡ true → Delivery s → Sends (s, true)
unfolding Sends
here-Sends s h d = (sym h, d)

module _ (out : Outside) where
  then_write-Sends :
      (bytes : Bytes) (r : Stream × Bool) → IsQuiet bytes → Sends r → Sends (then_write out bytes r)
  unfolding then_write write_downstream Sends
  then_write-Sends bytes (s, false) q d = d
  then_write-Sends bytes (s, true) q d = (
    on_reply-Told bytes s (out.client s.wire bytes) (sym d.0),
    on_reply-Delivery bytes s (out.client s.wire bytes) q d.1,
  )

  send_body-Sends :
      (delta : Delta) (s : Stream) (body : Option Bytes)
      → ((b : Bytes) → body ≡ some b → IsQuiet b)
      → is_ok s ≡ true
      → Delivery s
      → Sends (send_body out delta s body)
  unfolding send_body Sends
  send_body-Sends delta s none q h d = (sym h, d)
  send_body-Sends delta s (some b) q h d =
      let sent : Sends (
          then_write out (runes "\n\n")
            (then_write out b (then_write out (runes "data: ") (counted delta s, true)))) =
        then_write-Sends (runes "\n\n") _ (short-IsQuiet _ refl) (
          then_write-Sends b _ (q b refl) (
            then_write-Sends (runes "data: ") _ (short-IsQuiet _ refl)
              (here-Sends (counted delta s) h (ground arith)))) in
      (flush_sent-Told _ sent.0, flush_sent-Delivery _ sent.1)

  pub emit_chunk-Sends :
      (delta : Delta) (finish_reason : Option (List ℕ)) (s : Stream)
      → is_ok s ≡ true
      → Delivery s
      → Sends (emit_chunk out delta finish_reason s)
  unfolding emit_chunk
  emit_chunk-Sends delta finish_reason s h d =
      let s' : Stream = ensure_success_headers s in
      let quiet : (b : Bytes) → out.marshal (chunk_of delta finish_reason s') ≡ some b → IsQuiet b =
        λ b e.
          (let (rest, o) = out.marshal_opens (chunk_of delta finish_reason s') b e in
            subst IsQuiet (sym o) (brace-IsQuiet rest)) in
      send_body-Sends delta s' (out.marshal (chunk_of delta finish_reason s')) quiet (ensure_ok s h)
        (ensure-Delivery s d)

  pub emit_comment-Sends :
      (comment : Bytes) (s : Stream)
      → IsQuiet comment
      → is_ok s ≡ true
      → Delivery s
      → Sends (emit_comment out comment s)
  unfolding emit_comment Sends
  emit_comment-Sends comment s q h d =
      let sent : Sends (
          then_write out (runes "\n\n") (
            then_write out comment
              (then_write out (runes ": ") (ensure_success_headers s, true)))) =
        then_write-Sends (runes "\n\n") _ (short-IsQuiet _ refl) (
          then_write-Sends comment _ q (
            then_write-Sends (runes ": ") _ (short-IsQuiet _ refl)
              (here-Sends (ensure_success_headers s) (ensure_ok s h) (ensure-Delivery s d)))) in
      (flush_sent-Told _ sent.0, flush_sent-Delivery _ sent.1)

  begun_ok : (synthetic : Bool) (s : Stream) → is_ok s ≡ true → is_ok (begun synthetic s) ≡ true
  begun_ok synthetic s h = ground arith

  -- The end, whether the terminal signal was seen or not.
  pub emit_done-Told :
      (synthetic : Bool) (s : Stream) → is_ok s ≡ true → Told (emit_done out synthetic s)
  unfolding emit_done write_downstream
  emit_done-Told synthetic s h =
      by_test Told s.done_sent (λ e. refl)
        (λ e. mark_done-Told _ (
          on_reply-Told done_line (begun synthetic s)
            (out.client (begun synthetic s).wire done_line) (begun_ok synthetic s h)))

  pub emit_done-Marks :
      (synthetic : Bool) (s : Stream)
      → is_ok s ≡ true
      → Delivery s
      → Marks (emit_done out synthetic s).0
  unfolding emit_done write_downstream
  emit_done-Marks synthetic s h d =
      by_test (λ r. Marks r.0) s.done_sent
        (λ e. record { exact = d.exact; once = d.once; no_failure = d.no_failure })
        (λ e.
          let b : Delivery (ensure_success_headers s) = ensure-Delivery s d in
          done-Marks (begun synthetic s) (out.client (begun synthetic s).wire done_line)
            (ground (arith, b.exact, h, e)) b.no_failure)

  pub emit_done-ends :
      (synthetic : Bool) (s : Stream)
      → ((emit_done out synthetic s).0.terminal_signal_seen ≡ s.terminal_signal_seen)
        × ((emit_done out synthetic s).0.synthetic_done
            ≡ (if s.done_sent then s.synthetic_done else synthetic))
        × ((is_ok (emit_done out synthetic s).0 ≡ false)
            ⊎ ((emit_done out synthetic s).0.done_sent ≡ true))
  unfolding emit_done write_downstream
  emit_done-ends synthetic s =
      let r : Reply = out.client (begun synthetic s).wire done_line in
      ground (arith, done_ends (begun synthetic s) r)

  pub emit_done-Sends :
      (s : Stream)
      → is_ok s ≡ true
      → s.terminal_signal_seen ≡ true
      → Delivery s
      → Sends (emit_done out false s)
  unfolding Sends
  emit_done-Sends s h t d =
      let m : Marks (emit_done out false s).0 = emit_done-Marks false s h d in
      let e = emit_done-ends false s in
      (
        emit_done-Told false s h,
        record {
          exact = m.exact;
          once = m.once;
          no_failure = m.no_failure;
          unsynthetic = ground (arith, e.1, d.unsynthetic);
          after_terminal = inr (e.0 ∙ t);
        },
      )
