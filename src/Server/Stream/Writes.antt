-- ===== src/Server/Stream/Writes.antt =====
-- compat_openai_stream.go: WriteHeader, Write, nextLine, finalize and completed, over the handler of
-- a line. Gemini's writer repeats them. `finalize` also starts from a writer that nothing was written
-- to.
use llm_broker.Prelude.{
  ℕ, zero, suc, Bool, true, false, not, ◌&&◌, ◌||◌, List, [], ◌∷◌, ◌++◌, Option, none, some, ◌≡◌,
  nat_beq, length, if◌then◌else◌,
}
use llm_broker.Server.Stream.Trims.{trim_right, extract_error_body}
use llm_broker.Server.Stream.Delivery.{Delivery}
use llm_broker.Server.Stream.Sends.{Sends}
use llm_broker.Server.Stream.{Bytes, failed, Outside, Stream, is_ok, put, emit_done}

pub record Writer : Type 0 where
  pub status : ℕ
  pub line_buf : Bytes
  pub raw_error_body : Bytes
  pub stream : Stream

-- newCompatOpenAIStreamWriter and newCompatGeminiStreamWriter, with the time of their call.
abbrev pub new_stream_writer : Bool → List ℕ → ℕ → Writer
new_stream_writer has_flusher requested_model now = record {
  status = 0;
  line_buf = [];
  raw_error_body = [];
  stream = record {
    has_flusher = has_flusher;
    requested_model = requested_model;
    created = now;
    headers_written = false;
    last_event_type = [];
    chunk_id = [];
    role_sent = false;
    done_sent = false;
    chunks_emitted = 0;
    content_chunks = 0;
    terminal_signal_seen = false;
    synthetic_done = false;
    downstream_bytes = 0;
    downstream_err = none;
    wire = [];
  };
}

abbrev pub write_header : ℕ → Writer → Writer
write_header status w = if nat_beq w.status 0 then record w { status = status } else w

abbrev pub add_head : ℕ → Option (Bytes × Bytes) → Option (Bytes × Bytes)
add_head c none = none
add_head c (some (line, rest)) = some (c ∷ line, rest)

-- The bytes before the first newline and those after it.
unfoldable pub cut_line : Bytes → Option (Bytes × Bytes)
cut_line [] = none
cut_line (c ∷ cs) = if nat_beq c b'\n' then some ([], cs) else add_head c (cut_line cs)

abbrev pub is_return : ℕ → Bool
is_return c = nat_beq c b'\r'

abbrev pub is_line_end : ℕ → Bool
is_line_end c = nat_beq c b'\r' || nat_beq c b'\n'

abbrev pub is_success : ℕ → Bool
is_success status = nat_beq status 0 || nat_beq status 200

abbrev pub completed : Writer → Bool
completed w =
    is_success w.status && is_ok w.stream && w.stream.terminal_signal_seen && w.stream.done_sent

-- What handles a line, and that it sends as the writers do.
pub record LineHandler : Type 0 where
  pub handle : Bytes → Stream → Stream × Bool
  pub handle_sends :
      (line : Bytes) (s : Stream) → is_ok s ≡ true → Delivery s → Sends (handle line s)

abbrev pub end_stream : Outside → Stream × Bool → Stream
end_stream out (s, false) = s
end_stream out (s, true) = (emit_done out (not s.terminal_signal_seen) s).0

module _ (h : LineHandler) where
  -- The loop of `Write`. The fuel is one more than the bytes, and each line takes one at least.
  unfoldable pub drain : ℕ → Bytes → Stream → Bytes × Stream
  unfolding cut_line trim_right
  drain zero buf s = (buf, s)
  drain (suc fuel) buf s = elim (cut_line buf) [
    | none ↦ (buf, s)
    | some (line, rest) ↦
        let (s', more) = h.handle (trim_right is_return line) s in
        let next : Bytes × Stream = drain fuel rest s' in if more then next else (rest, s')
  ]

  unfoldable pub write_body : Bytes → Writer → Writer
  unfolding drain
  write_body bytes w =
      let status : ℕ = if nat_beq w.status 0 then 200 else w.status in
      if not (is_ok w.stream)
      then record w { status = status }
      else if not (nat_beq status 200)
      then record w { status = status; raw_error_body = w.raw_error_body ++ bytes }
      else let buf : Bytes = w.line_buf ++ bytes in
        let read : Bytes × Stream = drain (suc (length buf)) buf w.stream in
        record w { status = status; line_buf = read.0; stream = read.1 }

  unfoldable pub write_all : List Bytes → Writer → Writer
  unfolding write_body
  write_all [] w = w
  write_all (bytes ∷ more) w = write_all more (write_body bytes w)

  -- The line that no newline ended, and whether to go on.
  unfoldable pub handle_last : Bytes → Stream → Stream × Bool
  handle_last [] s = (s, true)
  handle_last (c ∷ cs) s = h.handle (c ∷ cs) s

  unfoldable pub finalize : Outside → Writer → Writer
  unfolding handle_last extract_error_body trim_right
  finalize out w =
      if not (is_ok w.stream)
      then w
      else if not (is_success w.status)
      then record w {
        stream = put (failed w.status (extract_error_body w.raw_error_body)) w.stream;
      }
      else record w {
        line_buf = [];
        stream = end_stream out (handle_last (trim_right is_line_end w.line_buf) w.stream);
      }
