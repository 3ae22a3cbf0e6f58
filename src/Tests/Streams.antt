-- ===== src/Tests/Streams.antt =====
-- The stream writers: a run of Claude's writer, and the theorems for it.
use llm_broker.Prelude.{true, false, List, [], ◌∷◌, ◌++◌, some, ◌≡◌, refl, arith, ◌⊎◌}
use llm_broker.Domain.Surfaces.{runes, same_codes}
use llm_broker.Server.Stream.{
  Bytes, Chunk, Piece, head, wrote, failed, whole, Outside, emit_chunk, emit_done,
}
use llm_broker.Server.Stream.Chunking.{concat, deliver, finalize-write_all}
use llm_broker.Server.Stream.Claude.{ClaudeEvents, handle_claude_stream_line, claude_lines}
use llm_broker.Server.Stream.Delivered.{IsDelivered, finalize-IsDelivered, finalize-failed}
use llm_broker.Server.Stream.Lines.{feed, whole_lines, open_line, drain-feed}
use llm_broker.Server.Stream.Trims.{extract_error_body}
use llm_broker.Server.Stream.Writes.{
  Writer, LineHandler, write_all, drain, finalize, completed, new_stream_writer, write_header,
}

unfoldable pub print_chunk : Chunk → Bytes
print_chunk c = b'{' ∷ (c.delta.role ++ c.delta.content)

pub print_chunk-opens :
    (c : Chunk) (body : Bytes)
    → some (print_chunk c) ≡ some body
    → (rest : Bytes) × (body ≡ b'{' ∷ rest)
unfolding print_chunk
print_chunk-opens c body e = (c.delta.role ++ c.delta.content, ground arith)

-- A client that takes all bytes.
abbrev pub outside : Outside
outside = record {
  marshal = λ c. some (print_chunk c);
  client = λ sent bytes. whole;
  marshal_opens = print_chunk-opens;
}

abbrev pub plain_events : ClaudeEvents
plain_events = record {
  message_id = λ payload. some payload;
  delta_of = λ payload. some (runes "text_delta", payload);
  stop_reason_of = λ payload. some payload;
}

abbrev lines : LineHandler
lines = claude_lines outside plain_events

-- A body, cut within a line.
abbrev pub parts : List Bytes
parts =
    runes "event: content_block_delta\r\ndata: H"
    ∷ (runes "i\n\nevent: message_stop\n" ∷ (runes "data: {}" ∷ []))

abbrev fresh_writer : Writer
fresh_writer = write_header 200 (new_stream_writer false (runes "claude/m") 7)

abbrev pub event_pieces : List Piece
event_pieces =
    head 200
    ∷ (wrote (runes "data: ")
        ∷ (wrote (runes "{Hi") ∷ (wrote (runes "\n\n") ∷ (wrote (runes "data: [DONE]\n\n") ∷ []))))

claude_run :
    (finalize lines outside (write_all lines parts fresh_writer)).stream.wire ≡ event_pieces
unfolding finalize write_all handle_claude_stream_line emit_chunk emit_done print_chunk same_codes
claude_run = refl

claude_completed : completed (finalize lines outside (write_all lines parts fresh_writer)) ≡ true
unfolding finalize write_all handle_claude_stream_line emit_chunk emit_done print_chunk same_codes
claude_completed = refl

finalize-write_all_example :
    (finalize lines outside (write_all lines parts fresh_writer)).stream
    ≡ deliver lines outside (concat parts) fresh_writer.stream
finalize-write_all_example =
    finalize-write_all lines outside parts 200 false (runes "claude/m") 7 refl

finalize-IsDelivered_example :
    IsDelivered (finalize lines outside (write_all lines parts fresh_writer))
finalize-IsDelivered_example =
    finalize-IsDelivered lines outside parts 200 false (runes "claude/m") 7 refl

abbrev refused_writer : Writer
refused_writer = write_header 529 (new_stream_writer false (runes "claude/m") 7)

finalize-failed_example :
    ((write_all lines parts refused_writer).stream.wire ≡ [])
    × ((finalize lines outside (write_all lines parts refused_writer)).stream.wire
        ≡ failed 529 (extract_error_body (concat parts)) ∷ [])
finalize-failed_example = finalize-failed lines outside parts 529 false (runes "claude/m") 7 refl

abbrev buffer : Bytes
buffer = runes "event: ping\nda"

drain-feed_example :
    ((drain lines 15 buffer fresh_writer.stream).1
      ≡ (feed lines (whole_lines buffer) fresh_writer.stream).0)
    × (((feed lines (whole_lines buffer) fresh_writer.stream).1 ≡ false)
        ⊎ ((drain lines 15 buffer fresh_writer.stream).0 ≡ open_line buffer))
drain-feed_example = drain-feed lines 15 buffer fresh_writer.stream (omega arith)

extract_line : extract_error_body (runes " \nevent: error\ndata: [1] \n") ≡ runes "[1]"
unfolding extract_error_body
extract_line = refl
