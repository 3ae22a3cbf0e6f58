-- ===== src/Server/Stream.antt =====
-- internal/server/compat_openai_stream.go: how the stream of a provider is sent on as the stream of an
-- OpenAI chat completion. What the two writers share stands here; `Stream` has their fields that a
-- line may change, and Writer in Stream/Writes the buffers. The wire is a list of
-- what was sent, bytes are numbers, and a text that JSON gives or takes its code points.
pub mod Trims
pub mod Delivery
pub mod Sends
pub mod Writes
pub mod Claude
pub mod Gemini
pub mod Delivered
pub mod Chunking
pub mod Lines
use llm_broker.Prelude.{
  ℕ, ◌+◌, String, Bool, true, false, not, List, [], ◌∷◌, ◌++◌, Option, none, some, ◌≡◌, length,
  is_some, if◌then◌else◌,
}
use llm_broker.Prelude.Arrays.{take}
use llm_broker.Domain.Surfaces.{runes, trim_space}

abbrev pub Bytes : Type 0
Bytes = List ℕ

pub record Delta : Type 0 where
  pub role : List ℕ
  pub content : List ℕ

-- compatOpenAIChatStreamChunk, with its one choice.
pub record Chunk : Type 0 where
  pub chunk_id : List ℕ
  pub created : ℕ
  pub model : List ℕ
  pub delta : Delta
  pub finish_reason : Option (List ℕ)

-- What is done to the client's response: the headers of a stream with their status, bytes that were
-- written, a flush, or an error response with the status and the body that it is made from.
pub data Piece : Type 0 where
  head : ℕ → Piece
  wrote : Bytes → Piece
  flushed : Piece
  failed : ℕ → Bytes → Piece

-- The answer of the client's `Write`: all bytes, or only so many and an error.
pub data Reply : Type 0 where
  whole : Reply
  cut : ℕ → String → Reply

-- json.Marshal of a chunk, and the client's `Write` after what it was sent. A struct is printed as
-- an object.
pub record Outside : Type 0 where
  pub marshal : Chunk → Option Bytes
  pub client : List Piece → Bytes → Reply
  pub marshal_opens :
      (c : Chunk) (body : Bytes) → marshal c ≡ some body → (rest : Bytes) × (body ≡ b'{' ∷ rest)

pub record Stream : Type 0 where
  pub has_flusher : Bool
  pub requested_model : List ℕ
  pub created : ℕ
  pub headers_written : Bool
  pub last_event_type : Bytes
  pub chunk_id : List ℕ
  pub role_sent : Bool
  pub done_sent : Bool
  pub chunks_emitted : ℕ
  pub content_chunks : ℕ
  pub terminal_signal_seen : Bool
  pub synthetic_done : Bool
  pub downstream_bytes : ℕ
  pub downstream_err : Option String
  pub wire : List Piece

-- `downstreamErr == nil`
abbrev pub is_ok : Stream → Bool
is_ok s = not (is_some s.downstream_err)

abbrev pub put : Piece → Stream → Stream
put piece s = record s { wire = s.wire ++ (piece ∷ []) }

abbrev pub flush : Stream → Stream
flush s = if s.has_flusher then put flushed s else s

abbrev pub ensure_success_headers : Stream → Stream
ensure_success_headers s =
    if s.headers_written then s else record (put (head 200) s) { headers_written = true }

abbrev pub or_first : Option String → String → Option String
or_first none e = some e
or_first (some first) e = some first

abbrev pub on_reply : Bytes → Stream → Reply → Stream × Bool
on_reply bytes s whole =
    (record (put (wrote bytes) s) { downstream_bytes = s.downstream_bytes + length bytes }, true)
on_reply bytes s (cut n e) = (
  record (put (wrote (take n bytes)) s) {
    downstream_bytes = s.downstream_bytes + n;
    downstream_err = or_first s.downstream_err e;
  },
  false,
)

abbrev pub is_blank : List ℕ → Bool
is_blank text = elim (trim_space text) [ [] ↦ true | c ∷ cs ↦ false ]

abbrev pub stream_chunk_id : Stream → List ℕ
stream_chunk_id s = if is_blank s.chunk_id then runes "chatcmpl-compat" else s.chunk_id

abbrev pub chunk_of : Delta → Option (List ℕ) → Stream → Chunk
chunk_of delta finish_reason s = record {
  chunk_id = stream_chunk_id s;
  created = s.created;
  model = s.requested_model;
  delta = delta;
  finish_reason = finish_reason;
}

abbrev pub has_content : Delta → Bool
has_content delta = elim delta.content [ [] ↦ false | c ∷ cs ↦ true ]

abbrev pub counted : Delta → Stream → Stream
counted delta s = record s {
  content_chunks = if has_content delta then s.content_chunks + 1 else s.content_chunks;
  chunks_emitted = s.chunks_emitted + 1;
}

-- The flush and the answer after the last write.
abbrev pub flush_sent : Stream × Bool → Stream × Bool
flush_sent (s, false) = (s, false)
flush_sent (s, true) = (flush s, is_ok (flush s))

abbrev pub done_line : Bytes
done_line = runes "data: [DONE]\n\n"

abbrev pub mark_done : Stream × Bool → Stream × Bool
mark_done (s, false) = (s, false)
mark_done (s, true) = (record (flush s) { done_sent = true }, is_ok (flush s))

module _ (out : Outside) where
  unfoldable pub write_downstream : Bytes → Stream → Stream × Bool
  write_downstream bytes s = on_reply bytes s (out.client s.wire bytes)

  unfoldable pub then_write : Bytes → Stream × Bool → Stream × Bool
  unfolding write_downstream
  then_write bytes (s, false) = (s, false)
  then_write bytes (s, true) = write_downstream bytes s

  unfoldable pub send_body : Delta → Stream → Option Bytes → Stream × Bool
  unfolding then_write
  send_body delta s none = (s, true)
  send_body delta s (some body) = flush_sent (
      then_write (runes "\n\n")
        (then_write body (then_write (runes "data: ") (counted delta s, true))))

  unfoldable pub emit_chunk : Delta → Option (List ℕ) → Stream → Stream × Bool
  unfolding send_body
  emit_chunk delta finish_reason s =
      let s' : Stream = ensure_success_headers s in
      send_body delta s' (out.marshal (chunk_of delta finish_reason s'))

  unfoldable pub emit_done : Bool → Stream → Stream × Bool
  unfolding write_downstream
  emit_done synthetic s =
      if s.done_sent
      then (s, is_ok s)
      else mark_done (
          write_downstream done_line
            (record (ensure_success_headers s) { synthetic_done = synthetic }))

  -- A comment that is not empty; the source calls it with "ping" only.
  unfoldable pub emit_comment : Bytes → Stream → Stream × Bool
  unfolding then_write
  emit_comment comment s = flush_sent (
      then_write (runes "\n\n")
        (then_write comment (then_write (runes ": ") (ensure_success_headers s, true))))
