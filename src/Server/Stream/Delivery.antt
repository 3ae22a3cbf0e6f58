-- ===== src/Server/Stream/Delivery.antt =====
-- What the writers keep of a stream, and that each way to send keeps it: the answer of a send, and
-- the marks of the end on the wire.
use llm_broker.Prelude.{
  ℕ, zero, suc, ◌+◌, ◌≤◌, Bool, true, false, not, List, [], ◌∷◌, ◌++◌, ◌≡◌, refl, sym, ◌∙◌, ◌⊎◌,
  arith, length, nat_beq, count_if, count_if-append, ltb, if◌then◌else◌,
}
use llm_broker.Prelude.Arrays.{take}
use llm_broker.Domain.Surfaces.{same_codes}
use llm_broker.Server.Stream.{
  Bytes, Piece, head, wrote, flushed, failed, Reply, whole, cut, Stream, is_ok, put, flush,
  ensure_success_headers, on_reply, done_line, mark_done,
}

-- The answer says whether the stream is without an error.
abbrev pub Told : Stream × Bool → Type 0
Told r = r.1 ≡ is_ok r.0

abbrev pub is_done : Piece → Bool
is_done (wrote bytes) = same_codes bytes done_line
is_done (head status) = false
is_done flushed = false
is_done (failed status body) = false

-- An error response, or headers with an error's status.
abbrev pub is_failed : Piece → Bool
is_failed (failed status body) = true
is_failed (head status) = not (nat_beq status 200)
is_failed (wrote bytes) = false
is_failed flushed = false

abbrev pub dones : Stream → ℕ
dones s = count_if is_done s.wire

-- While lines are handled: what the wire has of the end mark, and that the mark follows the terminal
-- signal of the provider.
pub record Delivery (s : Stream) : Type 0 where
  pub exact : (is_ok s ≡ false) ⊎ (dones s ≡ (if s.done_sent then 1 else 0))
  pub once : dones s ≤ 1
  pub no_failure : count_if is_failed s.wire ≡ 0
  pub unsynthetic : s.synthetic_done ≡ false
  pub after_terminal : (s.done_sent ≡ false) ⊎ (s.terminal_signal_seen ≡ true)

-- No part of these bytes is the mark of the end.
abbrev pub IsQuiet : Bytes → Type 0
IsQuiet bytes =
    (same_codes bytes done_line ≡ false) × ((n : ℕ) → same_codes (take n bytes) done_line ≡ false)

-- What the observed writer takes for the status of the response.
unfoldable pub client_status : List Piece → ℕ
client_status [] = 200
client_status (head status ∷ pieces) = status
client_status (failed status body ∷ pieces) = status
client_status (wrote bytes ∷ pieces) = 200
client_status (flushed ∷ pieces) = client_status pieces

pub client_status-eq : (wire : List Piece) → count_if is_failed wire ≡ 0 → client_status wire ≡ 200
unfolding count_if client_status
client_status-eq [] h = refl
client_status-eq (head status ∷ pieces) h = ground arith
client_status-eq (failed status body ∷ pieces) h = ground arith
client_status-eq (wrote bytes ∷ pieces) h = refl
client_status-eq (flushed ∷ pieces) h = client_status-eq pieces h

same_codes-length : (xs ys : Bytes) → same_codes xs ys ≡ true → length xs ≡ length ys
unfolding same_codes
same_codes-length [] [] h = refl
same_codes-length [] (y ∷ ys) h = ground arith
same_codes-length (x ∷ xs) [] h = ground arith
same_codes-length (x ∷ xs) (y ∷ ys) h = ground (arith, same_codes-length xs ys)

length-take : (n : ℕ) (xs : Bytes) → length (take n xs) ≤ length xs
length-take zero xs = omega arith
length-take (suc n) [] = omega arith
length-take (suc n) (x ∷ xs) = omega (arith, length-take n xs)

pub short-IsQuiet : (bytes : Bytes) → ltb (length bytes) 14 ≡ true → IsQuiet bytes
short-IsQuiet bytes h = (
  ground (arith, same_codes-length bytes done_line),
  λ n. ground (arith, length-take n bytes, same_codes-length (take n bytes) done_line),
)

pub brace-IsQuiet : (rest : Bytes) → IsQuiet (b'{' ∷ rest)
unfolding same_codes
brace-IsQuiet rest = (refl, cases)
  where
    cases : (n : ℕ) → same_codes (take n (b'{' ∷ rest)) done_line ≡ false
    cases zero = refl
    cases (suc n) = refl

put-count :
    (p : Piece → Bool) (piece : Piece) (wire : List Piece)
    → p piece ≡ false
    → count_if p (wire ++ (piece ∷ [])) ≡ count_if p wire
unfolding count_if
put-count p piece wire h = count_if-append p wire (piece ∷ []) ∙ rw h (omega arith)

put-Delivery :
    (piece : Piece) (s : Stream)
    → is_done piece ≡ false
    → is_failed piece ≡ false
    → Delivery s
    → Delivery (put piece s)
put-Delivery piece s h k d =
    ground (arith, put-count is_done piece s.wire h, put-count is_failed piece s.wire k)

if-Delivery : (b : Bool) {s t : Stream} → Delivery s → Delivery t → Delivery (if b then s else t)
if-Delivery true d e = d
if-Delivery false d e = e

pub flush-Delivery : (s : Stream) → Delivery s → Delivery (flush s)
flush-Delivery s d = if-Delivery s.has_flusher (put-Delivery flushed s refl refl d) d

pub ensure-Delivery : (s : Stream) → Delivery s → Delivery (ensure_success_headers s)
ensure-Delivery s d =
    if-Delivery s.headers_written d (ground (arith, put-Delivery (head 200) s refl refl d))

pub ensure_ok : (s : Stream) → is_ok s ≡ true → is_ok (ensure_success_headers s) ≡ true
ensure_ok s h = ground arith

flush_ok : (s : Stream) → is_ok (flush s) ≡ is_ok s
flush_ok s = ground arith

pub on_reply-Told :
    (bytes : Bytes) (s : Stream) (r : Reply) → is_ok s ≡ true → Told (on_reply bytes s r)
on_reply-Told bytes s whole h = sym h
on_reply-Told bytes s (cut n e) h = ground arith

pub on_reply-Delivery :
    (bytes : Bytes) (s : Stream) (r : Reply)
    → IsQuiet bytes
    → Delivery s
    → Delivery (on_reply bytes s r).0
on_reply-Delivery bytes s whole q d = ground (arith, put-Delivery (wrote bytes) s q.0 refl d)
on_reply-Delivery bytes s (cut n e) q d =
    ground (arith, put-Delivery (wrote (take n bytes)) s (q.1 n) refl d)

-- What the wire has of the end mark, once the stream has ended.
pub record Marks (s : Stream) : Type 0 where
  pub exact : (is_ok s ≡ false) ⊎ (dones s ≡ (if s.done_sent then 1 else 0))
  pub once : dones s ≤ 1
  pub no_failure : count_if is_failed s.wire ≡ 0

flush-count :
    (p : Piece → Bool) (s : Stream)
    → p flushed ≡ false
    → count_if p (flush s).wire ≡ count_if p s.wire
flush-count p s h = ground (arith, put-count p flushed s.wire h)

one_more :
    (p : Piece → Bool) (piece : Piece) (wire : List Piece)
    → count_if p (wire ++ (piece ∷ [])) ≤ count_if p wire + 1
unfolding count_if
one_more p piece wire = ground (arith, count_if-append p wire (piece ∷ []))

one_done :
    (wire : List Piece)
    → count_if is_done (wire ++ (wrote done_line ∷ [])) ≡ count_if is_done wire + 1
unfolding count_if same_codes
one_done wire = count_if-append is_done wire (wrote done_line ∷ [])

-- The write of the mark itself, on a stream that has none.
pub done-Marks :
    (s : Stream) (r : Reply)
    → dones s ≡ 0
    → count_if is_failed s.wire ≡ 0
    → Marks (mark_done (on_reply done_line s r)).0
done-Marks s whole z f =
    let s' : Stream = (on_reply done_line s whole).0 in
    ground (
      arith,
      one_done s.wire,
      put-count is_failed (wrote done_line) s.wire refl,
      flush-count is_done s' refl,
      flush-count is_failed s' refl,
    )
done-Marks s (cut n e) z f = ground (
  arith,
  one_more is_done (wrote (take n done_line)) s.wire,
  put-count is_failed (wrote (take n done_line)) s.wire refl,
)
