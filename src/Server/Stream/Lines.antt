-- ===== src/Server/Stream/Lines.antt =====
-- The lines of a body, read at once, and that the loop of `Write` handles those of its buffer.
use llm_broker.Prelude.{
  ℕ, zero, suc, ◌<◌, Bool, true, false, List, [], ◌∷◌, ◌++◌, none, some, ◌≡◌, refl, sym, ◌∙◌, ◌⊎◌,
  inl, inr, arith, nat_beq, length, Bool-cases, Option-cases, if◌then◌else◌,
}
use llm_broker.Server.Stream.Delivery.{Delivery}
use llm_broker.Server.Stream.Sends.{Sends}
use llm_broker.Server.Stream.Trims.{trim_right}
use llm_broker.Server.Stream.Writes.{cut_line, is_return, LineHandler, drain}
use llm_broker.Server.Stream.{Bytes, Stream, is_ok}

unfoldable pub push_head : ℕ → List Bytes → List Bytes
push_head c [] = []
push_head c (line ∷ lines) = (c ∷ line) ∷ lines

-- The lines that a newline ends.
unfoldable pub whole_lines : Bytes → List Bytes
unfolding push_head
whole_lines [] = []
whole_lines (c ∷ cs) = if nat_beq c b'\n' then [] ∷ whole_lines cs else push_head c (whole_lines cs)

abbrev push_open : ℕ → Bytes → List Bytes → Bytes
push_open c open_part [] = c ∷ open_part
push_open c open_part (line ∷ lines) = open_part

-- The bytes after the last newline.
unfoldable pub open_line : Bytes → Bytes
open_line [] = []
open_line (c ∷ cs) =
    if nat_beq c b'\n' then open_line cs else push_open c (open_line cs) (whole_lines cs)

List-cases : (ls : List Bytes) → (ls ≡ []) ⊎ ((l : Bytes) × (m : List Bytes) × (ls ≡ l ∷ m))
List-cases [] = inl refl
List-cases (l ∷ m) = inr (l, m, refl)

pub whole_lines-append :
    (xs ys : Bytes) → whole_lines (xs ++ ys) ≡ whole_lines xs ++ whole_lines (open_line xs ++ ys)
unfolding whole_lines open_line
whole_lines-append [] ys = refl
whole_lines-append (c ∷ cs) ys = elim (List-cases (whole_lines cs)) [
  | inl e ↦ ground (arith, whole_lines-append cs ys)
  | inr (l, ls, e) ↦ ground (arith, whole_lines-append cs ys)
]

pub open_line-append : (xs ys : Bytes) → open_line (xs ++ ys) ≡ open_line (open_line xs ++ ys)
unfolding whole_lines open_line
open_line-append [] ys = refl
open_line-append (c ∷ cs) ys = elim (List-cases (whole_lines cs)) [
  | inl e ↦ ground (arith, open_line-append cs ys, whole_lines-append cs ys)
  | inr (l, ls, e) ↦ ground (arith, open_line-append cs ys, whole_lines-append cs ys)
]

cut_line-none : (buf : Bytes) → cut_line buf ≡ none → (whole_lines buf ≡ []) × (open_line buf ≡ buf)
unfolding whole_lines open_line cut_line
cut_line-none [] h = (refl, refl)
cut_line-none (c ∷ cs) h = ground (arith, cut_line-none cs)

cut_line-some :
    (buf line rest : Bytes)
    → cut_line buf ≡ some (line, rest)
    → (whole_lines buf ≡ line ∷ whole_lines rest)
      × (open_line buf ≡ open_line rest)
      × (length rest < length buf)
unfolding whole_lines open_line cut_line
cut_line-some [] line rest h = ground arith
cut_line-some (c ∷ cs) line rest h = elim (Option-cases (cut_line cs)) [
  | inl e ↦ ground arith
  | inr ((line', rest'), e) ↦ ground (arith, cut_line-some cs line' rest' e)
]

module _ (h : LineHandler) where
  -- The lines one after another, up to the first that fails.
  unfoldable pub feed : List Bytes → Stream → Stream × Bool
  feed [] s = (s, true)
  feed (line ∷ lines) s =
      let (s', more) = h.handle (trim_right is_return line) s in
      let next : Stream × Bool = feed lines s' in if more then next else (s', false)

  pub feed-append :
      (ls ms : List Bytes) (s : Stream)
      → feed (ls ++ ms) s ≡ (if (feed ls s).1 then feed ms (feed ls s).0 else feed ls s)
  unfolding feed
  feed-append [] ms s = refl
  feed-append (l ∷ ls) ms s =
      ground (arith, feed-append ls ms (h.handle (trim_right is_return l) s).0)

  pub feed-Sends : (ls : List Bytes) (s : Stream) → is_ok s ≡ true → Delivery s → Sends (feed ls s)
  unfolding feed Sends
  feed-Sends [] s ok d = (sym ok, d)
  feed-Sends (l ∷ ls) s ok d =
      let sent : Sends (h.handle (trim_right is_return l) s) =
        h.handle_sends (trim_right is_return l) s ok d in
      elim (Bool-cases (h.handle (trim_right is_return l) s).1) [
        | inl t ↦
            rw t (feed-Sends ls (h.handle (trim_right is_return l) s).0 (sym sent.0 ∙ t) sent.1)
        | inr t ↦ rw t (rw t at sent)
      ]

  -- With fuel above the bytes of its buffer the loop of Write ends: it has handled the whole lines of
  -- the buffer in their order, up to the first whose handler fails, and if none fails, what stays in
  -- the buffer is what follows its last newline.
  pub drain-feed :
      (fuel : ℕ) (buf : Bytes) (s : Stream)
      → length buf < fuel
      → ((drain h fuel buf s).1 ≡ (feed (whole_lines buf) s).0)
        × (((feed (whole_lines buf) s).1 ≡ false) ⊎ ((drain h fuel buf s).0 ≡ open_line buf))
  unfolding drain feed
  drain-feed zero buf s lt = elim lt [ ]
  drain-feed (suc fuel) buf s lt = elim (Option-cases (cut_line buf)) [
    | inl e ↦ let (a, b) = cut_line-none buf e in rw (e, drain, a) (refl, inr (sym b))
    | inr ((line, rest), e) ↦
        let (a, b, short) = cut_line-some buf line rest e in
        ground (arith, drain-feed fuel rest (h.handle (trim_right is_return line) s).0)
  ]
