-- ===== src/Server/Stream/Trims.antt =====
-- What compat_openai_stream.go and compat_openai_utils.go cut off bytes: strings.TrimSpace,
-- strings.TrimRight, strings.HasPrefix with TrimPrefix, and compatExtractErrorBody.
use mathlib.Core.List.{reverse}
use llm_broker.Prelude.{
  ℕ, zero, suc, Bool, false, ◌&&◌, ◌||◌, List, [], ◌∷◌, Option, none, some, nat_beq, leb, length,
  if◌then◌else◌,
}
use llm_broker.Prelude.Arrays.{drop}
use llm_broker.Domain.Surfaces.{runes}
use llm_broker.Server.Stream.{Bytes}

unfoldable pub drop_ends : (ℕ → Bool) → Bytes → Bytes
drop_ends p [] = []
drop_ends p (c ∷ cs) = if p c then drop_ends p cs else c ∷ cs

-- strings.TrimRight
unfoldable pub trim_right : (ℕ → Bool) → Bytes → Bytes
unfolding drop_ends
trim_right p cs = reverse (drop_ends p (reverse cs))

-- The bytes of the white space of unicode.IsSpace in UTF-8, by their number.
is_space_1 : ℕ → Bool
is_space_1 a = (leb 9 a && leb a 13) || nat_beq a 32

is_space_2 : ℕ → ℕ → Bool
is_space_2 a b = nat_beq a 0xc2 && (nat_beq b 0x85 || nat_beq b 0xa0)

is_space_3 : ℕ → ℕ → ℕ → Bool
is_space_3 a b c =
    (nat_beq a 0xe1 && nat_beq b 0x9a && nat_beq c 0x80)
    || (nat_beq a 0xe2
        && nat_beq b 0x80
        && ((leb 0x80 c && leb c 0x8a) || nat_beq c 0xa8 || nat_beq c 0xa9 || nat_beq c 0xaf))
    || (nat_beq a 0xe2 && nat_beq b 0x81 && nat_beq c 0x9f)
    || (nat_beq a 0xe3 && nat_beq b 0x80 && nat_beq c 0x80)

-- How many bytes at the head are one character of white space.
space_at_head : Bytes → ℕ
unfolding is_space_1 is_space_2 is_space_3
space_at_head [] = 0
space_at_head (a ∷ []) = if is_space_1 a then 1 else 0
space_at_head (a ∷ (b ∷ [])) = if is_space_1 a then 1 else if is_space_2 a b then 2 else 0
space_at_head (a ∷ (b ∷ (c ∷ cs))) =
    if is_space_1 a then 1 else if is_space_2 a b then 2 else if is_space_3 a b c then 3 else 0

-- The same from the end, on reversed bytes.
space_at_end : Bytes → ℕ
unfolding is_space_1 is_space_2 is_space_3
space_at_end [] = 0
space_at_end (a ∷ []) = if is_space_1 a then 1 else 0
space_at_end (a ∷ (b ∷ [])) = if is_space_1 a then 1 else if is_space_2 b a then 2 else 0
space_at_end (a ∷ (b ∷ (c ∷ cs))) =
    if is_space_1 a then 1 else if is_space_2 b a then 2 else if is_space_3 c b a then 3 else 0

-- The fuel is the number of bytes.
drop_space : (Bytes → ℕ) → ℕ → Bytes → Bytes
drop_space at zero bytes = bytes
drop_space at (suc fuel) bytes =
    let n : ℕ = at bytes in
    let rest : Bytes = drop_space at fuel (drop n bytes) in if nat_beq n 0 then bytes else rest

-- strings.TrimSpace
unfoldable pub trim_bytes : Bytes → Bytes
unfolding drop_space space_at_head space_at_end
trim_bytes bytes =
    let rest : Bytes = reverse (drop_space space_at_head (length bytes) bytes) in
    reverse (drop_space space_at_end (length rest) rest)

-- What follows the prefix, if the bytes begin with it.
unfoldable pub after_prefix : Bytes → Bytes → Option Bytes
after_prefix [] bytes = some bytes
after_prefix (p ∷ ps) [] = none
after_prefix (p ∷ ps) (c ∷ cs) = if nat_beq p c then after_prefix ps cs else none

opens_json : Bytes → Bool
opens_json [] = false
opens_json (c ∷ cs) = nat_beq c b'{' || nat_beq c b'['

unfoldable pub push_byte : ℕ → List Bytes → List Bytes
push_byte c [] = (c ∷ []) ∷ []
push_byte c (line ∷ lines) = (c ∷ line) ∷ lines

-- strings.Split at newlines
split_lines : Bytes → List Bytes
unfolding push_byte
split_lines [] = [] ∷ []
split_lines (c ∷ cs) = if nat_beq c b'\n' then [] ∷ split_lines cs else push_byte c (split_lines cs)

payload_of : Option Bytes → Option Bytes
payload_of none = none
payload_of (some rest) = if opens_json (trim_bytes rest) then some (trim_bytes rest) else none

first_payload : Bytes → List Bytes → Bytes
unfolding payload_of after_prefix
first_payload whole [] = whole
first_payload whole (line ∷ lines) = elim (payload_of (after_prefix (runes "data: ") line)) [
  | none ↦ first_payload whole lines
  | some payload ↦ payload
]

unfoldable pub extract_error_body : Bytes → Bytes
unfolding trim_bytes opens_json split_lines first_payload
extract_error_body raw =
    let body : Bytes = trim_bytes raw in
    if opens_json body then body else first_payload body (split_lines body)
