-- ===== src/Server/Stream/Gemini/Events.antt =====
-- internal/server/compat_openai_gemini.go: compatParseGeminiResponse and compatGeminiFinishReason. What
-- json.Unmarshal reads is given.
use llm_broker.Prelude.{
  ℕ, Bool, true, false, ◌-◌, ◌&&◌, ◌||◌, not, List, [], ◌∷◌, ◌++◌, Option, none, some, map, nat_beq,
  leb, if◌then◌else◌,
}
use llm_broker.Domain.Surfaces.{runes, same_codes, trim_space}
use llm_broker.Server.Stream.{Bytes}

-- A candidate's content is the texts of its parts.
pub record GeminiCandidate : Type 0 where
  pub finish_reason : List ℕ
  pub content : Option (List (List ℕ))

pub record GeminiResponse : Type 0 where
  pub response_id : List ℕ
  pub model_version : List ℕ
  pub candidates : List GeminiCandidate
  pub has_usage : Bool

-- The two forms of a response; an envelope may hold none.
pub record GeminiEvents : Type 0 where
  pub response_of : Bytes → Option GeminiResponse
  pub envelope_of : Bytes → Option (Option GeminiResponse)

abbrev pub is_nil {ℓ} : {A : Type ℓ} → List A → Bool
is_nil [] = true
is_nil (x ∷ xs) = false

unfoldable pub filled_response : GeminiResponse → Option GeminiResponse
filled_response r =
    if not (is_nil r.response_id)
      || not (is_nil r.model_version)
      || not (is_nil r.candidates)
      || r.has_usage
    then some r
    else none

abbrev or_else : Option GeminiResponse → Option GeminiResponse → Option GeminiResponse
or_else none b = b
or_else (some a) b = some a

abbrev pub then_filled_response : Option GeminiResponse → Option GeminiResponse
then_filled_response none = none
then_filled_response (some r) = filled_response r

abbrev pub opened : Option (Option GeminiResponse) → Option GeminiResponse
opened none = none
opened (some r) = r

unfoldable pub parse_gemini_response : GeminiEvents → Bytes → Option GeminiResponse
unfolding filled_response
parse_gemini_response events body =
    or_else (then_filled_response (events.response_of body))
      (then_filled_response (opened (events.envelope_of body)))

-- unicode.ToUpper, as far as its result is an ASCII letter; what it maps to other letters is left.
to_upper : ℕ → ℕ
to_upper c =
    if leb b'a' c && leb c b'z'
    then c - 32
    else if nat_beq c 0x131
    then b'I'
    else if nat_beq c 0x17f
    then b'S'
    else c

is_any : List ℕ → List (List ℕ) → Bool
is_any text [] = false
is_any text (option ∷ options) = same_codes text option || is_any text options

abbrev filter_reasons : List (List ℕ)
filter_reasons =
    runes "SAFETY"
    ∷ (runes "RECITATION"
        ∷ (runes "LANGUAGE"
            ∷ (runes "BLOCKLIST"
                ∷ (runes "PROHIBITED_CONTENT" ∷ (runes "SPII" ∷ (runes "IMAGE_SAFETY" ∷ []))))))

unfoldable pub gemini_finish_reason : List ℕ → List ℕ
unfolding to_upper is_any
gemini_finish_reason reason =
    let upper : List ℕ = map to_upper (trim_space reason) in
    if same_codes upper (runes "MAX_TOKENS")
    then runes "length"
    else if same_codes upper (runes "UNEXPECTED_TOOL_CALL")
    then runes "tool_calls"
    else if is_any upper filter_reasons
    then runes "content_filter"
    else runes "stop"

unfoldable pub joined_text : List (List ℕ) → List ℕ
joined_text [] = []
joined_text (part ∷ parts) = part ++ joined_text parts
