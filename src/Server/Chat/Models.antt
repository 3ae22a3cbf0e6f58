-- ===== src/Server/Chat/Models.antt =====
-- internal/server/compat_openai_chat.go: resolveCompatModel and compatCanonicalClaudeModel. `lower` is
-- strings.ToLower.
use llm_broker.Prelude.{
  ℕ, String, Bool, ◌&&◌, ◌||◌, List, [], ◌∷◌, ◌++◌, Option, none, some, nat_beq, is_some,
  if◌then◌else◌,
}
use llm_broker.Domain.Surfaces.{runes, same_codes, trim_space}
use llm_broker.Server.Stream.Trims.{after_prefix}

pub data Provider : Type 0 where
  claude gemini : Provider

-- The error, or the provider with the base model and the model that is answered.
pub data Resolved : Type 0 where
  refused : String → Resolved
  resolved : Provider → List ℕ → List ℕ → Resolved

abbrev earlier_aliases : List (String × String)
earlier_aliases =
    ("claude-haiku-4.5", "claude-haiku-4-5")
    ∷ (("claude-opus-4.0", "claude-opus-4")
        ∷ (("claude-opus-4-0", "claude-opus-4")
            ∷ (("claude-opus-4.1", "claude-opus-4-1")
                ∷ (("claude-opus-4-1-20250805", "claude-opus-4-1")
                    ∷ (("claude-opus-4.5", "claude-opus-4-5")
                        ∷ (("claude-opus-4-5-20251101", "claude-opus-4-5") ∷ []))))))

abbrev middle_aliases : List (String × String)
middle_aliases =
    ("claude-opus-4.6", "claude-opus-4-6")
    ∷ (("claude-opus-4-20250514", "claude-opus-4")
        ∷ (("claude-opus-5.5", "claude-opus-5-5")
            ∷ (("claude-sonnet-4.0", "claude-sonnet-4")
                ∷ (("claude-sonnet-4-0", "claude-sonnet-4")
                    ∷ (("claude-sonnet-4.5", "claude-sonnet-4-5")
                        ∷ (("claude-sonnet-4-5-20250929", "claude-sonnet-4-5") ∷ []))))))

abbrev later_aliases : List (String × String)
later_aliases =
    ("claude-sonnet-4.6", "claude-sonnet-4-6")
    ∷ (("claude-sonnet-4-20250514", "claude-sonnet-4-6")
        ∷ (("claude-sonnet-5.0", "claude-sonnet-5")
            ∷ (("claude-sonnet-5-0", "claude-sonnet-5")
                ∷ (("claude-sonnet-5.5", "claude-sonnet-5-5") ∷ []))))

abbrev pub aliases : List (String × String)
aliases = earlier_aliases ++ (middle_aliases ++ later_aliases)

unfoldable pub alias_of : List ℕ → List (String × String) → List ℕ
alias_of model [] = model
alias_of model ((name, canonical) ∷ others) =
    if same_codes model (runes name) then runes canonical else alias_of model others

abbrev add_front : ℕ → List ℕ × List ℕ → List ℕ × List ℕ
add_front c (front, back) = (c ∷ front, back)

-- strings.Cut at "/"; `none` where there is none.
cut_slash : List ℕ → Option (List ℕ × List ℕ)
cut_slash [] = none
cut_slash (c ∷ cs) =
    if nat_beq c b'/'
    then some ([], cs)
    else elim (cut_slash cs) [ none ↦ none | some parts ↦ some (add_front c parts) ]

abbrev has_prefix : String → List ℕ → Bool
has_prefix prefix model = is_some (after_prefix (runes prefix) model)

module _ (lower : List ℕ → List ℕ) where
  unfoldable pub canonical_claude_model : List ℕ → List ℕ
  unfolding alias_of trim_space
  canonical_claude_model model = alias_of (lower (trim_space model)) aliases

  resolve_claude : List ℕ → Resolved
  resolve_claude base =
      if has_prefix "claude-" base
      then resolved claude base (runes "claude/" ++ base)
      else refused "model must be a claude model, e.g. claude/claude-sonnet-4-5"

  resolve_gemini : List ℕ → Resolved
  resolve_gemini base =
      if has_prefix "gemini-" base
      then resolved gemini base (runes "gemini/" ++ base)
      else refused "model must be a gemini model, e.g. gemini/gemini-2.5-flash"

  abbrev is_one : List ℕ → String → Bool
  is_one prefix name = same_codes prefix (runes name)

  resolve_parts : List ℕ → List ℕ → Resolved
  unfolding resolve_claude resolve_gemini canonical_claude_model
  resolve_parts prefix base =
      if is_one prefix "claude"
        || is_one prefix "anthropic"
        || (is_one prefix "" && has_prefix "claude-" base)
      then resolve_claude (canonical_claude_model base)
      else if is_one prefix "gemini"
          || is_one prefix "google"
          || (is_one prefix "" && has_prefix "gemini-" base)
      then resolve_gemini base
      else refused
          "model must be a claude or gemini model, e.g. claude/claude-sonnet-4-5 or gemini/gemini-2.5-flash"

  unfoldable pub resolve_trimmed : List ℕ → Resolved
  unfolding resolve_parts cut_slash
  resolve_trimmed [] = refused "model is required"
  resolve_trimmed (c ∷ cs) = elim (cut_slash (c ∷ cs)) [
    | none ↦ resolve_parts [] (c ∷ cs)
    | some (front, back) ↦ resolve_parts (lower (trim_space front)) (trim_space back)
  ]

  unfoldable pub resolve_compat_model : List ℕ → Resolved
  unfolding resolve_trimmed
  resolve_compat_model model = resolve_trimmed (trim_space model)
