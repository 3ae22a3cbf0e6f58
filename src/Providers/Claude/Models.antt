-- ===== src/Providers/Claude/Models.antt =====
-- internal/driver/claude_models.go: the catalogue of Claude models, without its prices, and how the
-- model of a request is normalized. `quote` is the verb %q.
pub mod Accepted
use Prim.Native.String.{String}
use llm_broker.Prelude.{
  ℕ, Bool, true, false, ◌||◌, List, [], ◌∷◌, ◌++◌, Option, none, some, map, keep, is_some,
  if◌then◌else◌,
}
use llm_broker.Domain.Surfaces.{runes, same_codes, to_lower, trim_space}
use llm_broker.Server.Stream.Trims.{after_prefix}

pub record ClaudeModelEntry : Type 0 where
  pub public_id : String
  pub upstream_id : String
  pub context_window : ℕ
  pub advertise : Bool
  pub code_system_envelope : Bool
  pub compat_modern_envelope : Bool

abbrev enveloped : String → ℕ → Bool → ClaudeModelEntry
enveloped id window modern = record {
  public_id = id;
  upstream_id = id;
  context_window = window;
  advertise = true;
  code_system_envelope = true;
  compat_modern_envelope = modern;
}

abbrev haiku : String → Bool → ClaudeModelEntry
haiku id advertise = record {
  public_id = id;
  upstream_id = "claude-haiku-4-5-20251001";
  context_window = 200000;
  advertise = advertise;
  code_system_envelope = false;
  compat_modern_envelope = false;
}

abbrev newer_opus : List ClaudeModelEntry
newer_opus =
    enveloped "claude-fable-5" 1000000 false
    ∷ (enveloped "claude-opus-5-5" 1000000 true
        ∷ (enveloped "claude-opus-5" 1000000 true
            ∷ (enveloped "claude-opus-4-8" 1000000 false
                ∷ (enveloped "claude-opus-4-7" 200000 false ∷ []))))

abbrev older_opus : List ClaudeModelEntry
older_opus =
    enveloped "claude-opus-4-6" 200000 true
    ∷ (enveloped "claude-opus-4-5" 200000 false
        ∷ (enveloped "claude-opus-4-1" 200000 false
            ∷ (enveloped "claude-opus-4" 200000 false ∷ [])))

abbrev sonnets : List ClaudeModelEntry
sonnets =
    enveloped "claude-sonnet-5-5" 1000000 true
    ∷ (enveloped "claude-sonnet-5" 1000000 true
        ∷ (enveloped "claude-sonnet-4-6" 200000 true
            ∷ (enveloped "claude-sonnet-4-5" 200000 false
                ∷ (enveloped "claude-sonnet-4" 200000 false ∷ []))))

abbrev haikus : List ClaudeModelEntry
haikus =
    haiku "claude-haiku-4-5-20251001" true
    ∷ (haiku "claude-haiku-4-5" true ∷ (haiku "claude-haiku-4-6" false ∷ []))

abbrev pub claude_model_entries : List ClaudeModelEntry
claude_model_entries = newer_opus ++ (older_opus ++ (sonnets ++ haikus))

unfoldable pub first_claude : List ℕ → List ClaudeModelEntry → Option ClaudeModelEntry
unfolding same_codes
first_claude normalized [] = none
first_claude normalized (e ∷ es) =
    if same_codes normalized (runes e.public_id) || same_codes normalized (runes e.upstream_id)
    then some e
    else first_claude normalized es

unfoldable pub claude_model_entry_for_id : List ℕ → Option ClaudeModelEntry
unfolding first_claude trim_space to_lower
claude_model_entry_for_id model =
    first_claude (map to_lower (trim_space model)) claude_model_entries

unfoldable pub claude_supported_models : List ClaudeModelEntry
unfolding keep
claude_supported_models = keep (λ e. e.advertise) claude_model_entries

unfoldable pub uses_code_system_envelope : List ℕ → Bool
unfolding claude_model_entry_for_id
uses_code_system_envelope model = elim (claude_model_entry_for_id model) [
  | none ↦ false
  | some e ↦ e.code_system_envelope
]

unfoldable pub uses_compat_modern_envelope : List ℕ → Bool
unfolding claude_model_entry_for_id
uses_compat_modern_envelope model = elim (claude_model_entry_for_id model) [
  | none ↦ false
  | some e ↦ e.compat_modern_envelope
]

-- The upstream's id, or the message of an error of status 400.
pub data Normalized : Type 0 where
  accepted : String → Normalized
  invalid : List ℕ → Normalized

abbrev has_prefix : List ℕ → String → Bool
has_prefix model prefix = is_some (after_prefix (runes prefix) model)

unfoldable pub belongs_elsewhere : (List ℕ → List ℕ) → List ℕ → List ℕ → List ℕ
unfolding after_prefix
belongs_elsewhere quote trimmed lower =
    if has_prefix lower "gpt-"
      || has_prefix lower "codex-"
      || has_prefix lower "o1"
      || has_prefix lower "o3"
      || has_prefix lower "o4"
    then runes "model "
      ++ quote trimmed
      ++ runes " does not belong to Claude; use the OpenAI/Codex relay instead"
    else if has_prefix lower "gemini-"
    then runes "model "
      ++ quote trimmed
      ++ runes " does not belong to Claude; use the Gemini relay instead"
    else runes "unsupported Claude model " ++ quote trimmed

unfoldable pub normalize_trimmed : (List ℕ → List ℕ) → List ℕ → Normalized
unfolding claude_model_entry_for_id belongs_elsewhere
normalize_trimmed quote [] = invalid (runes "model is required")
normalize_trimmed quote (c ∷ cs) = elim (claude_model_entry_for_id (map to_lower (c ∷ cs))) [
  | some e ↦ accepted e.upstream_id
  | none ↦ invalid (belongs_elsewhere quote (c ∷ cs) (map to_lower (c ∷ cs)))
]

unfoldable pub normalize_claude_model_id : (List ℕ → List ℕ) → List ℕ → Normalized
unfolding normalize_trimmed trim_space
normalize_claude_model_id quote model = normalize_trimmed quote (trim_space model)
