-- ===== src/Providers/Codex/Models.antt =====
-- internal/driver/codex_models.go: the catalogue of Codex models, without its prices, and the quota
-- family of a model, with codexModelFamily of codex_support.go.
use Prim.Native.String.{String}
use llm_broker.Prelude.{
  ℕ, Bool, true, false, ◌&&◌, ◌||◌, List, [], ◌∷◌, ◌++◌, Option, none, some, map, nat_beq, keep,
  if◌then◌else◌,
}
use llm_broker.Domain.Surfaces.{runes, same_codes, to_lower, trim_space}

pub record CodexModelEntry : Type 0 where
  pub public_id : String
  pub context_window : ℕ
  pub advertise : Bool
  pub family : String

abbrev model_entry : String → ℕ → Bool → String → CodexModelEntry
model_entry id window advertise family = record {
  public_id = id;
  context_window = window;
  advertise = advertise;
  family = family;
}

abbrev newest_codex : List CodexModelEntry
newest_codex =
    model_entry "gpt-5.6-sol" 1050000 true ""
    ∷ (model_entry "gpt-5.6-terra" 1050000 true ""
        ∷ (model_entry "gpt-5.6-luna" 400000 true ""
            ∷ (model_entry "gpt-6-astra" 1050000 true ""
                ∷ (model_entry "gpt-5.6" 1050000 false ""
                    ∷ (model_entry "gpt-5.5" 400000 true ""
                        ∷ (model_entry "gpt-5.4" 1050000 true "" ∷ []))))))

abbrev middle_codex : List CodexModelEntry
middle_codex =
    model_entry "gpt-5.4-mini" 1050000 true ""
    ∷ (model_entry "gpt-5.3-codex" 400000 true ""
        ∷ (model_entry "gpt-5.3-codex-spark" 128000 true "bengalfox"
            ∷ (model_entry "gpt-5.2-codex" 400000 true ""
                ∷ (model_entry "gpt-5.2" 400000 true ""
                    ∷ (model_entry "gpt-5.1-codex-max" 400000 true ""
                        ∷ (model_entry "gpt-5.1-codex" 400000 true "" ∷ []))))))

abbrev oldest_codex : List CodexModelEntry
oldest_codex =
    model_entry "gpt-5.1-codex-mini" 400000 true ""
    ∷ (model_entry "gpt-5.1" 400000 true ""
        ∷ (model_entry "gpt-5-codex" 192000 true ""
            ∷ (model_entry "gpt-5-codex-mini" 192000 true ""
                ∷ (model_entry "gpt-5" 192000 true ""
                    ∷ (model_entry "codex-1" 192000 true "" ∷ [])))))

pub codex_model_entries : List CodexModelEntry
codex_model_entries = newest_codex ++ (middle_codex ++ oldest_codex)

-- Does a text begin with another, and does the other stand in it?
begins : List ℕ → List ℕ → Bool
begins [] text = true
begins (c ∷ cs) [] = false
begins (c ∷ cs) (d ∷ ds) = nat_beq c d && begins cs ds

unfoldable pub contains : List ℕ → List ℕ → Bool
unfolding begins
contains part [] = begins part []
contains part (d ∷ ds) = begins part (d ∷ ds) || contains part ds

first_entry : List ℕ → List CodexModelEntry → Option CodexModelEntry
first_entry normalized [] = none
first_entry normalized (e ∷ es) =
    if same_codes normalized (runes e.public_id) then some e else first_entry normalized es

unfoldable pub codex_model_entry_for_id : String → Option CodexModelEntry
unfolding first_entry codex_model_entries trim_space to_lower
codex_model_entry_for_id model =
    first_entry (map to_lower (trim_space (runes model))) codex_model_entries

unfoldable pub codex_model_family : String → String
unfolding codex_model_entry_for_id contains
codex_model_family model = elim (codex_model_entry_for_id model) [
  | some e ↦ e.family
  | none ↦ if contains (runes "spark") (map to_lower (runes model)) then "bengalfox" else ""
]

-- The ids that are listed to clients.
unfoldable pub codex_supported_models : List CodexModelEntry
unfolding keep codex_model_entries
codex_supported_models = keep (λ e. e.advertise) codex_model_entries
