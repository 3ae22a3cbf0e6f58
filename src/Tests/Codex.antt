-- ===== src/Tests/Codex.antt =====
-- The limits of the Codex driver, with utilizations in percent.
use llm_broker.Prelude.{
  ℕ, [], ◌∷◌, none, some, ◌≡◌, refl, ltb, leb, ◌-◌, ◌==◌, string_eq, lookup, insert, if◌then◌else◌,
}
use llm_broker.Prelude.Int.{pos}
use llm_broker.Providers.Codex.{Floats, FamilyLimits, CodexState, family, codex_exhausted_cooldown}
use llm_broker.Providers.Codex.Captured.{
  Headers, is_listed, discover_codex_family_prefixes, captured_limits, capture, family-capture,
}
use llm_broker.Domain.Surfaces.{same_codes, is_space}
use llm_broker.Providers.Codex.Models.{codex_model_family}
use llm_broker.Providers.Codex.Resting.{IsTimely, codex_exhausted_cooldown-IsTimely}

abbrev pub percents : Floats
percents = record {
  F = ℕ;
  naught = 0;
  is_positive = λ u. ltb 0 u;
  is_full = λ u. leb 99 u;
  percentage = λ text. if text == "100" then some 100 else none;
  hundred = 100;
  left_of = λ u. 100 - u;
  is_less = ltb;
  to_int = pos;
}

abbrev full_until : ℕ → FamilyLimits ℕ
full_until t = record {
  primary_util = 99;
  primary_reset = t;
  secondary_util = 10;
  secondary_reset = 90;
  limit_name = "";
}

abbrev idle_limits : FamilyLimits ℕ
idle_limits = record {
  primary_util = 0;
  primary_reset = 0;
  secondary_util = 0;
  secondary_reset = 0;
  limit_name = "";
}

abbrev two_families : CodexState ℕ
two_families = record {
  families = ("bengalfox", full_until 60) ∷ (("", full_until 40) ∷ []);
  legacy = idle_limits;
}

rests_until : codex_exhausted_cooldown percents (some two_families) 10 ≡ 40
unfolding codex_exhausted_cooldown family lookup
rests_until = refl

codex_exhausted_cooldown-IsTimely_example :
    IsTimely percents two_families 10 30 (codex_exhausted_cooldown percents (some two_families) 10)
codex_exhausted_cooldown-IsTimely_example =
    codex_exhausted_cooldown-IsTimely percents two_families 10 30

spark : codex_model_family "GPT-5.3-codex-SPARK" ≡ "bengalfox"
unfolding codex_model_family same_codes is_space
spark = refl

abbrev old_state : CodexState ℕ
old_state = record { families = []; legacy = full_until 40 }

abbrev headers : Headers
headers =
    ("x-codex-bengalfox-primary-used-percent", "100")
    ∷ (("x-codex-bengalfox-primary-reset-after-seconds", "20") ∷ [])

captures : (family percents (capture percents headers 10 old_state) "bengalfox").primary_reset ≡ 30
unfolding family capture lookup insert
captures = refl

family-capture_example : family percents (capture percents headers 10 old_state) "" ≡ (
    if is_listed "" (discover_codex_family_prefixes headers)
    then captured_limits percents headers 10 ""
    else family percents old_state "")
family-capture_example = family-capture percents headers 10 old_state "" refl
