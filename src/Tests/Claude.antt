-- ===== src/Tests/Claude.antt =====
-- The limits and the models of the Claude driver.
use llm_broker.Prelude.{ℕ, [], ◌∷◌, some, ◌≡◌, refl, arith, ltb, lookup, map, true, if◌then◌else◌}
use llm_broker.Domain.Surfaces.{runes, to_lower, trim_space, same_codes, is_space}
use llm_broker.Providers.Claude.{ClaudeState, claude_exhausted_cooldown, capture_state, reset_at}
use llm_broker.Providers.Claude.Resting.{claude_exhausted_cooldown_later}
use llm_broker.Providers.Claude.Models.{
  normalize_claude_model_id, accepted, uses_compat_modern_envelope,
}
use llm_broker.Providers.Claude.Models.Accepted.{
  is_alias, normalize_claude_model_id-canonical_claude_model,
}
use llm_broker.Providers.Codex.Captured.{Headers}
use llm_broker.Server.Chat.Models.{canonical_claude_model}
use llm_broker.Tests.Codex.{percents}

abbrev full_week : ClaudeState ℕ
full_week = record {
  five_hour_util = 100;
  five_hour_reset = 40;
  seven_day_util = 99;
  seven_day_reset = 90;
  opus_cooldown_until = 70;
}

rests_until_both : claude_exhausted_cooldown percents (some full_week) 10 ≡ 90
unfolding claude_exhausted_cooldown
rests_until_both = refl

claude_exhausted_cooldown_later_example : claude_exhausted_cooldown percents (some full_week) 50 ≡ (
    if ltb 50 (claude_exhausted_cooldown percents (some full_week) 10)
    then claude_exhausted_cooldown percents (some full_week) 10
    else 0)
claude_exhausted_cooldown_later_example =
    claude_exhausted_cooldown_later percents full_week 10 50 (omega arith)

abbrev answered : Headers
answered =
    ("anthropic-ratelimit-unified-5h-utilization", "100")
    ∷ (("anthropic-ratelimit-unified-5h-reset", "60") ∷ [])

keeps_opus_cooldown : (capture_state percents percents.percentage answered full_week) ≡ (record {
  five_hour_util = 100;
  five_hour_reset = 60;
  seven_day_util = 0;
  seven_day_reset = 0;
  opus_cooldown_until = 70;
})
unfolding capture_state reset_at lookup
keeps_opus_cooldown = refl

modern : uses_compat_modern_envelope (runes "claude-opus-4-6") ≡ true
unfolding uses_compat_modern_envelope same_codes is_space
modern = refl

normalize_claude_model_id-canonical_claude_model_example :
    (id : _) × (normalize_claude_model_id
        (λ t. t)
        (canonical_claude_model (map to_lower) (runes " Claude-Sonnet-4.5 "))
      ≡ accepted id)
unfolding is_alias trim_space same_codes is_space to_lower
normalize_claude_model_id-canonical_claude_model_example =
    normalize_claude_model_id-canonical_claude_model (λ t. t) (map to_lower)
      (runes " Claude-Sonnet-4.5 ") refl
