-- ===== src/Providers/Claude.antt =====
-- internal/driver/claude_support.go and claude_admin.go: the state that the Claude driver keeps of an
-- account's limits, and what it tells the scheduler by it. Times are Unix seconds, those before 1970
-- are left out. Floating point is given, as is strconv.ParseFloat.
pub mod Models
pub mod Resting
use llm_broker.Prelude.{
  ℕ, String, Bool, true, false, not, ◌&&◌, ◌||◌, List, Option, none, some, map, ltb, leb, nat_beq,
  ◌==◌, string_eq, ◌<>◌, if◌then◌else◌,
}
use llm_broker.Prelude.Int.{ℤ, pos, negsuc}
use llm_broker.Domain.{Account}
use llm_broker.Domain.Surfaces.{runes, to_lower}
use llm_broker.Driver.{CapacityAssessment}
use llm_broker.Providers.Codex.{Floats}
use llm_broker.Providers.Codex.Captured.{Headers, get_header, atoi, digits_value}
use llm_broker.Providers.Codex.Models.{contains}

pub record ClaudeState (F : Type 0) : Type 0 where
  pub five_hour_util : F
  pub five_hour_reset : ℕ
  pub seven_day_util : F
  pub seven_day_reset : ℕ
  pub opus_cooldown_until : ℕ

unfoldable pub is_opus_model : String → Bool
unfolding contains
is_opus_model model = contains (runes "opus") (map to_lower (runes model))

unfoldable pub claude_bucket_key : Account → String
claude_bucket_key a = "claude:" <> (if a.subject == "" then a.id else a.subject)

abbrev seconds_of : Option ℤ → ℕ
seconds_of none = 0
seconds_of (some (pos n)) = n
seconds_of (some (negsuc n)) = 0

-- strconv.ParseInt accepts what strconv.Atoi does.
unfoldable pub reset_at : String → ℕ
unfolding atoi digits_value
reset_at value = seconds_of (atoi (runes value))

module _ (fl : Floats) where
  open fl use {F, naught, is_positive, is_full, hundred, left_of, is_less, to_int}

  -- `prev` is what json.Unmarshal leaves of the previous state, also where it fails.
  unfoldable pub capture_state : (String → Option F) → Headers → ClaudeState F → ClaudeState F
  unfolding reset_at
  capture_state parse_float hs prev =
      let value : String → String =
        λ name. get_header hs ("anthropic-ratelimit-unified-" <> name) in
      let util : String → F = λ text.
        if text == "" then naught else elim (parse_float text) [ none ↦ naught | some u ↦ u ] in
      record {
        five_hour_util = util (value "5h-utilization");
        five_hour_reset = reset_at (value "5h-reset");
        seven_day_util = util (value "7d-utilization");
        seven_day_reset = reset_at (value "7d-reset");
        opus_cooldown_until = prev.opus_cooldown_until;
      }

  abbrev left_in : F → F
  left_in u = if is_positive u then left_of u else hundred

  unfoldable pub claude_auto_priority : Option (ClaudeState F) → ℤ
  claude_auto_priority none = pos 50
  claude_auto_priority (some s) = to_int (
      if is_less (left_in s.seven_day_util) (left_in s.five_hour_util)
      then left_in s.seven_day_util
      else left_in s.five_hour_util)

  unfoldable pub claude_is_stale : Option (ClaudeState F) → ℕ → Bool
  claude_is_stale none now = false
  claude_is_stale (some s) now =
      (ltb 0 s.five_hour_reset && ltb s.five_hour_reset now)
      || (ltb 0 s.seven_day_reset && ltb s.seven_day_reset now)
      || (is_positive s.five_hour_util && nat_beq s.five_hour_reset 0)
      || (is_positive s.seven_day_util && nat_beq s.seven_day_reset 0)

  -- 0 for the zero time.
  unfoldable pub claude_exhausted_cooldown : Option (ClaudeState F) → ℕ → ℕ
  claude_exhausted_cooldown none now = 0
  claude_exhausted_cooldown (some s) now =
      let cooldown : ℕ =
        if is_full s.five_hour_util && ltb now s.five_hour_reset then s.five_hour_reset else 0 in
      if is_full s.seven_day_util && ltb now s.seven_day_reset && ltb cooldown s.seven_day_reset
      then s.seven_day_reset
      else cooldown

  unfoldable pub claude_can_serve : Option (ClaudeState F) → String → ℕ → Bool
  unfolding is_opus_model
  claude_can_serve none model now = true
  claude_can_serve (some s) model now =
      not (is_opus_model model) || nat_beq s.opus_cooldown_until 0 || leb s.opus_cooldown_until now

  unfoldable pub claude_assess_capacity : Option (ClaudeState F) → String → ℕ → CapacityAssessment
  unfolding claude_can_serve claude_auto_priority is_opus_model
  claude_assess_capacity s model now = record {
    eligible = claude_can_serve s model now;
    priority = claude_auto_priority s;
    class = if is_opus_model model then "opus" else "default";
  }
