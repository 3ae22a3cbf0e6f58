-- ===== src/Providers/Claude/Resting.antt =====
-- How the cooldown of an exhausted Claude account runs out.
use llm_broker.Prelude.{ℕ, ◌≤◌, ◌≡◌, some, arith, ltb, if◌then◌else◌}
use llm_broker.Providers.Codex.{Floats}
use llm_broker.Providers.Claude.{ClaudeState, claude_exhausted_cooldown}

module _ (fl : Floats) where
  open fl use {F}

  -- A state that was told to rest until a time is told the same at each later time before it, and at
  -- that time or later it is not told to rest. One that was not told to rest is not told to later.
  pub claude_exhausted_cooldown_later :
      (s : ClaudeState F) (now at : ℕ)
      → now ≤ at
      → claude_exhausted_cooldown fl (some s) at ≡ (
          if ltb at (claude_exhausted_cooldown fl (some s) now)
          then claude_exhausted_cooldown fl (some s) now
          else 0)
  unfolding claude_exhausted_cooldown
  claude_exhausted_cooldown_later s now at le = ground arith
