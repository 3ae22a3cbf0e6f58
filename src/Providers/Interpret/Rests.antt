-- ===== src/Providers/Interpret/Rests.antt =====
-- internal/driver/codex.go and gemini.go: an answer that is tried again on another account rests the one
-- that it came from.
use llm_broker.Prelude.{ℕ, ◌<◌, true, ◌≡◌, ◌≢◌, arith}
use llm_broker.Driver.{Effect, success, reject, server_error}
use llm_broker.Providers.Interpret.{
  ErrorPauses, Reading, should_retry, codex_interpret, gemini_interpret, codex_429_until,
  gemini_429_until,
}

-- Every pause is positive.
pub record ArePositive (p : ErrorPauses) : Type 0 where
  pub refresh : 0 < p.pause_401_refresh
  pub forbidden : 0 < p.pause_401
  pub denied : 0 < p.pause_403
  pub limited : 0 < p.pause_429
  pub overloaded : 0 < p.pause_529

-- The effect rests what it is about after now, and names the status.
abbrev pub Rests : ℕ → ℕ → Effect → Type 0
Rests now status eff =
    (now < eff.cooldown_until)
    × (eff.upstream_status ≡ status)
    × (eff.kind ≢ success)
    × (eff.kind ≢ reject)
    × (eff.kind ≢ server_error)

-- With positive pauses, an answer whose status is tried again gives an effect that rests the account or
-- its bucket until after now, names the status, and is no success, rejection or server error, for Codex
-- and for Gemini.
pub should_retry-Rests :
    (p : ErrorPauses) (now : ℕ) (r : Reading) (status : ℕ)
    → ArePositive p
    → should_retry status ≡ true
    → Rests now status (codex_interpret p now r status)
      × Rests now status (gemini_interpret p now r status)
unfolding should_retry codex_interpret gemini_interpret codex_429_until gemini_429_until
should_retry-Rests p now r status h s = ground (arith, h, s)
