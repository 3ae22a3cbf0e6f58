-- ===== src/Providers/Interpret/Claude.antt =====
-- internal/driver/claude.go: what the errors of Claude are taken for.
use llm_broker.Prelude.{ℕ, ◌≤◌, ◌<◌, false, ◌≡◌, ◌≢◌, ◌↔◌, ◌⊎◌, arith}
use llm_broker.Driver.{EffectKind, EffectScope, success, server_error}
use llm_broker.Providers.Interpret.{
  ErrorPauses, Reading, claude_interpret, claude_other, claude_429_until, claude_retry_same_account,
}

-- The effect names the status, is about the bucket and is no success; it is a server error exactly for a
-- status from 500 on but 529; and where the same account may be tried again it is a rejection.
abbrev pub Tells : ErrorPauses → ℕ → Reading → ℕ → Type 0
Tells p now r status =
    ((claude_interpret p now r status).upstream_status ≡ status)
    × ((claude_interpret p now r status).scope ≡ EffectScope.bucket)
    × ((claude_interpret p now r status).kind ≢ success)
    × (((claude_interpret p now r status).kind ≡ server_error) ↔ ((500 ≤ status) × (status ≢ 529)))
    × ((claude_retry_same_account p now r status 0 ≡ false)
        ⊎ ((claude_interpret p now r status).kind ≡ EffectKind.reject))

-- For every status from 400 to 599, the effect names the status, is about the bucket and is no success;
-- it is a server error exactly for a status from 500 on but 529; and where the same account may be tried
-- again it is a rejection.
pub claude_interpret-Tells :
    (p : ErrorPauses) (now : ℕ) (r : Reading) (status : ℕ)
    → 400 ≤ status
    → status < 600
    → Tells p now r status
unfolding claude_interpret claude_other claude_429_until claude_retry_same_account
claude_interpret-Tells p now r status h k =
    (ground arith, ground arith, ground arith, (λ e. ground arith, λ c. ground arith), ground arith)
