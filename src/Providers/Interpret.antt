-- ===== src/Providers/Interpret.antt =====
-- internal/driver/codex.go, gemini.go and claude.go: what an upstream answer says of the account. What the helpers
-- read from the answer's headers and body is given.
pub mod Rests
pub mod Claude
use llm_broker.Prelude.{
  ℕ, ◌+◌, String, Bool, true, false, not, ◌&&◌, Option, none, some, ◌||◌, ltb, leb, nat_beq,
  if◌then◌else◌,
}
use llm_broker.Driver.{
  Effect, EffectKind, EffectScope, success, cooldown, reject, overload, block, auth_fail,
  server_error,
}

-- Durations; the first is `Pause401Refresh`.
pub record ErrorPauses : Type 0 where
  pub pause_401_refresh : ℕ
  pub pause_401 : ℕ
  pub pause_403 : ℕ
  pub pause_429 : ℕ
  pub pause_529 : ℕ

-- `retry_after` and `resets_in` are 0 where the answer names none; `reset_at` is the time of the header
-- anthropic-ratelimit-unified-reset; `state` is the state that the driver
-- writes for the answer, and `ban_message` the text for a ban signal.
pub record Reading : Type 0 where
  pub error_type : String
  pub error_message : String
  pub retry_after : ℕ
  pub resets_in : ℕ
  pub reset_at : Option ℕ
  pub has_ban_signal : Bool
  pub ban_message : String
  pub state : String

unfoldable pub should_retry : ℕ → Bool
should_retry status =
    nat_beq status 529 || (nat_beq status 429 || (nat_beq status 401 || nat_beq status 403))

module _ (pauses : ErrorPauses) (now : ℕ) (r : Reading) where
  -- An effect with the error that the answer names.
  abbrev pub with_error : EffectKind → EffectScope → ℕ → String → ℕ → String → Effect
  with_error kind scope until message status state = record {
    kind = kind;
    scope = scope;
    cooldown_until = until;
    error_message = message;
    upstream_status = status;
    upstream_error_type = r.error_type;
    upstream_error_message = r.error_message;
    updated_state = state;
  }

  abbrev pub succeeds : String → Effect
  succeeds state = record {
    kind = success;
    scope = EffectScope.bucket;
    cooldown_until = 0;
    error_message = "";
    upstream_status = 0;
    upstream_error_type = "";
    upstream_error_message = "";
    updated_state = state;
  }

  -- The body is asked only where the header names no time.
  unfoldable pub codex_429_until : ℕ
  codex_429_until =
      if ltb 0 r.retry_after
      then now + r.retry_after
      else if ltb 0 r.resets_in
      then now + r.resets_in
      else now + pauses.pause_429

  unfoldable pub gemini_429_until : ℕ
  gemini_429_until =
      if ltb 0 r.resets_in
      then now + r.resets_in
      else if ltb 0 r.retry_after
      then now + r.retry_after
      else now + pauses.pause_429

  unfoldable pub codex_interpret : ℕ → Effect
  unfolding codex_429_until
  codex_interpret status =
      if nat_beq status 200
      then succeeds r.state
      else if nat_beq status 529
      then with_error overload EffectScope.bucket (now + pauses.pause_529) "" 529 ""
      else if nat_beq status 429
      then with_error cooldown EffectScope.bucket codex_429_until "" 429 r.state
      else if nat_beq status 403
      then (if r.has_ban_signal
          then with_error block EffectScope.bucket (now + pauses.pause_401) r.ban_message 403 ""
          else with_error cooldown EffectScope.bucket (now + pauses.pause_403) "" 403 "")
      else if nat_beq status 401
      then with_error auth_fail EffectScope.bucket (now + pauses.pause_401_refresh) "" 401 ""
      else if nat_beq status 400
      then with_error reject EffectScope.bucket 0 "" 400 ""
      else succeeds ""

  -- The effects of 403 and 401 leave the scope at its zero value, the account.
  unfoldable pub gemini_interpret : ℕ → Effect
  unfolding gemini_429_until
  gemini_interpret status =
      if nat_beq status 200
      then succeeds r.state
      else if nat_beq status 529
      then with_error overload EffectScope.bucket (now + pauses.pause_529) "" 529 r.state
      else if nat_beq status 429
      then with_error cooldown EffectScope.bucket gemini_429_until "" 429 r.state
      else if nat_beq status 403
      then (if r.has_ban_signal
          then with_error block EffectScope.account (now + pauses.pause_401) r.ban_message 403
              r.state
          else with_error cooldown EffectScope.account (now + pauses.pause_403) "" 403 r.state)
      else if nat_beq status 401
      then with_error auth_fail EffectScope.account (now + pauses.pause_401_refresh) "" 401 r.state
      else succeeds r.state

  unfoldable pub claude_429_until : ℕ
  claude_429_until =
      if ltb 0 r.retry_after
      then now + r.retry_after
      else elim r.reset_at [ none ↦ now + pauses.pause_429 | some t ↦ t ]

  -- A status that the switch does not name, by its class.
  unfoldable pub claude_other : ℕ → Effect
  claude_other status =
      if leb 500 status && leb status 599
      then with_error server_error EffectScope.bucket 0 "" status r.state
      else if leb 400 status && leb status 499
      then with_error reject EffectScope.bucket 0 "" status r.state
      else succeeds r.state

  unfoldable pub claude_interpret : ℕ → Effect
  unfolding claude_429_until claude_other
  claude_interpret status =
      if nat_beq status 200
      then succeeds r.state
      else if nat_beq status 529
      then with_error overload EffectScope.bucket (now + pauses.pause_529) "" 529 r.state
      else if nat_beq status 429
      then with_error cooldown EffectScope.bucket claude_429_until "" 429 r.state
      else if nat_beq status 403 || nat_beq status 400
      then (if r.has_ban_signal
          then with_error block EffectScope.bucket (now + pauses.pause_401) r.ban_message status
              r.state
          else with_error reject EffectScope.bucket 0 "" status r.state)
      else if nat_beq status 401
      then with_error auth_fail EffectScope.bucket (now + pauses.pause_401_refresh) "" 401 r.state
      else if nat_beq status 500
      then with_error server_error EffectScope.bucket 0 "" 500 r.state
      else claude_other status

  unfoldable pub claude_retry_same_account : ℕ → ℕ → Bool
  claude_retry_same_account status prior =
      if nat_beq status 403 && not r.has_ban_signal then ltb prior 2 else false
