-- ===== src/Tests/Services.antt =====
-- The rate limiter, the token manager and the watchdog.
use llm_broker.Prelude.{
  zero, suc, if◌then◌else◌, ◌≤◌, String, true, false, ◌≡◌, refl, [], ◌∷◌, Option, none, some, ◌==◌,
  string_eq, arith, inl, inr, lookup, count_if, keep,
}
use text.Mathlib.TextEquality.{eq_iff}
use llm_broker.Prelude.Int.{pos}
use llm_broker.Domain.{Account}
use llm_broker.Server.RateLimit.{RateLimiter, acquire_slot, acquire_rate, prune, start, put_state}
use llm_broker.Server.RateLimit.History.{Traffic, admits, Leads, here, next, IsWithin}
use llm_broker.Server.RateLimit.Within.{Leads-IsWithin}
use llm_broker.Tokens.{
  TokenConfig, Cipher, TokenAnswers, answered, held_now, token, refresh, ensure_valid_token,
}
use llm_broker.Tokens.Reuse.{IsSound, refresh-reuse}
use llm_broker.Watchdog.{Watchdog, Cell, CellAnswers, reconcile_cell}
use llm_broker.Watchdog.Probes.{is_probe, is_restart, is_settled}
use llm_broker.Watchdog.Repairs.{reconcile_cell_bounded}
use llm_broker.Providers.Interpret.{
  ErrorPauses, Reading, codex_interpret, gemini_interpret, should_retry,
}
use llm_broker.Providers.Interpret.Rests.{ArePositive, Rests, should_retry-Rests}
use llm_broker.Providers.Interpret.Claude.{Tells, claude_interpret-Tells}
use llm_broker.Tests.Fixture.{first}

abbrev limiter : RateLimiter
limiter = record { max_per_minute = 2; max_concurrent = 1; state = [] }

abbrev idle : Traffic
idle = record { limiter = limiter; running = []; log = []; clock = 0 }

abbrev busy : Traffic
busy = record {
  limiter = (acquire_slot "u" 7 limiter).0;
  running = "u" ∷ [];
  log = ("u", 7) ∷ [];
  clock = 7;
}

idle-IsWithin : IsWithin idle
unfolding lookup keep count_if
idle-IsWithin = record {
  counted = λ k. refl;
  kept = λ h k. refl;
  concurrent = λ h k. omega arith;
  per_minute = λ h k. omega arith;
}

idle_moves : Leads idle busy
unfolding acquire_slot acquire_rate prune start put_state lookup keep
idle_moves = next here (admits "u" 7 (omega arith) refl)

Leads-IsWithin_example : IsWithin busy
Leads-IsWithin_example = Leads-IsWithin idle-IsWithin idle_moves

abbrev config : TokenConfig
config = record { token_refresh_advance = 60; cell_error_pause = 0 }

-- Each text is its own ciphertext, the empty one has none.
abbrev plain_text : String → Option String
plain_text t = if t == "" then none else some t

abbrev plain : Cipher
plain = record { encrypt = plain_text; decrypt = plain_text }

plain-IsSound : IsSound plain
plain-IsSound t e h =
    (ground (arith, eq_iff t "", eq_iff e ""), ground (arith, eq_iff t "", eq_iff e ""))

abbrev owner : Account
owner = record first { refresh_token_enc = "r" }

abbrev answers : TokenAnswers
answers = record {
  now = 100;
  account = some owner;
  lock = held_now;
  later = 100;
  waited_account = none;
  locked_account = some owner;
  has_driver = λ _. true;
  refreshed = λ _. answered (record { access_token = "t"; refresh_token = ""; expires_in = 3 });
  ended = 200;
  stores_tokens = true;
}

abbrev renewed : Account
renewed = record owner { access_token_enc = "t"; expires_at = 3200 }

abbrev later_answers : TokenAnswers
later_answers = record answers { now = 300; account = some renewed }

refresh-reuse_example : ensure_valid_token config plain later_answers ≡ (token "t", [])
unfolding refresh
refresh-reuse_example =
    refresh-reuse plain config answers later_answers "t" "t" "r" 3200 renewed plain-IsSound
      (ground (arith, eq_iff "t" "")) refl (inr (inr (inl refl))) refl refl refl (omega arith)

abbrev watchdog : Watchdog
watchdog = record { iface = "eth0"; repair_probe_retries = 2; repair_probe_delay = 300 }

abbrev cell : Cell
cell = record {
  id = "c";
  name = "c";
  status = "active";
  proxy = some (record { type = "socks5"; host = "127.0.0.1"; port = pos 11080 });
  labels = ("transport", "local-danted") ∷ (("ipv6", "::1") ∷ []);
  cooldown_until = some 9;
}

-- The first probe fails, the one after the restart passes.
abbrev recovering : CellAnswers
recovering = record {
  test_cell = λ k. elim k [
    | zero ↦ some (record { is_ok = false; error = "" })
    | suc n ↦ some (record { is_ok = true; error = "" })
  ];
  ipv6_present = some true;
  adds_ipv6 = true;
  restarts_service = true;
  clears_cooldown = true;
  context_ends = λ _. false;
}

reconcile_cell_bounded_example :
    (count_if is_probe (reconcile_cell watchdog cell recovering).1 ≤ 3)
    × (count_if is_restart (reconcile_cell watchdog cell recovering).1 ≤ 1)
    × (is_settled none true (reconcile_cell watchdog cell recovering).1 ≡ true)
reconcile_cell_bounded_example = reconcile_cell_bounded watchdog cell recovering

abbrev pauses : ErrorPauses
pauses = record {
  pause_401_refresh = 30;
  pause_401 = 1800;
  pause_403 = 600;
  pause_429 = 60;
  pause_529 = 300;
}

pauses-ArePositive : ArePositive pauses
pauses-ArePositive = record {
  refresh = omega arith;
  forbidden = omega arith;
  denied = omega arith;
  limited = omega arith;
  overloaded = omega arith;
}

abbrev reading : Reading
reading = record {
  error_type = "rate_limit";
  error_message = "slow down";
  retry_after = 0;
  resets_in = 20;
  reset_at = none;
  has_ban_signal = false;
  ban_message = "";
  state = "{}";
}

should_retry-Rests_example :
    Rests 1000 429 (codex_interpret pauses 1000 reading 429)
    × Rests 1000 429 (gemini_interpret pauses 1000 reading 429)
unfolding should_retry
should_retry-Rests_example = should_retry-Rests pauses 1000 reading 429 pauses-ArePositive refl

claude_interpret-Tells_example : Tells pauses 1000 reading 503
claude_interpret-Tells_example =
    claude_interpret-Tells pauses 1000 reading 503 (omega arith) (omega arith)
