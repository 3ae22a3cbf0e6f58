-- ===== src/Tests/Chats.antt =====
-- A streamed compat request of a user.
use llm_broker.Prelude.{true, false, [], none, some, ◌≡◌, refl}
use llm_broker.Domain.Surfaces.{runes, same_codes, is_space}
use llm_broker.Server.Chat.Models.{claude, refused, resolved, resolve_compat_model}
use llm_broker.Server.Chat.Served.{IsSettled, handle_chat-IsSettled}
use llm_broker.Server.Chat.{ChatCalls, printed, handle_chat}
use llm_broker.Server.RateLimit.{RateLimiter}
use llm_broker.Server.Stream.Gemini.Events.{GeminiEvents}
use llm_broker.Server.Stream.Trims.{after_prefix}
use llm_broker.Tests.Streams.{outside, plain_events, parts}

alias_resolved :
    resolve_compat_model (λ text. text) (runes " anthropic/claude-opus-4.5 ")
    ≡ resolved claude (runes "claude-opus-4-5") (runes "claude/claude-opus-4-5")
unfolding resolve_compat_model same_codes is_space after_prefix
alias_resolved = refl

no_provider :
    resolve_compat_model (λ text. text) (runes "gpt-5")
    ≡ refused
        "model must be a claude or gemini model, e.g. claude/claude-sonnet-4-5 or gemini/gemini-2.5-flash"
unfolding resolve_compat_model same_codes is_space after_prefix
no_provider = refl

abbrev no_gemini : GeminiEvents
no_gemini = record { response_of = λ body. none; envelope_of = λ body. none }

abbrev calls : ChatCalls
calls = record {
  key = some "u";
  acquired_at = 5;
  released_at = 9;
  others = λ l. l;
  body = some (runes "{}");
  decode = λ body. some (record { model = runes "claude/claude-m"; is_stream = true });
  lower = λ text. text;
  to_claude = λ request. printed (some (runes "{}"));
  to_gemini = λ request. printed none;
  has_driver = λ provider. true;
  relay = λ target. record { status = 200; writes = parts };
  convert = λ target body. none;
  client = outside;
  claude_events = plain_events;
  gemini_events = no_gemini;
  has_flusher = false;
  now = 7;
}

abbrev limiter : RateLimiter
limiter = record { max_per_minute = 2; max_concurrent = 1; state = [] }

handle_chat-IsSettled_example : IsSettled calls "u" limiter (handle_chat calls (some limiter))
handle_chat-IsSettled_example = handle_chat-IsSettled calls "u" limiter refl (λ m. refl)
