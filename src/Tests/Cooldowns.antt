-- ===== src/Tests/Cooldowns.antt =====
-- Cooldowns and the cleanup on the fixture.
use llm_broker.Prelude.{string_eq, none, [], some}
use llm_broker.Pool.Observe.{Seen}
use llm_broker.Domain.{QuotaBucket}
use llm_broker.Driver.{Effect, EffectScope, server_error}
use llm_broker.Tests.Fixture.{pool, bucket, first}

abbrev failure : Effect
failure = record {
  kind = server_error;
  scope = EffectScope.bucket;
  cooldown_until = 0;
  error_message = "";
  upstream_status = 500;
  upstream_error_type = "api_error";
  upstream_error_message = "internal";
  updated_state = "";
}

abbrev resting : QuotaBucket
resting = bucket "codex:a" (some 10)

abbrev seen : Seen
seen = record { pool = pool; account = first; bucket = some resting; saved = []; event = none }
