-- ===== src/Tests/Relays.antt =====
-- A request that is relayed over two accounts.
use text.Mathlib.TextEquality.{eq_iff}
use llm_broker.Prelude.{
  List, ℕ, ◌≤◌, String, Bool, true, false, ◌≡◌, ◌≢◌, refl, count_if, string_eq, nat_beq, ◌||◌,
  arith, if◌then◌else◌,
}
use mathlib.Core.Path.{subst}
use llm_broker.Prelude.Int.{pos}
use llm_broker.Domain.{Account}
use llm_broker.Driver.{prefer, EffectKind, EffectScope}
use llm_broker.Pool.Results.{no_available_accounts}
use llm_broker.Pool.Availability.{RouteRequest, excludes_account, excludes_bucket}
use llm_broker.Pool.Availability.Serves.{excludes_account_iff, excludes_bucket_iff, Spares}
use llm_broker.Relay.Answers.{
  Prepared, RelayConfig, ExecutionDriver, Answers, Acquired, leased, unleased, of_pool, request,
  answered, accepted,
}
use llm_broker.Relay.Loop.{relay, rounds_of}
use llm_broker.Relay.Loop.Rounds.{is_reply}
use llm_broker.Relay.Loop.Served.{is_acquire, well_leased, relay_bounded}
use llm_broker.Relay.Loop.Distinct.{Respects, Distinct, leased_ids, relay-Distinct}
use llm_broker.Domain.Surfaces.{normalize_surface, runes, trim_space}
use llm_broker.Relay.Request.{RouteAffinity, namespace, affinity_parts}
use llm_broker.Relay.Request.Names.{namespace-affinity_parts}
use llm_broker.Relay.Handle.{Incoming, parsed, handle_with_driver}
use llm_broker.Relay.Handle.Replies.{IsAnswered, handle_with_driver-IsAnswered}
use llm_broker.Tests.Fixture.{first}

abbrev config : RelayConfig
config = record { max_retry_accounts = pos 2; cell_error_pause = 0 }

-- Every status but 200 is tried again, on another account.
abbrev driver : ExecutionDriver
driver = record {
  should_retry = λ status. if nat_beq status 200 then false else true;
  retry_same_account = λ _ _ _. false;
  parse_non_retriable = λ _ _. false;
  interpret = λ now status headers body model state. record {
    kind = EffectKind.overload;
    scope = EffectScope.account;
    cooldown_until = 0;
    error_message = "";
    upstream_status = status;
    upstream_error_type = "";
    upstream_error_message = "";
    updated_state = "";
  };
  has_preflight = false;
}

abbrev prepared : Prepared
prepared = record {
  user_id = "u";
  bound_account_id = "";
  model = "m";
  surface = "native";
  is_stream = false;
  affinity_key = "";
  continuity = prefer;
}

abbrev keyed : Account
keyed = record first { bucket_key = "codex:a" }

-- The one account, unless the request excludes it.
abbrev only_one : RouteRequest → Acquired
only_one req =
    if excludes_account req.exclusions "a" || excludes_bucket req.exclusions "codex:a"
    then unleased (of_pool no_available_accounts)
    else leased keyed

abbrev answers : ℕ → Answers
answers k = record {
  now = 100;
  acquire = only_one;
  token_valid = true;
  built = request;
  sent = answered (record { status = 529; headers = ""; body = "busy"; complete = true });
  preflight = accepted;
  bound = true;
  stream_completed = true;
}

abbrev bucket_of : String → String
bucket_of id = "codex:a"

leased_keyed :
    (t : Bool) (a : Account)
    → (if t then unleased (of_pool no_available_accounts) else leased keyed) ≡ leased a
    → (t ≡ false) × (keyed ≡ a)
leased_keyed true a q = cc
leased_keyed false a q = (refl, cc)

keyed-Respects : (k : ℕ) → Respects bucket_of (answers k)
keyed-Respects k req a q =
    let (none_excluded, same) =
      leased_keyed (excludes_account req.exclusions "a" || excludes_bucket req.exclusions "codex:a")
        a q in
    subst
      (λ (b : Account).
        (b.id ≢ "")
        × (b.bucket_key ≡ bucket_of b.id)
        × Spares (λ x. x.account_id) b.id req.exclusions
        × Spares (λ x. x.bucket_key) b.bucket_key req.exclusions)
      same
      (
        ground (arith, eq_iff "a" ""),
        refl,
        (excludes_account_iff req.exclusions "a").0 (ground (arith, none_excluded)),
        (excludes_bucket_iff req.exclusions "codex:a").0 (ground (arith, none_excluded)),
      )

relay-Distinct_example : Distinct (leased_ids (relay config driver prepared answers (λ _. false)))
relay-Distinct_example =
    relay-Distinct bucket_of config driver prepared answers (λ _. false) (λ _ _ _. refl)
      keyed-Respects

relay_bounded_example :
    (count_if is_reply (relay config driver prepared answers (λ _. false)) ≤ 1)
    × (well_leased false (relay config driver prepared answers (λ _. false)) ≡ true)
    × (count_if is_acquire (relay config driver prepared answers (λ _. false)) ≤ 3)
unfolding rounds_of
relay_bounded_example = relay_bounded config driver prepared answers (λ _. false)

-- The surface is normalized and the key is trimmed.
abbrev affinity : RouteAffinity
affinity = record { kind = "session"; raw_key = " k1 " }

abbrev incoming : Incoming
incoming = record {
  authenticated = true;
  user_id = "u";
  bound_account_id = "";
  provider = "codex";
  surface = "Native";
  body = parsed;
  model = "m";
  is_stream = false;
  is_count_tokens = false;
  affinity = affinity;
  continuity = prefer;
  intercepts = false;
}

abbrev constant_uuid : List ℕ → String
constant_uuid name = "id"

handle_with_driver-IsAnswered_example :
    IsAnswered (handle_with_driver config driver constant_uuid incoming answers (λ _. false))
handle_with_driver-IsAnswered_example =
    handle_with_driver-IsAnswered config driver constant_uuid incoming answers

abbrev same_affinity : RouteAffinity
same_affinity = record { kind = "session"; raw_key = "k1" }

same_name :
    namespace (affinity_parts "u" "codex" "Native" affinity)
    ≡ namespace (affinity_parts "u" "codex" "native" same_affinity)
unfolding normalize_surface trim_space
same_name = refl

namespace-affinity_parts_example :
    (runes "u" ≡ runes "u")
    × (runes "codex" ≡ runes "codex")
    × (normalize_surface "Native" ≡ normalize_surface "native")
    × (runes "session" ≡ runes "session")
    × (trim_space (runes " k1 ") ≡ trim_space (runes "k1"))
namespace-affinity_parts_example =
    namespace-affinity_parts "u" "u" "codex" "codex" "Native" "native" affinity same_affinity
      same_name
