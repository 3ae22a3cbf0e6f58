-- ===== src/Tests/Fixture.antt =====
-- A pool of two Codex accounts in two buckets and a disabled one, with its driver and its world.
use llm_broker.Prelude.{ℕ, ◌+◌, String, true, false, [], ◌∷◌, Option, none, some}
use llm_broker.Prelude.Int.{pos}
use llm_broker.Domain.{Account, Status, Codec, QuotaBucket}
use llm_broker.Driver.{SchedulerDriver, prefer}
use llm_broker.Store.{Store}
use llm_broker.Pool.{Pool, Env}
use llm_broker.Pool.Routes.{Float64}
use llm_broker.Pool.Availability.{RouteRequest}

abbrev pub codec : Codec
codec = record {
  parse_proxy = λ _. none;
  print_proxy = λ p. p.host;
  parse_strings = λ _. none;
  print_strings = λ _. "{}";
}

-- Whole numbers in place of floats: scores compare in the same order for equal weights.
abbrev floats : Float64
floats = record { of_int = λ n. n; add = λ a b. a + b; div = λ a b. a; sqrt = λ n. n }

abbrev pub world : Env
world = record {
  now = 1000;
  answers = λ _. true;
  accepts = λ _. true;
  codec = codec;
  floats = floats;
  itoa = λ _. "n";
  rfc3339 = λ _. "t";
}

abbrev pub driver : SchedulerDriver
driver = record {
  provider = "codex";
  bucket_key = λ a. a.bucket_key;
  assess_capacity = λ _ _ _. record { eligible = true; priority = pos 50; class = "std" };
  is_stale = λ _ _. false;
  compute_exhausted_cooldown = λ _ _. 0;
}

abbrev pub account : String → Status → Option ℕ → Account
account id status used = record {
  id = id;
  email = "";
  provider = "codex";
  status = status;
  priority = pos 50;
  priority_mode = "auto";
  error_message = "";
  bucket_key = "";
  refresh_token_enc = "";
  access_token_enc = "";
  expires_at = 0;
  created_at = 0;
  last_used_at = used;
  last_refresh_at = none;
  proxy_json = "";
  cell_id = "";
  identity_json = "";
  subject = id;
  cooldown_until = none;
  provider_state_json = "";
  proxy = none;
  identity = none;
  cell = none;
}

abbrev pub first : Account
first = account "a" Status.active (some 900)

abbrev pub other : Account
other = account "b" Status.blocked none

abbrev pub bucket : String → Option ℕ → QuotaBucket
bucket key until = record {
  bucket_key = key;
  provider = "codex";
  cooldown_until = until;
  state_json = "{}";
  updated_at = 1;
}

abbrev pub store : Store
store = record {
  accounts = ("a", first) ∷ ("b", other) ∷ [];
  cells = [];
  buckets =
      ("codex:a", bucket "codex:a" (some 10)) ∷ ("codex:b", bucket "codex:b" (some 5000)) ∷ [];
  session_bindings = [];
  stainless = [];
  oauth_sessions = [];
  refresh_locks = [];
}

abbrev pub pool : Pool
pool = record {
  accounts = store.accounts;
  cells = [];
  buckets = store.buckets;
  server_err_count = [];
  store = store;
  published = [];
  has_auth_hook = true;
  auth_failures = [];
  drivers = some (("codex", driver) ∷ []);
  route_loads = [];
  route_seq = 0;
  affinity_claims = [];
  next_claim = 0;
  closed_claims = [];
}

abbrev pub request : RouteRequest
request = record {
  exclusions = [];
  model = "m";
  surface = "native";
  hard_account_id = "";
  affinity_key = "k";
  continuity = prefer;
}
