-- ===== src/Events.antt =====
-- internal/events/bus.go: the events of the broker, and the bus in Events/Bus.
pub mod Bus
use llm_broker.Prelude.{ℕ, String, Option, none}

pub data EventType : Type 0 where
  ban reject refresh ratelimit recover five_h_stop overload request relay_error : EventType

pub record Event : Type 0 where
  pub kind : EventType
  pub account_id : String
  pub user_id : String
  pub bucket_key : String
  pub cell_id : String
  pub cooldown_until : Option ℕ
  pub upstream_status : ℕ
  pub upstream_error_type : String
  pub upstream_error_message : String
  pub message : String
  pub timestamp : ℕ

-- An event of a kind, with Go's zero value in every field that a literal leaves out.
abbrev pub blank : EventType → Event
blank k = record {
  kind = k;
  account_id = "";
  user_id = "";
  bucket_key = "";
  cell_id = "";
  cooldown_until = none;
  upstream_status = 0;
  upstream_error_type = "";
  upstream_error_message = "";
  message = "";
  timestamp = 0;
}
