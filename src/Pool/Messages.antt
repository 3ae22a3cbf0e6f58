-- ===== src/Pool/Messages.antt =====
-- internal/pool/pool_observe.go: the texts and types of the events.
use Prim.Native.String.{len, slice}
use llm_broker.Prelude.{
  ℕ, String, Bool, true, Option, none, some, ◌==◌, ◌<>◌, string_eq, nat_beq, ltb, leb,
  if◌then◌else◌,
}
use llm_broker.Driver.{Effect}
use llm_broker.Events.{EventType}
use llm_broker.Pool.{Env}
use llm_broker.Pool.Buckets.{CooldownResult}

abbrev pub second : ℕ
second = 1000000000

abbrev is_refusal : ℕ → Bool
is_refusal status = if nat_beq status 400 then true else nat_beq status 403

pub cooldown_event_type : ℕ → EventType
cooldown_event_type status = if is_refusal status then EventType.reject else EventType.ratelimit

pub cooldown_event_message : ℕ → String
cooldown_event_message status = if is_refusal status then "rejected request" else "cooldown"

pub event_message : Env → String → ℕ → String → String
event_message e base status suffix =
    let base' : String = if base == "" then "event" else base in
    if ltb 0 status then "upstream " <> e.itoa status <> " " <> base' <> suffix else base' <> suffix

-- A cut inside a character of several bytes is not modelled.
pub truncate_effect_detail : String → ℕ → String
truncate_effect_detail text max_len =
    if nat_beq max_len 0
    then text
    else if leb (len text) max_len
    then text
    else slice text 0 max_len <> "..."

pub effect_error_detail : Effect → String
unfolding truncate_effect_detail
effect_error_detail eff =
    if eff.upstream_error_type == ""
    then (if eff.upstream_error_message == ""
        then ""
        else " | " <> truncate_effect_detail eff.upstream_error_message 180)
    else if eff.upstream_error_message == ""
    then " | " <> truncate_effect_detail eff.upstream_error_type 180
    else " | "
      <> truncate_effect_detail (eff.upstream_error_type <> ": " <> eff.upstream_error_message) 180

-- The zero time stands for no time.
unfoldable pub cooldown_ptr : CooldownResult → Option ℕ
cooldown_ptr r = if nat_beq r.actual 0 then none else some r.actual

pub cooldown_suffix : Env → CooldownResult → String
cooldown_suffix e r =
    if nat_beq r.actual 0 then "" else " (cooldown until " <> e.rfc3339 r.actual <> ")"
