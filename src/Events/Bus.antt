-- ===== src/Events/Bus.antt =====
-- internal/events/bus.go: Bus, a ring of the last events and the channels of its subscribers.
pub mod Ring
pub mod Refine
use llm_broker.Prelude.{
  ℕ, zero, suc, ◌+◌, ◌-◌, ◌%◌, Bool, true, false, not, ◌&&◌, List, [], ◌∷◌, ◌++◌, Option, none,
  some, Map, lookup, insert, delete, length, nat_eq, nat_beq, ltb, if◌then◌else◌,
}
use llm_broker.Prelude.Int.{ℤ, pos, negsuc}
use llm_broker.Prelude.Arrays.{get_or, set, replicate, drop}
use llm_broker.Events.{Event}

-- A channel is what is in its buffer, the oldest first. A channel that is closed is not in the map.
pub record Bus : Type 0 where
  pub ring : List Event
  pub ring_size : ℕ
  pub ring_pos : ℕ
  pub ring_count : ℕ
  pub subscribers : Map ℕ (List Event)
  pub next_id : ℕ

-- `ringSize`, or 200 in place of a size that is not positive.
abbrev pub size_or_default : ℤ → ℕ
size_or_default (pos zero) = 200
size_or_default (pos (suc n)) = suc n
size_or_default (negsuc n) = 200

-- `fill` is Go's zero value of an event.
unfoldable pub new_bus : Event → ℤ → Bus
new_bus fill n = record {
  ring = replicate (size_or_default n) fill;
  ring_size = size_or_default n;
  ring_pos = 0;
  ring_count = 0;
  subscribers = [];
  next_id = 0;
}

-- An event with no time gets that of the publication.
unfoldable pub stamp : ℕ → Event → Event
stamp now ev = if nat_beq ev.timestamp 0 then record ev { timestamp = now } else ev

abbrev pub channel_size : ℕ
channel_size = 64

-- A send that does not block: a full channel misses the event.
unfoldable pub offer : Event → List Event → List Event
offer ev buffer = if ltb (length buffer) channel_size then buffer ++ (ev ∷ []) else buffer

unfoldable pub offer_all : Event → Map ℕ (List Event) → Map ℕ (List Event)
unfolding offer
offer_all ev [] = []
offer_all ev ((id, c) ∷ m) = (id, offer ev c) ∷ offer_all ev m

-- `Publish`, without the line that it logs.
unfoldable pub publish : ℕ → Event → Bus → Bus
publish now ev b = record b {
  ring = set b.ring b.ring_pos (stamp now ev);
  ring_pos = (b.ring_pos + 1) % b.ring_size;
  ring_count = if ltb b.ring_count b.ring_size then b.ring_count + 1 else b.ring_count;
  subscribers = offer_all (stamp now ev) b.subscribers;
}

-- The copying loop of `recentLocked`, from the `i`-th of the events on.
unfoldable pub copy_from : Event → List Event → ℕ → ℕ → ℕ → ℕ → List Event
copy_from fill ring size start i zero = []
copy_from fill ring size start i (suc n) =
    get_or ring ((start + i) % size) fill ∷ copy_from fill ring size start (i + 1) n

-- `recentLocked`. The sum is taken first, so that `-` is exact where the count is at most the size.
unfoldable pub recent_locked : Event → Bus → List Event
unfolding copy_from
recent_locked fill b =
    if nat_beq b.ring_count 0
    then []
    else copy_from fill b.ring b.ring_size ((b.ring_pos + b.ring_size - b.ring_count) % b.ring_size)
        0 b.ring_count

-- `Recent`; a limit that is not positive is none.
unfoldable pub recent : Event → ℤ → Bus → List Event
unfolding recent_locked
recent fill (negsuc n) b = recent_locked fill b
recent fill (pos limit) b =
    let all : List Event = recent_locked fill b in
    if ltb 0 limit && ltb limit (length all) then drop (length all - limit) all else all

-- The id of the new channel, and what a subscriber that comes now has missed.
unfoldable pub subscribe : Event → Bus → Bus × ℕ × List Event
unfolding recent_locked
subscribe fill b = (
  record b { subscribers = insert b.next_id [] b.subscribers; next_id = b.next_id + 1 },
  b.next_id,
  recent_locked fill b,
)

unfoldable pub unsubscribe : ℕ → Bus → Bus
unsubscribe id b = record b { subscribers = delete id b.subscribers }

unfoldable pub clear : Bus → Bus
clear b = record b { ring_pos = 0; ring_count = 0 }
