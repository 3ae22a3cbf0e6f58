-- ===== src/Tests/Stores.antt =====
-- Locks, sessions, entries with a time to live and published events.
use text.Mathlib.TextEquality.{eq_iff}
use llm_broker.Prelude.{
  ℕ, ◌+◌, String, true, false, ◌≡◌, refl, List, [], ◌∷◌, none, some, lookup, ltb, ◌==◌, string_eq,
  if◌then◌else◌, arith, inl,
}
use llm_broker.Prelude.Int.{pos}
use llm_broker.Prelude.Arrays.{take_last}
use llm_broker.Domain.{OauthSession, RefreshLock}
use llm_broker.Store.{Store}
use llm_broker.Store.Expiring.{
  acquire_refresh_lock, get_and_delete_oauth_session, get_oauth_session, save_oauth_session,
}
use llm_broker.Store.Locks.{
  LockCall, acquire, release, purge_before, run_locks, refresh_lock_excludes, oauth_session_once,
}
use llm_broker.Store.Ttl.{TtlEntry, TtlMap, get_ttl, set_ttl, set_nx_ttl, cleanup_ttl}
use llm_broker.Store.Ttl.View.{cleanup_ttl_invisible, get_ttl-set_ttl, set_nx_ttl_at_expiry}
use llm_broker.Events.{Event, EventType, blank}
use llm_broker.Events.Bus.{new_bus, recent, size_or_default}
use llm_broker.Events.Bus.Refine.{publish_all, stamped, recent-publish_all}
use llm_broker.Tests.Fixture.{store}

abbrev held : RefreshLock
held = record { account_id = "a"; lock_id = "1"; created_at = 5; expires_at = 30 }

abbrev late : RefreshLock
late = record { account_id = "a"; lock_id = "2"; created_at = 20; expires_at = 50 }

abbrev others : List LockCall
others = acquire late ∷ (release "b" "1" ∷ (purge_before 10 ∷ []))

held_first : (acquire_refresh_lock held store).1 ≡ true
unfolding acquire_refresh_lock lookup
held_first = refl

refresh_lock_excludes_example :
    (lookup "a" (run_locks others (acquire_refresh_lock held store).0).refresh_locks ≡ some held)
    × (acquire_refresh_lock late (run_locks others (acquire_refresh_lock held store).0)
        ≡ (run_locks others (acquire_refresh_lock held store).0, false))
refresh_lock_excludes_example =
    refresh_lock_excludes held late others store held_first
      (omega arith, (inl (ground (arith, eq_iff "b" "a")), (omega arith, tt))) refl (omega arith)

abbrev session : OauthSession
session = record { session_id = "s"; data_json = "{}"; created_at = 1; expires_at = 9 }

abbrev with_session : Store
with_session = save_oauth_session session store

oauth_session_once_example :
    ((get_and_delete_oauth_session 3 "s" with_session).1 ≡ get_oauth_session 3 "s" with_session)
    × (get_oauth_session 4 "s" (get_and_delete_oauth_session 3 "s" with_session).0 ≡ none)
    × ((get_and_delete_oauth_session 4 "s" (get_and_delete_oauth_session 3 "s" with_session).0).1
        ≡ none)
oauth_session_once_example = oauth_session_once 3 4 "s" with_session (omega arith)

abbrev key : String
key = "x"

abbrev other_key : String
other_key = "y"

abbrev entries : TtlMap ℕ
entries =
    ("x", record { value = 1; expires_at = 10 })
    ∷ (("y", record { value = 2; expires_at = 40 }) ∷ [])

cleanup_ttl_invisible_example : get_ttl 25 "y" (cleanup_ttl 20 entries) ≡ get_ttl 25 "y" entries
unfolding lookup
cleanup_ttl_invisible_example =
    cleanup_ttl_invisible 20 25 "y" entries (refl, (refl, tt)) (omega arith)

get_ttl-set_ttl_example :
    get_ttl 6 "x" (set_ttl 5 "x" 7 9 entries)
    ≡ (if key == key then (if ltb (5 + 9) 6 then none else some 7) else get_ttl 6 "x" entries)
get_ttl-set_ttl_example = get_ttl-set_ttl 5 6 9 "x" "x" 7 entries

abbrev first_entry : TtlEntry ℕ
first_entry = record { value = 1; expires_at = 10 }

set_nx_ttl_at_expiry_example :
    (get_ttl 10 "x" entries ≡ some 1)
    × ((set_nx_ttl 10 "x" 7 9 entries).1 ≡ true)
    × (lookup "x" (set_nx_ttl 10 "x" 7 9 entries).0 ≡ some (record { value = 7; expires_at = 19 }))
unfolding lookup
set_nx_ttl_at_expiry_example = set_nx_ttl_at_expiry "x" 7 9 entries first_entry refl

abbrev event : Event
event = blank EventType.recover

recent-publish_all_example :
    recent event
      (pos 2)
      (publish_all ((1, event) ∷ ((2, event) ∷ ((3, event) ∷ []))) (new_bus event (pos 2)))
    ≡ take_last 2 (
        take_last
          (size_or_default (pos 2))
          (stamped ((1, event) ∷ ((2, event) ∷ ((3, event) ∷ [])))))
recent-publish_all_example =
    recent-publish_all event (pos 2) ((1, event) ∷ ((2, event) ∷ ((3, event) ∷ []))) 2 (omega arith)
