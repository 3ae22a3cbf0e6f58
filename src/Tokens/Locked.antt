-- ===== src/Tokens/Locked.antt =====
-- internal/tokens/manager.go: what is done under the refresh lock, and which failures blame the account.
use llm_broker.Prelude.{
  Bool, true, false, not, ◌&&◌, ◌≡◌, refl, ◌⊎◌, inl, inr, List, [], ◌∷◌, string_eq, if◌then◌else◌,
}
use llm_broker.Tokens.{
  TokenResponse, Refreshed, answered, broken, LockAnswer, held_now, held_elsewhere, lock_error,
  TokenError, not_found, gone_after_wait, in_progress, lock_failed, decrypt_access, decrypt_refresh,
  encrypt_access, encrypt_refresh, empty_refresh, unknown_provider, no_driver, refresh_via_cell,
  refresh_failed, not_stored, TokenResult, token, failed, TokenCall, locks, waits, unlocks,
  refreshes, marks_error, cools_cell, stores, Ran,
}

abbrev pub is_granted : LockAnswer → Bool
is_granted held_now = true
is_granted held_elsewhere = false
is_granted lock_error = false

pub data LockUse : Type 0 where
  takes gives sleeps needs : LockUse

abbrev pub lock_use : TokenCall → LockUse
lock_use locks = takes
lock_use unlocks = gives
lock_use waits = sleeps
lock_use (refreshes plain) = needs
lock_use (marks_error x) = needs
lock_use (cools_cell id until) = needs
lock_use (stores access kept until) = needs

abbrev pub fits : LockUse → Bool → Bool
fits takes held = not held
fits gives held = held
fits sleeps held = not held
fits needs held = held

abbrev pub after : Bool → LockUse → Bool → Bool
after granted takes held = granted
after granted gives held = false
after granted sleeps held = held
after granted needs held = held

-- The lock is held by this run, if it is granted, from the call to the release; the upstream, the account
-- and the cell are touched only while it is held, and no wait is under it.
unfoldable pub well_locked : Bool → Bool → List TokenCall → Bool
well_locked granted held [] = not held
well_locked granted held (x ∷ cs) =
    fits (lock_use x) held && well_locked granted (after granted (lock_use x) held) cs

abbrev is_inner : LockUse → Bool
is_inner takes = false
is_inner gives = false
is_inner sleeps = false
is_inner needs = true

all_inner : List TokenCall → Bool
all_inner [] = true
all_inner (x ∷ cs) = is_inner (lock_use x) && all_inner cs

marks_of : TokenCall → List TokenError → List TokenError
marks_of (marks_error x) xs = x ∷ xs
marks_of _ xs = xs

-- The errors that the account is marked with.
unfoldable pub marks : List TokenCall → List TokenError
unfolding marks_of
marks [] = []
marks (x ∷ cs) = marks_of x (marks cs)

-- The error is the account's own: its refresh token, its provider, or the upstream's refusal of it.
abbrev pub is_own : TokenError → Bool
is_own decrypt_refresh = true
is_own empty_refresh = true
is_own unknown_provider = true
is_own no_driver = true
is_own refresh_failed = true
is_own not_found = false
is_own gone_after_wait = false
is_own in_progress = false
is_own lock_failed = false
is_own decrypt_access = false
is_own encrypt_access = false
is_own encrypt_refresh = false
is_own (refresh_via_cell id) = false
is_own not_stored = false

abbrev pub blamed : TokenResult → List TokenError
blamed (token t) = []
blamed (failed x) = if is_own x then x ∷ [] else []

abbrev IsInner : Ran → Type 0
IsInner (x, calls) = (all_inner calls ≡ true) × (marks calls ≡ blamed x)

abbrev pub IsGuarded : Bool → Ran → Type 0
IsGuarded granted (x, calls) = (well_locked granted false calls ≡ true) × (marks calls ≡ blamed x)

pub Refreshed-cases :
    (x : Refreshed) → ((r : TokenResponse) × (x ≡ answered r)) ⊎ ((t : Bool) × (x ≡ broken t))
Refreshed-cases (answered r) = inl (r, refl)
Refreshed-cases (broken t) = inr (t, refl)

pub LockAnswer-cases : (x : LockAnswer) → (x ≡ held_now) ⊎ (x ≡ held_elsewhere) ⊎ (x ≡ lock_error)
LockAnswer-cases held_now = inl refl
LockAnswer-cases held_elsewhere = inr (inl refl)
LockAnswer-cases lock_error = inr (inr refl)
