-- ===== src/Store/Locks.antt =====
-- internal/store/mock_store.go: a refresh lock keeps the others out until it is released or expires,
-- and a session is handed out once.
use text.Mathlib.TextEquality.{eq_iff}
use llm_broker.Prelude.{
  ℕ, ◌≤◌, ◌<◌, String, Bool, true, false, ◌≡◌, ◌≢◌, refl, sym, ap, ◌∙◌, ◌⊎◌, inl, inr, List, [],
  ◌∷◌, none, some, All, Map, lookup, delete, lookup-insert, lookup-delete, lookup-delete_self,
  lookup-insert_self, lt→ltb, ◌==◌, string_eq, arith, Bool-cases, Option-cases,
}
use llm_broker.Domain.{RefreshLock}
use llm_broker.Store.{Store, purge, purge_expired}
use llm_broker.Store.Expiring.{
  is_live, acquire_refresh_lock, release_refresh_lock, get_and_delete_oauth_session,
  get_oauth_session,
}

-- The calls that reach the table of locks.
pub data LockCall : Type 0 where
  acquire : RefreshLock → LockCall
  release : String → String → LockCall
  purge_before : ℕ → LockCall

unfoldable pub run_lock : LockCall → Store → Store
run_lock (acquire lock) s = (acquire_refresh_lock lock s).0
run_lock (release account_id lock_id) s = release_refresh_lock account_id lock_id s
run_lock (purge_before t) s = purge_expired t s

unfoldable pub run_locks : List LockCall → Store → Store
unfolding run_lock
run_locks [] s = s
run_locks (c ∷ cs) s = run_locks cs (run_lock c s)

-- The call is made before the lock expires, and does not release it under its own id.
abbrev pub Foreign : RefreshLock → LockCall → Type 0
Foreign held (acquire lock) = lock.created_at < held.expires_at
Foreign held (release account_id lock_id) =
    (account_id ≢ held.account_id) ⊎ (lock_id ≢ held.lock_id)
Foreign held (purge_before t) = t < held.expires_at

module _ (before : ℕ) (key : String) (lock : RefreshLock) where
  lookup-purge :
      (m : Map String RefreshLock)
      → lookup key m ≡ some lock
      → before < lock.expires_at
      → lookup key (purge (λ x. x.expires_at) before m) ≡ some lock
  unfolding purge lookup
  lookup-purge [] q h = cc
  lookup-purge ((k, x) ∷ m) q h = ground (arith, eq_iff k key, lookup-purge m)

acquire_live :
    (lock : RefreshLock) (s : Store)
    → is_live (λ x. x.expires_at) lock.created_at (lookup lock.account_id s.refresh_locks) ≡ true
    → acquire_refresh_lock lock s ≡ (s, false)
unfolding acquire_refresh_lock
acquire_live lock s h = rw h refl

-- A lock that is live when another asks for it.
acquire_held :
    (held lock : RefreshLock) (s : Store)
    → lock.created_at < held.expires_at
    → lock.account_id ≡ held.account_id
    → lookup held.account_id s.refresh_locks ≡ some held
    → acquire_refresh_lock lock s ≡ (s, false)
acquire_held held lock s f same q =
    acquire_live lock s (rw (same, q) (lt→ltb lock.created_at held.expires_at f))

acquire_elsewhere :
    (key : String) (lock : RefreshLock) (s : Store)
    → (lock.account_id == key) ≡ false
    → lookup key (acquire_refresh_lock lock s).0.refresh_locks ≡ lookup key s.refresh_locks
unfolding acquire_refresh_lock
acquire_elsewhere key lock s n =
    ground (arith, n, lookup-insert lock.account_id key lock s.refresh_locks)

release_elsewhere :
    (key account_id lock_id : String) (s : Store)
    → (account_id == key) ≡ false
    → lookup key (release_refresh_lock account_id lock_id s).refresh_locks
      ≡ lookup key s.refresh_locks
unfolding release_refresh_lock
release_elsewhere key account_id lock_id s n =
    ground (arith, n, lookup-delete account_id key s.refresh_locks)

release_other :
    (held : RefreshLock) (lock_id : String) (s : Store)
    → lock_id ≢ held.lock_id
    → lookup held.account_id s.refresh_locks ≡ some held
    → release_refresh_lock held.account_id lock_id s ≡ s
unfolding release_refresh_lock
release_other held lock_id s n q =
    let other : (held.lock_id == lock_id) ≡ false = ground (arith, eq_iff held.lock_id lock_id) in
    rw (q, other) refl

run_lock-holds :
    (held : RefreshLock) (c : LockCall) (s : Store)
    → Foreign held c
    → lookup held.account_id s.refresh_locks ≡ some held
    → lookup held.account_id (run_lock c s).refresh_locks ≡ some held
unfolding run_lock
run_lock-holds held (acquire lock) s f q = elim (Bool-cases (lock.account_id == held.account_id)) [
  | inl t ↦
      ap (λ r. lookup held.account_id r.0.refresh_locks)
        (acquire_held held lock s f ((eq_iff lock.account_id held.account_id).0 t) q)
      ∙ q
  | inr t ↦ acquire_elsewhere held.account_id lock s t ∙ q
]
run_lock-holds held (release account_id lock_id) s f q =
    elim (Bool-cases (account_id == held.account_id)) [
      | inl t ↦
          let same : account_id ≡ held.account_id = (eq_iff account_id held.account_id).0 t in
          let other : lock_id ≢ held.lock_id = elim f [ inl n ↦ absurd (n same) | inr n ↦ n ] in
          ap (λ a. lookup held.account_id (release_refresh_lock a lock_id s).refresh_locks) same
          ∙ ap (λ r. lookup held.account_id r.refresh_locks) (release_other held lock_id s other q)
          ∙ q
      | inr t ↦ release_elsewhere held.account_id account_id lock_id s t ∙ q
    ]
run_lock-holds held (purge_before t) s f q =
    unfold purge_expired in lookup-purge t held.account_id held s.refresh_locks q f

run_locks-holds :
    (held : RefreshLock) (cs : List LockCall) (s : Store)
    → All (Foreign held) cs
    → lookup held.account_id s.refresh_locks ≡ some held
    → lookup held.account_id (run_locks cs s).refresh_locks ≡ some held
unfolding run_locks
run_locks-holds held [] s f q = q
run_locks-holds held (c ∷ cs) s f q =
    run_locks-holds held cs (run_lock c s) f.1 (run_lock-holds held c s f.0 q)

taken :
    (held : RefreshLock) (s : Store)
    → (acquire_refresh_lock held s).1 ≡ true
    → lookup held.account_id (acquire_refresh_lock held s).0.refresh_locks ≡ some held
unfolding acquire_refresh_lock
taken held s got = ground (arith, lookup-insert_self held.account_id held s.refresh_locks)

-- Mutual exclusion: once a lock is acquired, whatever others then call before it expires, with no
-- release under its own id, the lock stays, and an acquire for its account before it expires fails.
pub refresh_lock_excludes :
    (held lock : RefreshLock) (cs : List LockCall) (s : Store)
    → (acquire_refresh_lock held s).1 ≡ true
    → All (Foreign held) cs
    → lock.account_id ≡ held.account_id
    → lock.created_at < held.expires_at
    → let t = run_locks cs (acquire_refresh_lock held s).0 in
      (lookup held.account_id t.refresh_locks ≡ some held)
      × (acquire_refresh_lock lock t ≡ (t, false))
refresh_lock_excludes held lock cs s got f same early =
    let stays = run_locks-holds held cs (acquire_refresh_lock held s).0 f (taken held s got) in
    (stays, acquire_held held lock (run_locks cs (acquire_refresh_lock held s).0) early same stays)

module _ (id : String) (s : Store) where
  abbrev session_live : ℕ → Bool
  session_live now = is_live (λ o. o.expires_at) now (lookup id s.oauth_sessions)

  session_gone :
      (now : ℕ)
      → session_live now ≡ false
      → (get_oauth_session now id s ≡ none) × (get_and_delete_oauth_session now id s ≡ (s, none))
  unfolding get_oauth_session get_and_delete_oauth_session
  session_gone now h = (rw h refl, rw h refl)

  session_taken :
      (now : ℕ)
      → session_live now ≡ true
      → (get_oauth_session now id s ≡ lookup id s.oauth_sessions)
        × (get_and_delete_oauth_session now id s ≡ (
          record s { oauth_sessions = delete id s.oauth_sessions },
          lookup id s.oauth_sessions,
        ))
  unfolding get_oauth_session get_and_delete_oauth_session
  session_taken now h = (rw h refl, rw h refl)

  session_over :
      (now later : ℕ) → now ≤ later → session_live now ≡ false → session_live later ≡ false
  session_over now later h q = elim (Option-cases (lookup id s.oauth_sessions)) [
    | inl e ↦ rw e refl
    | inr (o, e) ↦ ground (arith, e)
  ]

-- A session is handed out at most once: what is taken is what a read would have answered, and after
-- that, at the same time or later, neither a read nor a take finds it.
pub oauth_session_once :
    (now later : ℕ) (id : String) (s : Store)
    → now ≤ later
    → let r = get_and_delete_oauth_session now id s in
      (r.1 ≡ get_oauth_session now id s)
      × (get_oauth_session later id r.0 ≡ none)
      × ((get_and_delete_oauth_session later id r.0).1 ≡ none)
oauth_session_once now later id s h = elim (Bool-cases (session_live id s now)) [
  | inl t ↦
      let (read, took) = session_taken id s now t in
      let rest : Store = record s { oauth_sessions = delete id s.oauth_sessions } in
      let (none_read, none_took) =
        session_gone id rest later
          (ap (is_live (λ o. o.expires_at) later) (lookup-delete_self id s.oauth_sessions)) in
      (
        ap (λ r. r.1) took ∙ sym read,
        ap (λ r. get_oauth_session later id r.0) took ∙ none_read,
        ap (λ r. (get_and_delete_oauth_session later id r.0).1) took ∙ ap (λ r. r.1) none_took,
      )
  | inr t ↦
      let (read, took) = session_gone id s now t in
      let (none_read, none_took) = session_gone id s later (session_over id s now later h t) in
      (
        ap (λ r. r.1) took ∙ sym read,
        ap (λ r. get_oauth_session later id r.0) took ∙ none_read,
        ap (λ r. (get_and_delete_oauth_session later id r.0).1) took ∙ ap (λ r. r.1) none_took,
      )
]
