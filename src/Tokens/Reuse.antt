-- ===== src/Tokens/Reuse.antt =====
-- internal/tokens/manager.go: a token that was refreshed serves the next calls.
use text.Mathlib.TextEquality.{eq_iff}
use llm_broker.Prelude.{
  ℕ, ◌+◌, ◌-◌, ◌<◌, String, Bool, not, ◌&&◌, ◌≡◌, ◌≢◌, inl, inr, List, [], ◌∷◌, ◌++◌, some,
  Bool-cases, Option-cases, Mem, ltb, ◌==◌, string_eq, arith,
}
use llm_broker.Domain.{Account}
use llm_broker.Tokens.{
  TokenConfig, Cipher, TokenResponse, TokenAnswers, TokenError, decrypt_refresh, empty_refresh,
  unknown_provider, no_driver, refresh_failed, lock_failed, not_found, TokenResult, token, failed,
  TokenCall, locks, unlocks, marks_error, cools_cell, stores, Ran, kept_refresh, store_response,
  marked, on_broken, preceded, call_upstream, refresh_account, refresh_locked, unlocked, refresh,
  ensure_valid_token,
}
use llm_broker.Tokens.Locked.{Refreshed-cases, LockAnswer-cases}

module _ (c : Cipher) where
  -- A token that is answered is the one whose ciphertext is stored.
  abbrev Backs : Ran → Type 0
  Backs (x, calls) =
      (t access kept : String) (until : ℕ)
      → x ≡ token t
      → Mem (stores access kept until) calls
      → c.encrypt t ≡ some access

  Backs-failed : (x : TokenError) (calls : List TokenCall) → Backs (failed x, calls)
  Backs-failed x calls t access kept until e m = cc

  Backs-preceded : (plain : String) (r : Ran) → Backs r → Backs (preceded plain r)
  Backs-preceded plain (x, calls) h t access kept until e (inl q) = cc
  Backs-preceded plain (x, calls) h t access kept until e (inr m) = h t access kept until e m

  Mem-unlocks :
      (access kept : String) (until : ℕ) (calls : List TokenCall)
      → Mem (stores access kept until) (calls ++ (unlocks ∷ []))
      → Mem (stores access kept until) calls
  Mem-unlocks access kept until [] (inl q) = cc
  Mem-unlocks access kept until [] (inr m) = elim m [ ]
  Mem-unlocks access kept until (x ∷ calls) (inl q) = inl q
  Mem-unlocks access kept until (x ∷ calls) (inr m) = inr (Mem-unlocks access kept until calls m)

  Backs-unlocked : (r : Ran) → Backs r → Backs (unlocked r)
  Backs-unlocked (x, calls) h t access kept until e (inl q) = cc
  Backs-unlocked (x, calls) h t access kept until e (inr m) =
      h t access kept until e (Mem-unlocks access kept until calls m)

  module _ (cfg : TokenConfig) (ans : TokenAnswers) where
    Backs-stored :
        (r : TokenResponse) (access kept : String) (until : ℕ)
        → c.encrypt r.access_token ≡ some access
        → (x : TokenResult) → ((t : String) → x ≡ token t → t ≡ r.access_token)
        → Backs (x, stores access kept until ∷ [])
    Backs-stored r access kept until q x h t access' kept' until' e (inl s) = let z = h t e in cc
    Backs-stored r access kept until q x h t access' kept' until' e (inr m) = elim m [ ]

    Backs-store_response : (a : Account) (r : TokenResponse) → Backs (store_response cfg c ans a r)
    unfolding store_response
    Backs-store_response a r = elim (Option-cases (c.encrypt r.access_token)) [
      | inl q ↦ rw (q, store_response) (Backs-failed _ [])
      | inr (access, q) ↦ elim (Option-cases (kept_refresh cfg c ans a r)) [
        | inl k ↦ rw (q, store_response, k) (Backs-failed _ [])
        | inr (s, k) ↦ rw (q, store_response, k) (Backs-stored r access s _ q _ (λ t. ground arith))
      ]
    ]

    Backs-on_broken : (a : Account) (t : Bool) → Backs (on_broken cfg c ans a t)
    unfolding on_broken
    Backs-on_broken a t =
        elim (Bool-cases (not (a.cell_id == "") && (ltb 0 cfg.cell_error_pause && t))) [
          | inl b ↦
              rw (b, on_broken)
                (Backs-failed _ (cools_cell a.cell_id (ans.ended + cfg.cell_error_pause) ∷ []))
          | inr b ↦
              rw (b, on_broken) (Backs-failed refresh_failed (marks_error refresh_failed ∷ []))
        ]

    Backs-marked : (x : TokenError) → Backs (marked x)
    Backs-marked x = Backs-failed x (marks_error x ∷ [])

    Backs-call_upstream : (a : Account) (plain : String) → Backs (call_upstream cfg c ans a plain)
    unfolding call_upstream
    Backs-call_upstream a plain = elim (Refreshed-cases (ans.refreshed plain)) [
      | inl (r, q) ↦
          rw (q, call_upstream)
            (Backs-preceded plain (store_response cfg c ans a r) (Backs-store_response a r))
      | inr (t, q) ↦
          rw (q, call_upstream)
            (Backs-preceded plain (on_broken cfg c ans a t) (Backs-on_broken a t))
    ]

    Backs-refresh_account : (a : Account) → Backs (refresh_account cfg c ans a)
    unfolding refresh_account
    Backs-refresh_account a = elim (Option-cases (c.decrypt a.refresh_token_enc)) [
      | inl q ↦ rw (q, refresh_account) (Backs-marked decrypt_refresh)
      | inr (plain, q) ↦ elim (Bool-cases (plain == "")) [
        | inl e ↦ rw (q, refresh_account, e) (Backs-marked empty_refresh)
        | inr e ↦ elim (Bool-cases (a.provider == "")) [
          | inl p ↦ rw (q, refresh_account, e, p) (Backs-marked unknown_provider)
          | inr p ↦ elim (Bool-cases (ans.has_driver a.provider)) [
            | inl d ↦ rw (q, refresh_account, e, p, d) (Backs-call_upstream a plain)
            | inr d ↦ rw (q, refresh_account, e, p, d) (Backs-marked no_driver)
          ]
        ]
      ]
    ]

    Backs-refresh_locked : Backs (refresh_locked cfg c ans)
    unfolding refresh_locked
    Backs-refresh_locked = elim (Option-cases ans.locked_account) [
      | inl q ↦ rw (q, refresh_locked) (Backs-failed not_found [])
      | inr (a, q) ↦ rw (q, refresh_locked) (Backs-refresh_account a)
    ]

    Backs-refresh : Backs (refresh cfg c ans)
    unfolding refresh
    Backs-refresh = elim (LockAnswer-cases ans.lock) [
      | inl q ↦ rw (q, refresh) (Backs-unlocked (refresh_locked cfg c ans) Backs-refresh_locked)
      | inr (inl q) ↦
          rw (q, refresh)
            (λ t access kept until e m. elim m [
              | inl s ↦ cc
              | inr n ↦ elim n [ inl s ↦ cc | inr o ↦ elim o [ ] ]
            ])
      | inr (inr q) ↦ rw (q, refresh) (Backs-failed lock_failed (locks ∷ []))
    ]

  -- A cipher that decrypts what it encrypts, and encrypts to no empty text.
  abbrev pub IsSound : Type 0
  IsSound = (t e : String) → c.encrypt t ≡ some e → (e ≢ "") × (c.decrypt e ≡ some t)

  -- Let a refresh answer with a token that is not empty and store a ciphertext with an expiry. Then a
  -- later call that finds these two in the account, earlier than the expiry by more than the advance,
  -- answers with the same token and calls neither the lock nor the upstream.
  pub refresh-reuse :
      (cfg : TokenConfig) (ans later : TokenAnswers) (t access kept : String) (until : ℕ)
      (a : Account)
      → IsSound
      → t ≢ ""
      → (refresh cfg c ans).0 ≡ token t
      → Mem (stores access kept until) (refresh cfg c ans).1
      → later.account ≡ some a
      → a.access_token_enc ≡ access
      → a.expires_at ≡ until
      → later.now < until - cfg.token_refresh_advance
      → ensure_valid_token cfg c later ≡ (token t, [])
  unfolding ensure_valid_token
  refresh-reuse cfg ans later t access kept until a sound n r m found same expiry h =
      let q = sound t access (Backs-refresh cfg ans t access kept until r m) in
      rw (found, ensure_valid_token)
        (ground (arith, q.0, q.1, same, expiry, h, n, eq_iff a.access_token_enc "", eq_iff t ""))
