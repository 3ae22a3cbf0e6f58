-- ===== src/Tokens.antt =====
-- internal/tokens/manager.go: the access token of an account, refreshed under a lock when it is due. What
-- the services answer is given; a call yields its result and the calls that it makes in order.
-- Times and durations are in milliseconds.
pub mod Locked
pub mod Reuse
use llm_broker.Prelude.{
  ℕ, ◌+◌, ◌-◌, ◌*◌, String, Bool, true, false, not, ◌&&◌, List, [], ◌∷◌, ◌++◌, Option, none, some,
  ltb, ◌==◌, string_eq, if◌then◌else◌,
}
use llm_broker.Domain.{Account}

pub record TokenConfig : Type 0 where
  pub token_refresh_advance : ℕ
  pub cell_error_pause : ℕ

-- internal/crypto under the salt of tokens; none is an error.
pub record Cipher : Type 0 where
  pub encrypt : String → Option String
  pub decrypt : String → Option String

pub record TokenResponse : Type 0 where
  pub access_token : String
  pub refresh_token : String
  pub expires_in : ℕ

-- `broken` says whether the error is one of transport.
pub data Refreshed : Type 0 where
  answered : TokenResponse → Refreshed
  broken : Bool → Refreshed

pub data LockAnswer : Type 0 where
  held_now held_elsewhere lock_error : LockAnswer

-- The account is read again after each wait; `now` is the time of the first look, `later` that after the
-- wait, `ended` that of the upstream's answer.
pub record TokenAnswers : Type 0 where
  pub now : ℕ
  pub account : Option Account
  pub lock : LockAnswer
  pub later : ℕ
  pub waited_account : Option Account
  pub locked_account : Option Account
  pub has_driver : String → Bool
  pub refreshed : String → Refreshed
  pub ended : ℕ
  pub stores_tokens : Bool

pub data TokenError : Type 0 where
  not_found gone_after_wait in_progress lock_failed : TokenError
  decrypt_access decrypt_refresh encrypt_access encrypt_refresh : TokenError
  empty_refresh unknown_provider no_driver : TokenError
  refresh_via_cell : String → TokenError
  refresh_failed not_stored : TokenError

pub data TokenResult : Type 0 where
  token : String → TokenResult
  failed : TokenError → TokenResult

pub data TokenCall : Type 0 where
  locks waits unlocks : TokenCall
  refreshes : String → TokenCall
  marks_error : TokenError → TokenCall
  cools_cell : String → ℕ → TokenCall
  stores : String → String → ℕ → TokenCall

abbrev pub Ran : Type 0
Ran = TokenResult × List TokenCall

abbrev pub token_if : TokenError → Option String → TokenResult
token_if x none = failed x
token_if x (some t) = if t == "" then failed x else token t

abbrev pub marked : TokenError → Ran
marked x = (failed x, marks_error x ∷ [])

abbrev pub preceded : String → Ran → Ran
preceded plain (x, calls) = (x, refreshes plain ∷ calls)

-- The deferred release runs when the refresh returns.
abbrev pub unlocked : Ran → Ran
unlocked (x, calls) = (x, locks ∷ (calls ++ (unlocks ∷ [])))

-- `token == ""` falls through to a refresh.
abbrev pub token_or : Ran → Option String → Ran
token_or r none = (failed decrypt_access, [])
token_or r (some t) = if t == "" then r else (token t, [])

module _ (cfg : TokenConfig) (c : Cipher) (ans : TokenAnswers) where
  -- The lock is held elsewhere: its holder's token is taken if it is there after the wait.
  unfoldable pub after_wait : TokenResult
  after_wait = elim ans.waited_account [
    | none ↦ failed gone_after_wait
    | some a ↦
        if not (a.access_token_enc == "") && ltb ans.later a.expires_at
        then token_if in_progress (c.decrypt a.access_token_enc)
        else failed in_progress
  ]

  -- A refresh token that is not sent anew stays as it was.
  abbrev pub kept_refresh : Account → TokenResponse → Option String
  kept_refresh a r =
      if r.refresh_token == "" then some a.refresh_token_enc else c.encrypt r.refresh_token

  unfoldable pub store_response : Account → TokenResponse → Ran
  store_response a r = elim (c.encrypt r.access_token) [
    | none ↦ (failed encrypt_access, [])
    | some access ↦ elim (kept_refresh a r) [
      | none ↦ (failed encrypt_refresh, [])
      | some refresh ↦ (
        if ans.stores_tokens then token r.access_token else failed not_stored,
        stores access refresh (ans.ended + r.expires_in * 1000) ∷ [],
      )
    ]
  ]

  -- A transport error through a cell rests the cell, not the account.
  unfoldable pub on_broken : Account → Bool → Ran
  on_broken a transport =
      if not (a.cell_id == "") && (ltb 0 cfg.cell_error_pause && transport)
      then (
        failed (refresh_via_cell a.cell_id),
        cools_cell a.cell_id (ans.ended + cfg.cell_error_pause) ∷ [],
      )
      else marked refresh_failed

  unfoldable pub call_upstream : Account → String → Ran
  unfolding store_response on_broken
  call_upstream a plain =
      preceded plain
        (elim (ans.refreshed plain) [ answered r ↦ store_response a r | broken t ↦ on_broken a t ])

  unfoldable pub refresh_account : Account → Ran
  unfolding call_upstream
  refresh_account a = elim (c.decrypt a.refresh_token_enc) [
    | none ↦ marked decrypt_refresh
    | some plain ↦
        if plain == ""
        then marked empty_refresh
        else if a.provider == ""
        then marked unknown_provider
        else if ans.has_driver a.provider
        then call_upstream a plain
        else marked no_driver
  ]

  unfoldable pub refresh_locked : Ran
  unfolding refresh_account
  refresh_locked = elim ans.locked_account [
    | none ↦ (failed not_found, [])
    | some a ↦ refresh_account a
  ]

  unfoldable pub refresh : Ran
  unfolding refresh_locked after_wait
  refresh = elim ans.lock [
    | lock_error ↦ (failed lock_failed, locks ∷ [])
    | held_elsewhere ↦ (after_wait, locks ∷ (waits ∷ []))
    | held_now ↦ unlocked refresh_locked
  ]

  unfoldable pub ensure_valid_token : Ran
  unfolding refresh
  ensure_valid_token = elim ans.account [
    | none ↦ (failed not_found, [])
    | some a ↦
        if ltb 0 a.expires_at
          && (ltb ans.now (a.expires_at - cfg.token_refresh_advance)
              && not (a.access_token_enc == ""))
        then token_or refresh (c.decrypt a.access_token_enc)
        else refresh
  ]

  unfoldable pub force_refresh : Ran
  unfolding refresh
  force_refresh = refresh
