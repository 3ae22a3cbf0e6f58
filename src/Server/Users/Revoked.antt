-- ===== src/Server/Users/Revoked.antt =====
-- internal/server/admin_users.go: a token whose user was deleted, disabled or given another token.
use llm_broker.Prelude.{
  String, Bool, true, false, some, ◌≡◌, ◌⊎◌, inl, inr, arith, ◌==◌, string_eq, Option-cases,
}
use llm_broker.Auth.{Auth}
use llm_broker.Server.Users.{
  Around, NewToken, UserResponse, fails, deleted, regenerated, status_set, generate_user_token,
  handle_delete_user, handle_update_user_status, handle_regenerate_user_token,
}
use llm_broker.Store.Users.{Users}

abbrev pub answers_ok : UserResponse → Bool
answers_ok (fails status kind message) = false
answers_ok _ = true

pub generate_user_token-hash :
    (a : Around) (name : String) {t : NewToken}
    → generate_user_token a name ≡ some t
    → t.hash ≡ a.hash t.plaintext
unfolding generate_user_token
generate_user_token-hash a name e = elim (Option-cases a.random) [
  | inl q ↦ let z : ⊥ = ground (arith, e, q) in elim z [ ]
  | inr ((front, back), q) ↦ ground (arith, e, q)
]

module _ (a : Around) (id : String) (hash : String) (users users' : Users) where
  -- One of the three handlers succeeded for the user; a new token has another hash.
  abbrev pub Revokes : Type 0
  Revokes =
      (handle_delete_user a id users ≡ (users', deleted id))
      ⊎ ((handle_update_user_status a id (some "disabled") users
            ≡ (users', status_set id "disabled"))
          ⊎ ((token : String) × (handle_regenerate_user_token a false id users
                ≡ (users', regenerated id token))
              × ((a.hash token == hash) ≡ false)))
