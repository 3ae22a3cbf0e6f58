-- ===== src/Store/Users.antt =====
-- internal/domain/user.go, and the table of users of internal/store/mock_store.go by id, in the order
-- in which a call goes over it.
use llm_broker.Prelude.{
  ℕ, String, [], ◌∷◌, Option, none, some, Map, lookup, insert, delete, ◌==◌, string_eq,
  if◌then◌else◌,
}

pub record User : Type 0 where
  pub id : String
  pub name : String
  pub token_hash : String
  pub token_prefix : String
  pub status : String
  pub allowed_surface : String
  pub bound_account_id : String
  pub created_at : ℕ
  pub last_active_at : Option ℕ

abbrev pub Users : Type 0
Users = Map String User

-- `none` is ErrNotFound.
abbrev pub changed : String → (User → User) → Users → Option User → Option Users
changed id change users none = none
changed id change users (some u) = some (insert id (change u) users)

unfoldable pub create_user : User → Users → Users
create_user u users = insert u.id u users

unfoldable pub get_user_by_token_hash : String → Users → Option User
get_user_by_token_hash hash [] = none
get_user_by_token_hash hash ((id, u) ∷ users) =
    if u.token_hash == hash then some u else get_user_by_token_hash hash users

unfoldable pub delete_user : String → Users → Option Users
delete_user id users = elim (lookup id users) [ none ↦ none | some u ↦ some (delete id users) ]

unfoldable pub update_user_status : String → String → Users → Option Users
update_user_status id status users =
    changed id (λ u. record u { status = status }) users (lookup id users)

unfoldable pub update_user_token : String → String → String → Users → Option Users
update_user_token id hash prefix users =
    changed id (λ u. record u { token_hash = hash; token_prefix = prefix }) users (lookup id users)

unfoldable pub update_user_policy : String → String → String → Users → Option Users
update_user_policy id surface account_id users =
    changed id
      (λ u. record u {
        allowed_surface = if surface == "" then "native" else surface;
        bound_account_id = account_id;
      })
      users (lookup id users)

-- A user that is gone is left out in silence.
unfoldable pub update_user_last_active : String → ℕ → Users → Users
update_user_last_active id now users = elim (lookup id users) [
  | none ↦ users
  | some u ↦ insert id (record u { last_active_at = some now }) users
]
