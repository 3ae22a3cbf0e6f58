-- ===== src/Server/Users.antt =====
-- internal/server/admin_users.go: the handlers that change users. A request's body is given decoded,
-- `none` for an error; so are the eight random bytes, as the first four and the other hexadecimal
-- digits, a new id, the time and whether the store fails. `handleListUsers`, `handleGetUser` and
-- `handleListUserTotalCosts` only read.
pub mod Hashes
pub mod Revoked
pub mod Created
use llm_broker.Prelude.{
  ℕ, String, Bool, true, false, ◌||◌, not, ◌&&◌, List, [], ◌∷◌, Option, none, some, Map, ◌==◌,
  string_eq, ◌<>◌, if◌then◌else◌,
}
use llm_broker.Domain.Surfaces.{Surface, native, compat, any, unset, normalize_surface}
use llm_broker.Store.Users.{
  User, Users, create_user, delete_user, update_user_status, update_user_token, update_user_policy,
}

-- What the server is given beside the request.
pub record Around : Type 0 where
  pub hash : String → String
  pub random : Option (String × String)
  pub new_id : String
  pub now : ℕ
  pub store_fails : Bool
  pub has_account : String → Bool

pub record UserRequest : Type 0 where
  pub name : String
  pub allowed_surface : String
  pub bound_account_id : String

pub record NewToken : Type 0 where
  pub plaintext : String
  pub hash : String
  pub prefix : String

pub data UserResponse : Type 0 where
  fails : ℕ → String → String → UserResponse
  created : String → String → String → String → String → UserResponse
  deleted : String → UserResponse
  regenerated : String → String → UserResponse
  status_set : String → String → UserResponse
  policy_set : String → String → String → UserResponse

abbrev pub text_of : Surface → Option String
text_of native = some "native"
text_of compat = some "compat"
text_of any = some "all"
text_of unset = none

unfoldable pub parse_user_allowed_surface : String → Option String
parse_user_allowed_surface raw =
    if raw == "" then some "native" else text_of (normalize_surface raw)

-- True for no error.
abbrev pub validate_user_bound_account : Around → String → Bool
validate_user_bound_account a account_id = account_id == "" || a.has_account account_id

unfoldable pub generate_user_token : Around → String → Option NewToken
generate_user_token a name = elim a.random [
  | none ↦ none
  | some (front, back) ↦
      let plaintext : String = "tk_" <> (name <> ("_" <> (front <> back))) in
      some (record {
        plaintext = plaintext;
        hash = a.hash plaintext;
        prefix = "tk_" <> (name <> ("_" <> (front <> "...")));
      })
]

abbrev pub new_user : Around → UserRequest → String → NewToken → User
new_user a r surface t = record {
  id = a.new_id;
  name = r.name;
  token_hash = t.hash;
  token_prefix = t.prefix;
  status = "active";
  allowed_surface = surface;
  bound_account_id = r.bound_account_id;
  created_at = a.now;
  last_active_at = none;
}

unfoldable pub create_with :
    Around → UserRequest → String → Option NewToken → Users → Users × UserResponse
unfolding create_user
create_with a r surface none users = (users, fails 500 "internal_error" "failed to generate token")
create_with a r surface (some t) users =
    if a.store_fails then (users, fails 500 "internal_error" "failed to create user") else (
      create_user (new_user a r surface t) users,
      created a.new_id r.name t.plaintext surface r.bound_account_id,
    )

bad_surface : String
bad_surface = "allowed_surface must be 'native', 'compat', or 'all'"

unfoldable pub create_valid : Around → UserRequest → Option String → Users → Users × UserResponse
unfolding create_with bad_surface
create_valid a r none users = (users, fails 400 "invalid_request" bad_surface)
create_valid a r (some surface) users =
    if not (validate_user_bound_account a r.bound_account_id)
    then (users, fails 400 "invalid_request" "bound_account_id not found")
    else create_with a r surface (generate_user_token a r.name) users

unfoldable pub handle_create_user : Around → Option UserRequest → Users → Users × UserResponse
unfolding create_valid parse_user_allowed_surface generate_user_token
handle_create_user a none users = (users, fails 400 "invalid_request" "name is required")
handle_create_user a (some r) users =
    if r.name == ""
    then (users, fails 400 "invalid_request" "name is required")
    else create_valid a r (parse_user_allowed_surface r.allowed_surface) users

-- The answer after a write to the row of an id, where `none` is ErrNotFound.
abbrev pub written : Bool → String → Users → Option Users → UserResponse → Users × UserResponse
written true what users new answer = (users, fails 500 "internal_error" ("failed to " <> what))
written false what users none answer = (users, fails 404 "not_found" "user not found")
written false what users (some users') answer = (users', answer)

unfoldable pub handle_delete_user : Around → String → Users → Users × UserResponse
unfolding delete_user
handle_delete_user a id users =
    written a.store_fails "delete user" users (delete_user id users) (deleted id)

-- The name of the first row of the id, "" if there is none.
unfoldable pub user_name : String → Users → String
user_name id [] = ""
user_name id ((key, u) ∷ users) = if u.id == id then u.name else user_name id users

unfoldable pub regenerate_with : Around → String → Option NewToken → Users → Users × UserResponse
unfolding update_user_token
regenerate_with a id none users = (users, fails 500 "internal_error" "failed to generate token")
regenerate_with a id (some t) users =
    written a.store_fails "update token" users (update_user_token id t.hash t.prefix users)
      (regenerated id t.plaintext)

-- `list_fails` is the error of ListUsers.
unfoldable pub handle_regenerate_user_token : Around → Bool → String → Users → Users × UserResponse
unfolding user_name regenerate_with generate_user_token
handle_regenerate_user_token a list_fails id users =
    if list_fails
    then (users, fails 500 "internal_error" "failed to lookup user")
    else if user_name id users == ""
    then (users, fails 404 "not_found" "user not found")
    else regenerate_with a id (generate_user_token a (user_name id users)) users

unfoldable pub handle_update_user_status :
    Around → String → Option String → Users → Users × UserResponse
unfolding update_user_status
handle_update_user_status a id none users =
    (users, fails 400 "invalid_request" "status must be 'active' or 'disabled'")
handle_update_user_status a id (some status) users =
    if not (status == "active") && not (status == "disabled")
    then (users, fails 400 "invalid_request" "status must be 'active' or 'disabled'")
    else written a.store_fails "update user status" users (update_user_status id status users)
        (status_set id status)

unfoldable pub policy_with :
    Around → String → UserRequest → Option String → Users → Users × UserResponse
unfolding update_user_policy bad_surface
policy_with a id r none users = (users, fails 400 "invalid_request" bad_surface)
policy_with a id r (some surface) users =
    if not (validate_user_bound_account a r.bound_account_id)
    then (users, fails 400 "invalid_request" "bound_account_id not found")
    else written a.store_fails "update user policy" users
        (update_user_policy id surface r.bound_account_id users)
        (policy_set id surface r.bound_account_id)

-- The name of the request is not read.
unfoldable pub handle_update_user_policy :
    Around → String → Option UserRequest → Users → Users × UserResponse
unfolding policy_with parse_user_allowed_surface
handle_update_user_policy a id none users = (users, fails 400 "invalid_request" "invalid JSON body")
handle_update_user_policy a id (some r) users =
    policy_with a id r (parse_user_allowed_surface r.allowed_surface) users
