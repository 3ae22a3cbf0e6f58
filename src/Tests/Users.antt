-- ===== src/Tests/Users.antt =====
-- Tokens, the gates and the table of users.
use llm_broker.Prelude.{
  String, true, false, [], ◌∷◌, none, some, ◌≡◌, ◌≢◌, ◌↔◌, ◌⊎◌, refl, string_eq, ◌<>◌,
}
use llm_broker.Auth.{
  Credentials, Auth, granted, passes, admin_info, info_of, extract_token, validate_token,
  authenticate, require_surface, require_admin,
}
use llm_broker.Auth.Gates.{IsOwner, require_surface-IsOwner, require_admin_iff}
use llm_broker.Domain.Surfaces.{allows_surface}
use llm_broker.Server.Users.{Around, UserRequest, created, handle_create_user}
use llm_broker.Server.Users.Created.{validate_token-created}
use llm_broker.Store.Users.{User, Users}

abbrev ann : User
ann = record {
  id = "u1";
  name = "ann";
  token_hash = "#t";
  token_prefix = "t";
  status = "active";
  allowed_surface = "compat";
  bound_account_id = "";
  created_at = 5;
  last_active_at = none;
}

abbrev table : Users
table = ("u1", ann) ∷ []

abbrev auth : Auth
auth = record { admin_token = "root"; hash = λ t. "#" <> t; lookup_error = none }

abbrev with_token : String → Credentials
with_token t = record { x_api_key = ""; authorization = "Bearer " <> t; session_cookie = "" }

ann_passes :
    require_surface "compat" (authenticate auth table (with_token "t")) ≡ passes (info_of ann)
unfolding require_surface authenticate allows_surface
ann_passes = refl

require_surface-IsOwner_example :
    (extract_token (with_token "t") ≢ "")
    × (((extract_token (with_token "t") ≡ auth.admin_token) × (info_of ann ≡ admin_info))
        ⊎ ((u : User) × IsOwner auth table (extract_token (with_token "t")) (info_of ann) u
            × (allows_surface (info_of ann).allowed_surface "compat" ≡ true)))
require_surface-IsOwner_example =
    require_surface-IsOwner "compat" auth table (with_token "t") ann_passes

require_admin_iff_example :
    (require_admin (authenticate auth table (with_token "root")) ≡ passes admin_info) ↔ (
      (extract_token (with_token "root") ≢ "")
      × (extract_token (with_token "root") ≡ auth.admin_token)
      × (admin_info ≡ admin_info))
require_admin_iff_example = require_admin_iff auth table (with_token "root") admin_info

abbrev around : Around
around = record {
  hash = λ t. "#" <> t;
  random = some ("0123", "456789abcdef");
  new_id = "u2";
  now = 9;
  store_fails = false;
  has_account = λ id. false;
}

abbrev request : UserRequest
request = record { name = "bob"; allowed_surface = ""; bound_account_id = "" }

abbrev bob_token : String
bob_token = "tk_bob_0123456789abcdef"

abbrev bob_table : Users
bob_table = (handle_create_user around (some request) table).0

bob_created :
    handle_create_user around (some request) table
    ≡ (bob_table, created "u2" "bob" bob_token "native" "")
unfolding handle_create_user
bob_created = refl

validate_token-created_example :
    validate_token auth bob_table bob_token
    ≡ granted
        (record {
          id = "u2";
          name = "bob";
          allowed_surface = "native";
          bound_account_id = "";
          is_admin = false;
        })
        (some "u2")
validate_token-created_example =
    validate_token-created auth around request table bob_table refl refl refl (refl, tt) bob_created
