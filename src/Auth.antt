-- ===== src/Auth.antt =====
-- internal/auth/auth.go: who a token stands for, and internal/server/surface_auth.go and
-- admin_auth.go: which requests then reach a handler. `hash` is the hexadecimal SHA-256 of a token.
pub mod Gates
use Prim.Native.String.{len, slice}
use text.Mathlib.Text.{starts_with}
use llm_broker.Prelude.{
  ℕ, String, Bool, true, false, ◌||◌, Option, none, some, ◌==◌, string_eq, ◌<>◌, if◌then◌else◌,
}
use llm_broker.Domain.Surfaces.{allows_surface}
use llm_broker.Store.Users.{User, Users, get_user_by_token_hash}

pub record KeyInfo : Type 0 where
  pub id : String
  pub name : String
  pub allowed_surface : String
  pub bound_account_id : String
  pub is_admin : Bool

-- The headers that carry a token, "" for one that is absent, and the cookie `cc_session`.
pub record Credentials : Type 0 where
  pub x_api_key : String
  pub authorization : String
  pub session_cookie : String

unfoldable pub extract_token : Credentials → String
extract_token c =
    if c.x_api_key == ""
    then if starts_with c.authorization "Bearer "
      then slice c.authorization 7 (len c.authorization)
      else c.session_cookie
    else c.x_api_key

-- The error's text, or the key with the user whose activity is noted in the background.
pub data Verdict : Type 0 where
  denied : String → Verdict
  granted : KeyInfo → Option String → Verdict

abbrev pub admin_info : KeyInfo
admin_info = record {
  id = "admin";
  name = "admin";
  allowed_surface = "all";
  bound_account_id = "";
  is_admin = true;
}

abbrev pub info_of : User → KeyInfo
info_of u = record {
  id = u.id;
  name = u.name;
  allowed_surface = if u.allowed_surface == "" then "native" else u.allowed_surface;
  bound_account_id = u.bound_account_id;
  is_admin = false;
}

unfoldable pub on_user : Option User → Verdict
on_user none = denied "invalid API key"
on_user (some u) =
    if u.status == "active"
    then granted (info_of u) (some u.id)
    else denied ("user " <> u.name <> " is " <> u.status)

unfoldable pub on_lookup : Option String → Option User → Verdict
unfolding on_user
on_lookup (some e) u = denied ("token lookup failed: " <> e)
on_lookup none u = on_user u

-- The middleware's token, and the error of the table if it cannot be read.
pub record Auth : Type 0 where
  pub admin_token : String
  pub hash : String → String
  pub lookup_error : Option String

unfoldable pub validate_token : Auth → Users → String → Verdict
unfolding on_lookup get_user_by_token_hash
validate_token auth users token =
    if token == auth.admin_token
    then granted admin_info none
    else on_lookup auth.lookup_error (get_user_by_token_hash (auth.hash token) users)

-- The response of a gate, or the key that goes on to the handler behind it.
pub data Gate : Type 0 where
  rejects : ℕ → String → Gate
  passes : KeyInfo → Gate

abbrev pub on_verdict : Verdict → Gate
on_verdict (denied message) = rejects 401 message
on_verdict (granted k touched) = passes k

unfoldable pub authenticate : Auth → Users → Credentials → Gate
unfolding validate_token extract_token
authenticate auth users c =
    if extract_token c == ""
    then rejects 401 "missing or invalid API key"
    else on_verdict (validate_token auth users (extract_token c))

-- Behind `authenticate`, which always sets the key of the context.
unfoldable pub require_surface : String → Gate → Gate
require_surface surface (rejects status message) = rejects status message
require_surface surface (passes k) =
    if k.is_admin || allows_surface k.allowed_surface surface
    then passes k
    else rejects 403 ("API key cannot access the " <> surface <> " surface")

unfoldable pub require_admin : Gate → Gate
require_admin (rejects status message) = rejects status message
require_admin (passes k) = if k.is_admin then passes k else rejects 403 "admin access required"
