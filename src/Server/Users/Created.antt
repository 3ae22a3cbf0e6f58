-- ===== src/Server/Users/Created.antt =====
-- internal/server/admin_users.go: the token of a user that was created.
use text.Mathlib.TextEquality.{eq_iff}
use llm_broker.Prelude.{
  String, Bool, true, false, Option, none, some, ◌≡◌, refl, sym, ap, ◌∙◌, inl, inr, arith, Entries,
  ◌==◌, string_eq, Bool-cases,
}
use llm_broker.Auth.{granted, Auth, info_of, on_user, on_lookup, validate_token}
use llm_broker.Domain.Surfaces.{Surface, native, compat, any, unset, normalize_surface}
use llm_broker.Server.Users.Hashes.{user_by_hash-insert}
use llm_broker.Server.Users.{
  Around, UserRequest, NewToken, created, new_user, text_of, parse_user_allowed_surface,
  generate_user_token, create_with, create_valid, handle_create_user, validate_user_bound_account,
}
use llm_broker.Store.Users.{User, Users, create_user}
use llm_broker.Server.Users.Revoked.{answers_ok, generate_user_token-hash}

create_with-created :
    (a : Around) (r : UserRequest) (s : String) (o : Option NewToken) (users : Users)
    {users' : Users} {id name token surface account_id : String}
    → create_with a r s o users ≡ (users', created id name token surface account_id)
    → (t : NewToken) × (o ≡ some t)
      × (users' ≡ create_user (new_user a r s t) users)
      × (created a.new_id r.name t.plaintext s r.bound_account_id
          ≡ created id name token surface account_id)
unfolding create_with
create_with-created a r s none users e = ground (arith, ap (λ r. answers_ok r.1) e)
create_with-created a r s (some t) users e = elim (Bool-cases a.store_fails) [
  | inl q ↦ let z : ⊥ = ground (arith, rw q at e) in elim z [ ]
  | inr q ↦ (t, refl, sym (ap (λ p. p.0) (rw q at e)), ap (λ p. p.1) (rw q at e))
]

create_valid-created :
    (a : Around) (r : UserRequest) (o : Option String) (users : Users) {users' : Users}
    {id name token surface account_id : String}
    → create_valid a r o users ≡ (users', created id name token surface account_id)
    → (s : String) × (o ≡ some s)
      × (create_with a r s (generate_user_token a r.name) users
          ≡ (users', created id name token surface account_id))
unfolding create_valid
create_valid-created a r none users e = ground (arith, ap (λ r. answers_ok r.1) e)
create_valid-created a r (some s) users e =
    elim (Bool-cases (validate_user_bound_account a r.bound_account_id)) [
      | inl q ↦ (s, refl, rw q at e)
      | inr q ↦ let z : ⊥ = ground (arith, rw q at e) in elim z [ ]
    ]

abbrev is_empty_text : Option String → Bool
is_empty_text none = false
is_empty_text (some text) = text == ""

text_of-filled : (s : Surface) {text : String} → text_of s ≡ some text → (text == "") ≡ false
text_of-filled native e = sym (ap is_empty_text e)
text_of-filled compat e = sym (ap is_empty_text e)
text_of-filled any e = sym (ap is_empty_text e)
text_of-filled unset e = ground (arith, e)

parse_surface-filled :
    (raw : String) {text : String}
    → parse_user_allowed_surface raw ≡ some text
    → (text == "") ≡ false
unfolding parse_user_allowed_surface
parse_surface-filled raw e = elim (Bool-cases (raw == "")) [
  | inl t ↦ sym (ap is_empty_text (rw t at e))
  | inr t ↦ text_of-filled (normalize_surface raw) (rw t at e)
]

-- The verdict on a token of a row that was added to a table without its hash.
validate_token-added :
    (auth : Auth) (users : Users) (token : String) (u : User)
    → auth.lookup_error ≡ none
    → (token == auth.admin_token) ≡ false
    → Entries (λ key v. (v.token_hash == auth.hash token) ≡ false) users
    → (u.token_hash == auth.hash token) ≡ true
    → (u.status == "active") ≡ true
    → validate_token auth (create_user u users) token ≡ granted (info_of u) (some u.id)
unfolding validate_token create_user
validate_token-added auth users token u works other fresh h active =
    rw
      (
        other,
        works,
        on_lookup,
        user_by_hash-insert (auth.hash token) u users fresh h,
        on_user,
        active,
      )
      refl

-- The token of a new user, which is not the administrator's and whose hash no user had, stands for
-- that user with the surface and the account of the response.
pub validate_token-created :
    (auth : Auth) (a : Around) (r : UserRequest) (users users' : Users)
    {id name token surface account_id : String}
    → auth.hash ≡ a.hash
    → auth.lookup_error ≡ none
    → (token == auth.admin_token) ≡ false
    → Entries (λ key v. (v.token_hash == auth.hash token) ≡ false) users
    → handle_create_user a (some r) users ≡ (users', created id name token surface account_id)
    → validate_token auth users' token
      ≡ granted
          (record {
            id = id;
            name = name;
            allowed_surface = surface;
            bound_account_id = account_id;
            is_admin = false;
          })
          (some id)
unfolding handle_create_user
validate_token-created auth a r users users' {token} same_hash works other fresh e =
    elim (Bool-cases (r.name == "")) [
      | inl q ↦ let z : ⊥ = ground (arith, rw q at e) in elim z [ ]
      | inr q ↦
          let (s, parsed, e') =
            create_valid-created a r (parse_user_allowed_surface r.allowed_surface) users
              (rw q at e) in
          let (t, made, new, same) =
            create_with-created a r s (generate_user_token a r.name) users e' in
          let hashed : t.hash ≡ auth.hash token =
            generate_user_token-hash a r.name made
            ∙ ap (λ h. h t.plaintext) (sym same_hash)
            ∙ ap auth.hash (ground (arith, same)) in
          let u : User = new_user a r s t in
          ap (λ m. validate_token auth m token) new
          ∙ validate_token-added auth users token u works other fresh
              (ground (arith, eq_iff t.hash (auth.hash token), hashed)) refl
          ∙ ground (arith, same, parse_surface-filled r.allowed_surface parsed)
    ]
