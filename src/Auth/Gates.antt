-- ===== src/Auth/Gates.antt =====
-- Who passes the gates of the relay's and of the admin's routes.
use mathlib.Core.Path.{subst}
use text.Mathlib.TextEquality.{eq_iff}
use llm_broker.Prelude.{
  String, true, ◌||◌, [], ◌∷◌, Option, none, some, ◌≡◌, ◌≢◌, refl, sym, ap, ◌∙◌, ◌⊎◌, ◌↔◌, inl, inr,
  arith, Mem, values, ◌==◌, string_eq, Bool-cases, Option-cases,
}
use llm_broker.Domain.Surfaces.{allows_surface}
use llm_broker.Store.Users.{User, Users, get_user_by_token_hash}
use llm_broker.Auth.{
  KeyInfo, Credentials, extract_token, Verdict, denied, granted, admin_info, info_of, on_user,
  on_lookup, Auth, validate_token, Gate, rejects, passes, on_verdict, authenticate, require_surface,
  require_admin,
}

pub user_by_hash-Mem :
    (hash : String) (users : Users) {u : User}
    → get_user_by_token_hash hash users ≡ some u
    → Mem u (values users) × (u.token_hash ≡ hash)
unfolding get_user_by_token_hash
user_by_hash-Mem hash [] e = ground arith
user_by_hash-Mem hash ((id, v) ∷ users) e = elim (Bool-cases (v.token_hash == hash)) [
  | inl t ↦ let same = rw t at e in (inl (ground arith), ground (arith, eq_iff v.token_hash hash))
  | inr t ↦ let (m, h) = user_by_hash-Mem hash users (rw t at e) in (inr m, h)
]

-- A user of the table whom the token stands for and who is active.
pub record IsOwner (auth : Auth) (users : Users) (token : String) (k : KeyInfo) (u : User)
    : Type 0 where
  pub known : Mem u (values users)
  pub hashed : u.token_hash ≡ auth.hash token
  pub active : u.status ≡ "active"
  pub key : k ≡ info_of u

on_user-granted :
    (o : Option User) {k : KeyInfo} {touched : Option String}
    → on_user o ≡ granted k touched
    → (u : User) × (o ≡ some u) × (u.status ≡ "active") × (k ≡ info_of u)
unfolding on_user
on_user-granted none e = ground arith
on_user-granted (some u) e = elim (Bool-cases (u.status == "active")) [
  | inl t ↦ (u, refl, ground (arith, eq_iff u.status "active"), ground (arith, rw t at e))
  | inr t ↦ let z : ⊥ = ground (arith, rw t at e) in elim z [ ]
]

pub validate_token-granted :
    (auth : Auth) (users : Users) (token : String) {k : KeyInfo} {touched : Option String}
    → validate_token auth users token ≡ granted k touched
    → ((token ≡ auth.admin_token) × (k ≡ admin_info)) ⊎ ((u : User) × IsOwner auth users token k u)
unfolding validate_token on_lookup
validate_token-granted auth users token e = elim (Bool-cases (token == auth.admin_token)) [
  | inl t ↦ inl (ground (arith, eq_iff token auth.admin_token), ground (arith, rw t at e))
  | inr t ↦ elim (Option-cases auth.lookup_error) [
    | inl q ↦
        let (u, found, active, key) =
          on_user-granted (get_user_by_token_hash (auth.hash token) users)
            (rw (t, q, on_lookup) at e) in
        let (m, h) = user_by_hash-Mem (auth.hash token) users found in
        inr (u, record { known = m; hashed = h; active = active; key = key })
    | inr (text, q) ↦ let z : ⊥ = ground (arith, e, q, t) in elim z [ ]
  ]
]

authenticate-passes :
    (auth : Auth) (users : Users) (c : Credentials) {k : KeyInfo}
    → authenticate auth users c ≡ passes k
    → (extract_token c ≢ "")
      × (((extract_token c ≡ auth.admin_token) × (k ≡ admin_info))
          ⊎ ((u : User) × IsOwner auth users (extract_token c) k u))
unfolding authenticate
authenticate-passes auth users c {k} e = elim (Bool-cases (extract_token c == "")) [
  | inl t ↦ let z : ⊥ = ground (arith, rw t at e) in elim z [ ]
  | inr t ↦ (
    λ q. ground (arith, eq_iff (extract_token c) "", t, q),
    let (touched, v) =
          on_verdict-passes (validate_token auth users (extract_token c)) (rw t at e) in
        validate_token-granted auth users (extract_token c) v,
  )
]
  where
    on_verdict-passes :
        (v : Verdict)
        → on_verdict v ≡ passes k
        → (touched : Option String) × (v ≡ granted k touched)
    on_verdict-passes (denied message) q = ground arith
    on_verdict-passes (granted j touched) q = (touched, ground arith)

require_surface-passes :
    (surface : String) (g : Gate) {k : KeyInfo}
    → require_surface surface g ≡ passes k
    → (g ≡ passes k) × ((k.is_admin || allows_surface k.allowed_surface surface) ≡ true)
unfolding require_surface
require_surface-passes surface (rejects status message) e = ground arith
require_surface-passes surface (passes j) {k} e =
    elim (Bool-cases (j.is_admin || allows_surface j.allowed_surface surface)) [
      | inl t ↦
          let same : j ≡ k = ground (arith, rw t at e) in
          (
            ap passes same,
            subst (λ i. (i.is_admin || allows_surface i.allowed_surface surface) ≡ true) same t,
          )
      | inr t ↦ let z : ⊥ = ground (arith, rw t at e) in elim z [ ]
    ]

-- A request reaches a handler of a relay route only with a token, and only as the administrator with
-- the administrator's token, or as a user of the table who is active, whose stored hash is that of
-- the token, and who is allowed on the surface of the route.
pub require_surface-IsOwner :
    (surface : String) (auth : Auth) (users : Users) (c : Credentials) {k : KeyInfo}
    → require_surface surface (authenticate auth users c) ≡ passes k
    → (extract_token c ≢ "")
      × (((extract_token c ≡ auth.admin_token) × (k ≡ admin_info))
          ⊎ ((u : User) × IsOwner auth users (extract_token c) k u
              × (allows_surface k.allowed_surface surface ≡ true)))
require_surface-IsOwner surface auth users c {k} e =
    let (passed, allowed) = require_surface-passes surface (authenticate auth users c) e in
    let (present, who) = authenticate-passes auth users c passed in
    (
      present,
      elim who [
        | inl admin ↦ inl admin
        | inr (u, owner) ↦ inr (u, owner, ground (arith, owner.key, allowed))
      ],
    )

require_admin-passes :
    (g : Gate) {k : KeyInfo} → require_admin g ≡ passes k → (g ≡ passes k) × (k.is_admin ≡ true)
unfolding require_admin
require_admin-passes (rejects status message) e = ground arith
require_admin-passes (passes j) e = ground arith

authenticate_admin :
    (auth : Auth) (users : Users) (c : Credentials)
    → extract_token c ≢ ""
    → extract_token c ≡ auth.admin_token
    → authenticate auth users c ≡ passes admin_info
unfolding authenticate validate_token
authenticate_admin auth users c present same =
    ground
      (arith, present, same, eq_iff (extract_token c) "", eq_iff (extract_token c) auth.admin_token)

-- A request reaches a handler of an admin route exactly when its token is the administrator's and is
-- not empty.
pub require_admin_iff :
    (auth : Auth) (users : Users) (c : Credentials) (k : KeyInfo)
    → (require_admin (authenticate auth users c) ≡ passes k)
      ↔ ((extract_token c ≢ "") × (extract_token c ≡ auth.admin_token) × (k ≡ admin_info))
unfolding require_admin
require_admin_iff auth users c k = (
  λ e.
      let (passed, is_admin) = require_admin-passes (authenticate auth users c) e in
      let (present, who) = authenticate-passes auth users c passed in
      elim who [
        | inl (same, key) ↦ (present, same, key)
        | inr (u, owner) ↦ let z : ⊥ = ground (arith, owner.key, is_admin) in elim z [ ]
      ],
  λ (present, same, key).
      ap require_admin (authenticate_admin auth users c present same) ∙ ap passes (sym key),
)
