-- ===== src/Server/Users/Hashes.antt =====
-- Which row of the table of users a token finds after a change of the table.
use text.Mathlib.TextEquality.{eq_iff}
use llm_broker.Prelude.{
  String, true, false, [], ◌∷◌, none, some, ◌≡◌, refl, ◌⊎◌, inl, inr, arith, Entries, Unique,
  lookup, insert, delete, ◌==◌, string_eq, Bool-cases,
}
use llm_broker.Store.Users.{User, Users, get_user_by_token_hash}

-- Only the row of this id has the hash.
abbrev pub IsOwn : String → String → String → User → Type 0
IsOwn hash id key u = (key ≡ id) ⊎ ((u.token_hash == hash) ≡ false)

-- No token of the hash gets in by this row.
abbrev pub IsShut : String → String → User → Type 0
IsShut hash key u = ((u.token_hash == hash) ≡ false) ⊎ ((u.status == "active") ≡ false)

pub user_by_hash-none :
    (hash : String) (users : Users)
    → Entries (λ key u. (u.token_hash == hash) ≡ false) users
    → get_user_by_token_hash hash users ≡ none
unfolding get_user_by_token_hash
user_by_hash-none hash [] es = refl
user_by_hash-none hash ((key, u) ∷ users) es = rw es.0 (user_by_hash-none hash users es.1)

-- A row with the hash in a table that had none of it is the one that is found.
pub user_by_hash-insert :
    (hash : String) (u : User) (users : Users)
    → Entries (λ key v. (v.token_hash == hash) ≡ false) users
    → (u.token_hash == hash) ≡ true
    → get_user_by_token_hash hash (insert u.id u users) ≡ some u
unfolding get_user_by_token_hash insert
user_by_hash-insert hash u [] es h = rw h refl
user_by_hash-insert hash u ((key, v) ∷ users) es h = elim (Bool-cases (key == u.id)) [
  | inl t ↦ rw (t, insert, get_user_by_token_hash, h) refl
  | inr t ↦ rw (t, insert, get_user_by_token_hash, es.0) (user_by_hash-insert hash u users es.1 h)
]

-- The rows beside that of the id.
others-IsShut :
    (hash id : String) (users : Users)
    → Entries (IsOwn hash id) users
    → lookup id users ≡ none
    → Entries (IsShut hash) users
unfolding lookup
others-IsShut hash id [] es h = tt
others-IsShut hash id ((key, u) ∷ users) es h = elim (Bool-cases (key == id)) [
  | inl t ↦ let z : ⊥ = ground (arith, rw t at h) in elim z [ ]
  | inr t ↦ (ground (arith, es.0, t, eq_iff key id), others-IsShut hash id users es.1 (rw t at h))
]

pub insert-IsShut :
    (hash id : String) (u : User) (users : Users)
    → Entries (IsOwn hash id) users
    → Unique users
    → IsShut hash id u
    → Entries (IsShut hash) (insert id u users)
unfolding insert
insert-IsShut hash id u [] es unique shut = (shut, tt)
insert-IsShut hash id u ((key, v) ∷ users) es unique shut = elim (Bool-cases (key == id)) [
  | inl t ↦
      let same : key ≡ id = ground (arith, eq_iff key id, t) in
      rw t (shut, others-IsShut hash id users es.1 (rw same at unique.0))
  | inr t ↦
      rw t
        (ground (arith, es.0, t, eq_iff key id), insert-IsShut hash id u users es.1 unique.1 shut)
]

pub delete-IsShut :
    (hash id : String) (users : Users)
    → Entries (IsOwn hash id) users
    → Entries (IsShut hash) (delete id users)
unfolding delete
delete-IsShut hash id [] es = tt
delete-IsShut hash id ((key, v) ∷ users) es = elim (Bool-cases (key == id)) [
  | inl t ↦ rw t (delete-IsShut hash id users es.1)
  | inr t ↦ rw t (ground (arith, es.0, t, eq_iff key id), delete-IsShut hash id users es.1)
]
