-- ===== src/Store/Ttl.antt =====
-- internal/store/mem.go: TTLMap. Each operation reads the clock once.
use llm_broker.Prelude.{
  ℕ, ◌+◌, String, Bool, true, false, not, ◌&&◌, List, [], ◌∷◌, Option, none, some, Map, lookup,
  insert, delete, ltb, ◌==◌, string_eq, if◌then◌else◌,
}
pub mod View

pub record TtlEntry (V : Type 0) : Type 0 where
  pub value : V
  pub expires_at : ℕ

abbrev pub TtlMap : Type 0 → Type 0
TtlMap V = Map String (TtlEntry V)

module _ {V : Type 0} where
  -- `time.Now().After(e.expiresAt)`
  abbrev pub is_over : ℕ → TtlEntry V → Bool
  is_over now x = ltb x.expires_at now

  unfoldable pub get_ttl : ℕ → String → TtlMap V → Option V
  get_ttl now key m = elim (lookup key m) [
    | none ↦ none
    | some x ↦ if is_over now x then none else some x.value
  ]

  unfoldable pub set_ttl : ℕ → String → V → ℕ → TtlMap V → TtlMap V
  set_ttl now key v ttl m = insert key (record { value = v; expires_at = now + ttl }) m

  unfoldable pub get_and_delete_ttl : ℕ → String → TtlMap V → TtlMap V × Option V
  get_and_delete_ttl now key m = elim (lookup key m) [
    | none ↦ (m, none)
    | some x ↦ if is_over now x then (m, none) else (delete key m, some x.value)
  ]

  unfoldable pub update_ttl : ℕ → String → (V → V) → ℕ → TtlMap V → TtlMap V × Bool
  update_ttl now key change ttl m = elim (lookup key m) [
    | none ↦ (m, false)
    | some x ↦
        if is_over now x
        then (m, false)
        else (insert key (record { value = change x.value; expires_at = now + ttl }) m, true)
  ]

  unfoldable pub entries_ttl : ℕ → TtlMap V → List (String × TtlEntry V)
  entries_ttl now [] = []
  entries_ttl now ((k, x) ∷ m) =
      if is_over now x then entries_ttl now m else (k, x) ∷ entries_ttl now m

  -- `Before` in place of `After`: at the very time of its expiry an entry is replaced.
  unfoldable pub set_nx_ttl : ℕ → String → V → ℕ → TtlMap V → TtlMap V × Bool
  set_nx_ttl now key v ttl m = elim (lookup key m) [
    | none ↦ (set_ttl now key v ttl m, true)
    | some x ↦ if ltb now x.expires_at then (m, false) else (set_ttl now key v ttl m, true)
  ]

  unfoldable pub delete_if_ttl : ℕ → String → (V → Bool) → TtlMap V → TtlMap V × Bool
  delete_if_ttl now key matches m = elim (lookup key m) [
    | none ↦ (m, false)
    | some x ↦
        if is_over now x
        then (m, false)
        else if matches x.value
        then (delete key m, true)
        else (m, false)
  ]

  unfoldable pub cleanup_ttl : ℕ → TtlMap V → TtlMap V
  cleanup_ttl now [] = []
  cleanup_ttl now ((k, x) ∷ m) =
      if is_over now x then cleanup_ttl now m else (k, x) ∷ cleanup_ttl now m
