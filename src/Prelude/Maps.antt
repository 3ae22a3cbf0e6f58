-- ===== src/Prelude/Maps.antt =====
-- A Go map as an association list, in the order in which an iteration visits it.
use mathlib.Core.Path.{◌≡◌, refl, ◌∙◌, subst₂}
use mathlib.Core.Logic.{inl, inr}
use mathlib.Core.Bool.{true, false}
use mathlib.Core.List.{List, [], ◌∷◌}
use mathlib.Core.Option.{Option, none, some}
use native.Mathlib.Omega.{arith}
use llm_broker.Prelude.Tests.{if◌then◌else◌, Bool-cases}
use llm_broker.Prelude.Keys.{Eq, ◌==◌, beq_self, beq→eq}

abbrev pub Map {ℓ κ} : Type ℓ → Type κ → Type (ℓ ⊔ κ)
Map K V = List (K × V)

module _ {ℓ κ} {K : Type ℓ} {V : Type κ} where
  abbrev pub values : Map K V → List V
  values [] = []
  values ((k, v) ∷ m) = v ∷ values m

module _ {ℓ κ} {K : Type ℓ} {V : Type κ} ⦃e : Eq K⦄ where
  unfoldable pub lookup : K → Map K V → Option V
  lookup key ((name, value) ∷ rest) = if name == key then some value else lookup key rest
  lookup key [] = none

  -- An update keeps the entry's place; a new key goes last.
  unfoldable pub insert : K → V → Map K V → Map K V
  insert key new ((name, old) ∷ rest) =
      if name == key then (key, new) ∷ rest else (name, old) ∷ insert key new rest
  insert key new [] = (key, new) ∷ []

  -- Every entry of the key goes.
  unfoldable pub delete : K → Map K V → Map K V
  delete key ((name, old) ∷ rest) =
      if name == key then delete key rest else (name, old) ∷ delete key rest
  delete key [] = []

  pub lookup-insert :
      (key other : K) (new : V) (rest : Map K V)
      → lookup other (insert key new rest) ≡ (if key == other then some new else lookup other rest)
  unfolding lookup insert
  lookup-insert key other new ((name, old) ∷ rest) = ground (
    arith,
    lookup-insert key other new rest,
    e.same_iff key other,
    e.same_iff name key,
    e.same_iff name other,
  )
  lookup-insert key other new [] = refl

  pub lookup-delete :
      (k j : K) (m : Map K V) → lookup j (delete k m) ≡ (if k == j then none else lookup j m)
  unfolding lookup delete
  lookup-delete k j [] = ground arith
  lookup-delete k j ((i, w) ∷ m) =
      ground (arith, e.same_iff k j, e.same_iff i k, e.same_iff i j, lookup-delete k j m)

  pub lookup-insert_self :
      (key : K) (new : V) (rest : Map K V) → lookup key (insert key new rest) ≡ some new
  lookup-insert_self key new rest = simp (lookup-insert, beq_self)

  pub lookup-delete_self : (k : K) (m : Map K V) → lookup k (delete k m) ≡ none
  lookup-delete_self k m = simp (lookup-delete, beq_self)

  pub lookup-insert_ne :
      (k j : K) (v : V) (m : Map K V) → (k == j) ≡ false → lookup j (insert k v m) ≡ lookup j m
  lookup-insert_ne k j v m h = simp (lookup-insert, h)

  pub lookup-delete_ne :
      (k j : K) (m : Map K V) → (k == j) ≡ false → lookup j (delete k m) ≡ lookup j m
  lookup-delete_ne k j m h = simp (lookup-delete, h)

module _ {K V : Type 0} (P : K → V → Type 0) where
  -- What holds of every entry.
  abbrev pub Entries : Map K V → Type 0
  Entries [] = Unit
  Entries ((k, v) ∷ m) = P k v × Entries m

module _ {K V : Type 0} ⦃e : Eq K⦄ (P : K → V → Type 0) where
  pub insert-Entries :
      (k : K) (v : V) (m : Map K V) → P k v → Entries P m → Entries P (insert k v m)
  unfolding insert
  insert-Entries k v [] h es = (h, tt)
  insert-Entries k v ((j, w) ∷ m) h es = elim (Bool-cases (j == k)) [
    | inl t ↦ rw t (h, es.1)
    | inr t ↦ rw t (es.0, insert-Entries k v m h es.1)
  ]

  pub delete-Entries : (k : K) (m : Map K V) → Entries P m → Entries P (delete k m)
  unfolding delete
  delete-Entries k [] es = tt
  delete-Entries k ((j, w) ∷ m) es = elim (Bool-cases (j == k)) [
    | inl t ↦ rw t (delete-Entries k m es.1)
    | inr t ↦ rw t (es.0, delete-Entries k m es.1)
  ]

  pub lookup-Entries : (k : K) (v : V) (m : Map K V) → Entries P m → lookup k m ≡ some v → P k v
  unfolding lookup
  lookup-Entries k v [] es h = cc
  lookup-Entries k v ((j, w) ∷ m) es h = elim (Bool-cases (j == k)) [
    | inl t ↦ found t (rw t at h)
    | inr t ↦ lookup-Entries k v m es.1 (rw t at h)
  ]
    where
      found : (j == k) ≡ true → some w ≡ some v → P k v
      found t q = let same : w ≡ v = cc in subst₂ P (beq→eq j k t) same es.0

-- No key stands twice.
module _ {K V : Type 0} ⦃e : Eq K⦄ where
  abbrev pub Unique : Map K V → Type 0
  Unique [] = Unit
  Unique ((k, v) ∷ m) = (lookup k m ≡ none) × Unique m

  pub insert-Unique : (k : K) (v : V) (m : Map K V) → Unique m → Unique (insert k v m)
  unfolding insert lookup
  insert-Unique k v [] u = (refl, tt)
  insert-Unique k v ((j, w) ∷ m) u = elim (Bool-cases (j == k)) [
    | inl t ↦ let same : j ≡ k = beq→eq j k t in rw t (rw same at u.0, u.1)
    | inr t ↦ rw t (lookup-insert k j v m ∙ rw (flip j k t) u.0, insert-Unique k v m u.1)
  ]
    where
      flip : (a b : K) → (a == b) ≡ false → (b == a) ≡ false
      flip a b h = ground (arith, e.same_iff a b, e.same_iff b a)

pub ruleset map_laws = (lookup-insert, lookup-delete, lookup-insert_self, lookup-delete_self)
