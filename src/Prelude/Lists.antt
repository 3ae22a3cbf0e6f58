-- ===== src/Prelude/Lists.antt =====
-- Lists: tests over all elements, membership by recursion, counting.
use Prim.Native.Nat.{ℕ, suc, ◌+◌}
use mathlib.Core.Path.{◌≡◌, refl, sym, subst}
use mathlib.Core.Logic.{◌⊎◌, inl, inr}
use mathlib.Core.Bool.{Bool, true, false}
use mathlib.Core.List.{List, [], ◌∷◌, ◌++◌}
use native.Mathlib.Omega.{arith}
use llm_broker.Prelude.Tests.{if◌then◌else◌}

module _ {ℓ} {A : Type ℓ} where
  abbrev pub length : List A → ℕ
  length [] = 0
  length (x ∷ xs) = suc (length xs)

  pub length-append : (xs ys : List A) → length (xs ++ ys) ≡ length xs + length ys
  length-append [] ys = omega arith
  length-append (x ∷ xs) ys = omega (arith, length-append xs ys)

module _ {A : Type 0} where
  -- Membership as a type of positions.
  abbrev pub Mem : A → List A → Type 0
  Mem a [] = ⊥
  Mem a (x ∷ xs) = (a ≡ x) ⊎ Mem a xs

  abbrev pub All : (A → Type 0) → List A → Type 0
  All P [] = Unit
  All P (x ∷ xs) = P x × All P xs

  pub All-of_Mem : (P : A → Type 0) (xs : List A) → ((a : A) → Mem a xs → P a) → All P xs
  All-of_Mem P [] h = tt
  All-of_Mem P (x ∷ xs) h = (h x (inl refl), All-of_Mem P xs (λ a m. h a (inr m)))

  pub All_at : (P : A → Type 0) (xs : List A) (a : A) → All P xs → Mem a xs → P a
  All_at P [] a h m = elim m [ ]
  All_at P (x ∷ xs) a h (inl e) = subst P (sym e) h.0
  All_at P (x ∷ xs) a h (inr m) = All_at P xs a h.1 m

  pub Mem_if :
      (t : Bool) (x best : A) (xs : List A) {r : A}
      → Mem r ((if t then x else best) ∷ xs)
      → Mem r (best ∷ (x ∷ xs))
  Mem_if true x best xs m = inr m
  Mem_if false x best xs (inl e) = inl e
  Mem_if false x best xs (inr m) = inr (inr m)

  pub Mem-append_left : (xs ys : List A) (a : A) → Mem a xs → Mem a (xs ++ ys)
  Mem-append_left [] ys a m = elim m [ ]
  Mem-append_left (x ∷ xs) ys a (inl e) = inl e
  Mem-append_left (x ∷ xs) ys a (inr m) = inr (Mem-append_left xs ys a m)

  pub Mem-append_right : (xs ys : List A) (a : A) → Mem a ys → Mem a (xs ++ ys)
  Mem-append_right [] ys a m = m
  Mem-append_right (x ∷ xs) ys a m = inr (Mem-append_right xs ys a m)

module _ {ℓ} {A : Type ℓ} where
  unfoldable pub keep : (A → Bool) → List A → List A
  keep p [] = []
  keep p (x ∷ xs) = if p x then x ∷ keep p xs else keep p xs

  unfoldable pub count_if : (A → Bool) → List A → ℕ
  count_if p [] = 0
  count_if p (x ∷ xs) = if p x then suc (count_if p xs) else count_if p xs

  pub count_if-append :
      (p : A → Bool) (xs ys : List A) → count_if p (xs ++ ys) ≡ count_if p xs + count_if p ys
  unfolding count_if
  count_if-append p [] ys = omega arith
  count_if-append p (x ∷ xs) ys = ground (arith, count_if-append p xs ys)
