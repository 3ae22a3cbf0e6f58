-- ===== src/Prelude/Arrays.antt =====
-- Go slices as lists with native indices.
use Prim.Native.Nat.{ℕ, zero, suc, ◌-◌, ◌<◌, ◌≤◌}
use mathlib.Core.Path.{◌≡◌, refl, sym, ap, ◌∙◌}
use mathlib.Core.Logic.{◌≢◌, inl, inr}
use mathlib.Core.List.{List, [], ◌∷◌, ◌++◌}
use native.Mathlib.Omega.{arith}
use llm_broker.Prelude.Lists.{length, length-append}
use llm_broker.Prelude.Tests.{leb, Bool-cases}

module _ {ℓ} {A : Type ℓ} where
  abbrev pub replicate : ℕ → A → List A
  replicate zero fill = []
  replicate (suc n) fill = fill ∷ replicate n fill

  abbrev pub take : ℕ → List A → List A
  take zero xs = []
  take (suc n) [] = []
  take (suc n) (x ∷ xs) = x ∷ take n xs

  abbrev pub drop : ℕ → List A → List A
  drop zero xs = xs
  drop (suc n) [] = []
  drop (suc n) (x ∷ xs) = drop n xs

  -- `fill` stands for a read out of range.
  abbrev pub get_or : List A → ℕ → A → A
  get_or (x ∷ xs) zero fill = x
  get_or (x ∷ xs) (suc k) fill = get_or xs k fill
  get_or [] k fill = fill

  -- A write out of range changes nothing.
  abbrev pub set : List A → ℕ → A → List A
  set (x ∷ xs) zero new = new ∷ xs
  set (x ∷ xs) (suc k) new = x ∷ set xs k new
  set [] k new = []

  pub length-replicate : (n : ℕ) (fill : A) → length (replicate n fill) ≡ n
  length-replicate zero fill = refl
  length-replicate (suc n) fill = ap suc (length-replicate n fill)

  pub length-set : (xs : List A) (k : ℕ) (new : A) → length (set xs k new) ≡ length xs
  length-set (x ∷ xs) zero new = refl
  length-set (x ∷ xs) (suc k) new = ap suc (length-set xs k new)
  length-set [] k new = refl

  pub get_or-set_self :
      (xs : List A) (k : ℕ) (new fill : A) → k < length xs → get_or (set xs k new) k fill ≡ new
  get_or-set_self (x ∷ xs) zero new fill h = refl
  get_or-set_self (x ∷ xs) (suc k) new fill h = get_or-set_self xs k new fill (omega arith)
  get_or-set_self [] k new fill h = absurd (omega arith)

  pub get_or-set_ne :
      (xs : List A) (k j : ℕ) (new fill : A)
      → k ≢ j
      → get_or (set xs k new) j fill ≡ get_or xs j fill
  get_or-set_ne (x ∷ xs) zero zero new fill n = absurd (n refl)
  get_or-set_ne (x ∷ xs) zero (suc j) new fill n = refl
  get_or-set_ne (x ∷ xs) (suc k) zero new fill n = refl
  get_or-set_ne (x ∷ xs) (suc k) (suc j) new fill n =
      get_or-set_ne xs k j new fill (λ e. n (ap suc e))
  get_or-set_ne [] k j new fill n = refl

  pub drop-length : (xs ys : List A) → drop (length xs) (xs ++ ys) ≡ ys
  drop-length [] ys = refl
  drop-length (x ∷ xs) ys = drop-length xs ys

  -- The last `n` elements.
  abbrev pub take_last : ℕ → List A → List A
  take_last n xs = drop (length xs - n) xs

  pub take_last_all : (n : ℕ) (xs : List A) → length xs ≤ n → take_last n xs ≡ xs
  take_last_all n xs h = ap (λ k. drop k xs) {x = length xs - n} {y = 0} (omega arith)

  pub drop-append : (k : ℕ) (xs ys : List A) → k ≤ length xs → drop k (xs ++ ys) ≡ drop k xs ++ ys
  drop-append zero xs ys h = refl
  drop-append (suc k) [] ys h = absurd (omega arith)
  drop-append (suc k) (x ∷ xs) ys h = drop-append k xs ys (omega arith)

  pub drop-drop_one : (k : ℕ) (xs : List A) → drop 1 (drop k xs) ≡ drop (suc k) xs
  drop-drop_one zero xs = refl
  drop-drop_one (suc k) [] = refl
  drop-drop_one (suc k) (x ∷ xs) = drop-drop_one k xs

  pub length-drop : (k : ℕ) (xs : List A) → length (drop k xs) ≡ length xs - k
  length-drop zero xs = omega arith
  length-drop (suc k) [] = omega arith
  length-drop (suc k) (x ∷ xs) = omega (arith, length-drop k xs)

  -- An append to the last elements keeps the last of the whole.
  pub take_last-append :
      (n : ℕ) (xs : List A) (x : A)
      → 0 < n
      → take_last n (take_last n xs ++ (x ∷ [])) ≡ take_last n (xs ++ (x ∷ []))
  take_last-append n xs x h = elim (Bool-cases (leb (length xs) n)) [
    | inl t ↦ ap (λ ys. take_last n (ys ++ (x ∷ []))) (take_last_all n xs (ground arith))
    | inr t ↦
        ap (λ k. drop k (drop (length xs - n) xs ++ (x ∷ [])))
          {x = length (drop (length xs - n) xs ++ (x ∷ [])) - n} {y = 1}
          (ground (
            arith,
            length-append (drop (length xs - n) xs) (x ∷ []),
            length-drop (length xs - n) xs,
          ))
        ∙ drop-append 1 (drop (length xs - n) xs) (x ∷ [])
            (ground (arith, length-drop (length xs - n) xs))
        ∙ ap (λ ys. ys ++ (x ∷ [])) (drop-drop_one (length xs - n) xs)
        ∙ sym (drop-append (suc (length xs - n)) xs (x ∷ []) (ground arith))
        ∙ ap (λ k. drop k (xs ++ (x ∷ []))) {x = suc (length xs - n)}
            {y = length (xs ++ (x ∷ [])) - n} (ground (arith, length-append xs (x ∷ [])))
  ]
