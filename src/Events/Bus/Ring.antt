-- ===== src/Events/Bus/Ring.antt =====
-- internal/events/bus.go: the copying loop of recentLocked under a write.
use native.Mathlib.Nat.{mod-eq_of_lt, mod-eq-sub-mod}
use llm_broker.Prelude.{
  ℕ, zero, suc, ◌+◌, ◌-◌, ◌%◌, ◌≤◌, ◌<◌, ◌≡◌, ◌≢◌, refl, sym, ap, ◌∙◌, List, [], ◌∷◌, ◌++◌, length,
  ltb, if◌then◌else◌, arith, Bool-cases, inl, inr,
}
use llm_broker.Prelude.Arrays.{get_or, set, get_or-set_self, get_or-set_ne}
use llm_broker.Events.{Event}
use llm_broker.Events.Bus.{copy_from}

-- A position that went round the ring at most once.
pub mod_wrap : (a n : ℕ) → a < n + n → a % n ≡ (if ltb a n then a else a - n)
mod_wrap a n h = elim (Bool-cases (ltb a n)) [
  | inl t ↦ rw t (mod-eq_of_lt {n = a} {m = n} (ground arith))
  | inr t ↦ rw t (
      mod-eq-sub-mod {n = a} {m = n} (ground arith)
      ∙ mod-eq_of_lt {n = a - n} {m = n} (ground arith))
]

module _ (fill : Event) (ring : List Event) (size : ℕ) where
  pub length-copy : (start i n : ℕ) → length (copy_from fill ring size start i n) ≡ n
  unfolding copy_from
  length-copy start i zero = refl
  length-copy start i (suc n) = ap suc (length-copy start (i + 1) n)

  pub copy-snoc :
      (start i n : ℕ)
      → copy_from fill ring size start i (suc n)
        ≡ copy_from fill ring size start i n ++ (get_or ring ((start + (i + n)) % size) fill ∷ [])
  unfolding copy_from
  copy-snoc start i zero = ap (λ k. get_or ring ((start + k) % size) fill ∷ []) (omega arith)
  copy-snoc start i (suc n) =
      ap (λ xs. get_or ring ((start + i) % size) fill ∷ xs)
        (copy-snoc start (i + 1) n
          ∙ ap
              (λ k.
                copy_from fill ring size start (i + 1) n
                ++ (get_or ring ((start + k) % size) fill ∷ []))
              {x = i + 1 + n} {y = i + suc n} (omega arith))

  -- The loop from the next start on.
  pub copy-shift :
      (start i n : ℕ)
      → start < size
      → i + n < size
      → copy_from fill ring size start (i + 1) n ≡ copy_from fill ring size ((start + 1) % size) i n
  unfolding copy_from
  copy-shift start i zero h k = refl
  copy-shift start i (suc n) h k =
      ap (λ j. get_or ring j fill ∷ copy_from fill ring size start (i + 1 + 1) n)
        (ground (
          arith,
          mod_wrap (start + (i + 1)) size,
          mod_wrap (start + 1) size,
          mod_wrap ((start + 1) % size + i) size,
        ))
      ∙ ap (λ xs. get_or ring (((start + 1) % size + i) % size) fill ∷ xs)
          (copy-shift start (i + 1) n h (omega arith))

  -- A write elsewhere is not seen.
  pub copy-set :
      (start i n at : ℕ) (new : Event)
      → ((j : ℕ) → i ≤ j → j < i + n → at ≢ (start + j) % size)
      → copy_from fill (set ring at new) size start i n ≡ copy_from fill ring size start i n
  unfolding copy_from
  copy-set start i zero at new away = refl
  copy-set start i (suc n) at new away =
      ap (λ x. x ∷ copy_from fill (set ring at new) size start (i + 1) n)
        (get_or-set_ne ring at ((start + i) % size) new fill (away i (omega arith) (omega arith)))
      ∙ ap (λ xs. get_or ring ((start + i) % size) fill ∷ xs)
          (copy-set start (i + 1) n at new (λ j p q. away j (omega arith) (omega arith)))

-- A write just after the copied events is copied last.
pub copy-write :
    (fill : Event) (ring : List Event) (size start n at : ℕ) (new : Event)
    → size ≡ length ring
    → start < size
    → n < size
    → at ≡ (start + n) % size
    → copy_from fill (set ring at new) size start 0 (suc n)
      ≡ copy_from fill ring size start 0 n ++ (new ∷ [])
copy-write fill ring size start n at new s h k e =
    copy-snoc fill (set ring at new) size start 0 n
    ∙ ap (λ xs. xs ++ (get_or (set ring at new) ((start + (0 + n)) % size) fill ∷ []))
        (copy-set fill ring size start 0 n at new apart)
    ∙ ap (λ x. copy_from fill ring size start 0 n ++ (x ∷ [])) written
  where
    apart : (j : ℕ) → 0 ≤ j → j < 0 + n → at ≢ (start + j) % size
    apart j p q r = ground (arith, e, r, mod_wrap (start + n) size, mod_wrap (start + j) size)

    inside : at < length ring
    inside = ground (arith, e, s, mod_wrap (start + n) size)

    place : (start + (0 + n)) % size ≡ at
    place = ap (λ k. (start + k) % size) {x = 0 + n} {y = n} (omega arith) ∙ sym e

    written : get_or (set ring at new) ((start + (0 + n)) % size) fill ≡ new
    written =
        ap (λ k. get_or (set ring at new) k fill) place ∙ get_or-set_self ring at new fill inside
