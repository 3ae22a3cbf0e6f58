-- ===== src/Prelude/Text.antt =====
-- The order of strings is strict, and what a text made by `<>` is not.
use Prim.Native.Nat.{compare as compare_ℕ, Ordering}
use Prim.Native.Char.{Char, code}
use Prim.Native.String.{String, [], ◌∷◌, compare, then}
use Prim.Native.String.compare
use mathlib.Core.Path.{◌≡◌, refl, ap, ◌∙◌}
use mathlib.Core.Bool.{true, false, ◌&&◌, ◌||◌}
use native.Mathlib.Omega.{arith}
use text.Mathlib.Text.{is_lt}
use text.Mathlib.TextPositions.{compare_refl}
use llm_broker.Prelude.Tests.{ltb, nat_beq}
use llm_broker.Prelude.Keys.{str_lt}

pub str_lt_irrefl : (s : String) → str_lt s s ≡ false
str_lt_irrefl s = ap is_lt (compare_refl s)

-- The order of two texts from that of their heads and tails.
str_lt-cons :
    (c d : Char) (s t : String)
    → str_lt (c ∷ s) (d ∷ t) ≡ (ltb (code c) (code d) || (nat_beq (code c) (code d) && str_lt s t))
str_lt-cons c d s t = ap is_lt (compare.cons-cons c d s t) ∙ step (compare_ℕ (code c) (code d)) refl
  where
    step :
        (o : Ordering)
        → compare_ℕ (code c) (code d) ≡ o
        → is_lt (then o (compare s t))
          ≡ (ltb (code c) (code d) || (nat_beq (code c) (code d) && str_lt s t))
    step Ordering.lt e = ground arith
    step Ordering.eq e = ground arith
    step Ordering.gt e = ground arith

pub str_lt_trans : (s t u : String) → str_lt s t ≡ true → str_lt t u ≡ true → str_lt s u ≡ true
str_lt_trans [] [] u h k = ground (arith, ap is_lt compare.nil-nil)
str_lt_trans [] (d ∷ t) [] h k = ground (arith, ap is_lt (compare.cons-nil d t))
str_lt_trans [] (d ∷ t) (f ∷ u) h k = ap is_lt (compare.nil-cons f u)
str_lt_trans (c ∷ s) [] u h k = ground (arith, ap is_lt (compare.cons-nil c s))
str_lt_trans (c ∷ s) (d ∷ t) [] h k = ground (arith, ap is_lt (compare.cons-nil d t))
str_lt_trans (c ∷ s) (d ∷ t) (f ∷ u) h k =
    ground
      (arith, str_lt-cons c d s t, str_lt-cons d f t u, str_lt-cons c f s u, str_lt_trans s t u)

-- What is not below a text is not below what that one is not below.
pub str_lt_neg_trans :
    (s t u : String) → str_lt s t ≡ false → str_lt t u ≡ false → str_lt s u ≡ false
str_lt_neg_trans [] [] u h k = k
str_lt_neg_trans [] (d ∷ t) u h k = ground (arith, ap is_lt (compare.nil-cons d t))
str_lt_neg_trans (c ∷ s) t [] h k = ap is_lt (compare.cons-nil c s)
str_lt_neg_trans (c ∷ s) [] (f ∷ u) h k = ground (arith, ap is_lt (compare.nil-cons f u))
str_lt_neg_trans (c ∷ s) (d ∷ t) (f ∷ u) h k =
    ground
      (arith, str_lt-cons c d s t, str_lt-cons d f t u, str_lt-cons c f s u, str_lt_neg_trans s t u)
