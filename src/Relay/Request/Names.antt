-- ===== src/Relay/Request/Names.antt =====
-- internal/relay/relay_request.go: requests that differ in a part of their affinity have different names.
use llm_broker.Prelude.{
  ℕ, zero, suc, ◌+◌, ◌-◌, ◌*◌, ◌/◌, ◌%◌, ◌<◌, ◌≤◌, String, ◌≡◌, refl, sym, ap, ◌∙◌, inl, inr, List,
  [], ◌∷◌, ◌++◌, ltb, length, nat_beq, All, Bool-cases, arith, if◌then◌else◌,
}
use mathlib.Core.List.{append_assoc}
use llm_broker.Domain.{Surface, native, compat, any, unset, normalize_surface}
use llm_broker.Domain.Surfaces.{runes, trim_space}
use llm_broker.Relay.Request.{
  RouteAffinity, digits_from, itoa, width, size, surface_text, framed, namespace, affinity_parts,
}

-- The number that digits stand for, after the given one.
value : ℕ → List ℕ → ℕ
value acc [] = acc
value acc (d ∷ ds) = value (acc * 10 + (d - 48)) ds

value-append :
    (acc : ℕ) (ds : List ℕ) (d : ℕ) → value acc (ds ++ (d ∷ [])) ≡ value acc ds * 10 + (d - 48)
unfolding value
value-append acc [] d = refl
value-append acc (x ∷ ds) d = value-append (acc * 10 + (x - 48)) ds d

value-digits_from : (f n : ℕ) → n < f → value 0 (digits_from f n) ≡ n
unfolding digits_from value
value-digits_from zero n h = omega arith
value-digits_from (suc f) n h = elim (Bool-cases (ltb n 10)) [
  | inl t ↦ rw t (omega arith)
  | inr t ↦
      let big : 10 ≤ n = ground (arith, t) in
      rw t (
        omega (
          arith,
          value-append 0 (digits_from f (n / 10)) (48 + n % 10),
          value-digits_from f (n / 10) (omega arith),
        ))
]

abbrev NoColon : List ℕ → Type 0
NoColon = All (λ c. c < 58)

NoColon-append : (xs ys : List ℕ) → NoColon xs → NoColon ys → NoColon (xs ++ ys)
NoColon-append [] ys h k = k
NoColon-append (x ∷ xs) ys h k = (h.0, NoColon-append xs ys h.1 k)

digits_from-NoColon : (f n : ℕ) → NoColon (digits_from f n)
unfolding digits_from
digits_from-NoColon zero n = tt
digits_from-NoColon (suc f) n = elim (Bool-cases (ltb n 10)) [
  | inl t ↦ let small : n < 10 = ground (arith, t) in rw t (omega arith, tt)
  | inr t ↦ rw t (
      NoColon-append (digits_from f (n / 10)) ((48 + n % 10) ∷ []) (digits_from-NoColon f (n / 10))
        (omega arith, tt))
]

abbrev head_or : ℕ → List ℕ → ℕ
head_or d [] = d
head_or d (x ∷ xs) = x

abbrev rest_of : List ℕ → List ℕ
rest_of [] = []
rest_of (x ∷ xs) = xs

-- The part before the first colon, and what follows it.
cut_at_colon :
    (xs ys r s : List ℕ)
    → NoColon xs
    → NoColon ys
    → xs ++ (58 ∷ r) ≡ ys ++ (58 ∷ s)
    → (xs ≡ ys) × (r ≡ s)
cut_at_colon [] [] r s h k e = (refl, cc)
cut_at_colon [] (y ∷ ys) r s h k e = let z : ⊥ = omega (arith, ap (head_or 0) e, k.0) in elim z [ ]
cut_at_colon (x ∷ xs) [] r s h k e = let z : ⊥ = omega (arith, ap (head_or 0) e, h.0) in elim z [ ]
cut_at_colon (x ∷ xs) (y ∷ ys) r s h k e =
    let q = cut_at_colon xs ys r s h.1 k.1 (ap rest_of e) in (λ i. ap (head_or 0) e i ∷ q.0 i, q.1)

cut_at_size : (xs ys r s : List ℕ) → size xs ≡ size ys → xs ++ r ≡ ys ++ s → (xs ≡ ys) × (r ≡ s)
unfolding size
cut_at_size [] [] r s h e = (refl, e)
cut_at_size [] (y ∷ ys) r s h e = ground (arith, h)
cut_at_size (x ∷ xs) [] r s h e = ground (arith, h)
cut_at_size (x ∷ xs) (y ∷ ys) r s h e =
    let same : x ≡ y = ap (head_or 0) e in
    let q = cut_at_size xs ys r s (omega (arith, h, ap width same)) (ap rest_of e) in
    (λ i. same i ∷ q.0 i, q.1)

itoa-injective : (m n : ℕ) → itoa m ≡ itoa n → m ≡ n
unfolding itoa
itoa-injective m n e =
    sym (value-digits_from (suc m) m (omega arith))
    ∙ ap (value 0) e
    ∙ value-digits_from (suc n) n (omega arith)

itoa-NoColon : (n : ℕ) → NoColon (itoa n)
unfolding itoa
itoa-NoColon n = digits_from-NoColon (suc n) n

framed-cut :
    (part other : List ℕ) (r s : List ℕ)
    → framed part ++ r ≡ framed other ++ s
    → (part ≡ other) × (r ≡ s)
unfolding framed
framed-cut part other r s e =
    let joined =
      sym (append_assoc (itoa (size part)) (58 ∷ part) r)
      ∙ e
      ∙ append_assoc (itoa (size other)) (58 ∷ other) s in
    let counts =
      cut_at_colon (itoa (size part)) (itoa (size other)) (part ++ r) (other ++ s)
        (itoa-NoColon (size part)) (itoa-NoColon (size other)) joined in
    cut_at_size part other r s (itoa-injective (size part) (size other) counts.0) counts.1

namespace-injective :
    (ps qs : List (List ℕ)) → length ps ≡ length qs → namespace ps ≡ namespace qs → ps ≡ qs
unfolding namespace
namespace-injective [] [] h e = refl
namespace-injective [] (q ∷ qs) h e = let z : ⊥ = omega (arith, h) in elim z [ ]
namespace-injective (p ∷ ps) [] h e = let z : ⊥ = omega (arith, h) in elim z [ ]
namespace-injective (p ∷ ps) (q ∷ qs) h e =
    let c = framed-cut p q (namespace ps) (namespace qs) e in
    let rest = namespace-injective ps qs (omega (arith, h)) c.1 in λ i. c.0 i ∷ rest i

part_at : ℕ → List (List ℕ) → List ℕ
part_at k [] = []
part_at zero (p ∷ ps) = p
part_at (suc k) (p ∷ ps) = part_at k ps

surface_at : ℕ → Surface
surface_at c =
    if nat_beq c 110
    then native
    else if nat_beq c 99
    then compat
    else if nat_beq c 97
    then any
    else unset

surface_at-surface_text : (s : Surface) → surface_at (head_or 0 (runes (surface_text s))) ≡ s
unfolding surface_at
surface_at-surface_text native = refl
surface_at-surface_text compat = refl
surface_at-surface_text any = refl
surface_at-surface_text unset = refl

-- Two requests have the same name only if they agree in the user, the provider, the surface as it is
-- normalized, the kind of the affinity and its raw key as it is trimmed.
pub namespace-affinity_parts :
    (user_id user_id' provider provider' surface surface' : String) (a a' : RouteAffinity)
    → namespace (affinity_parts user_id provider surface a)
      ≡ namespace (affinity_parts user_id' provider' surface' a')
    → (runes user_id ≡ runes user_id')
      × (runes provider ≡ runes provider')
      × (normalize_surface surface ≡ normalize_surface surface')
      × (runes a.kind ≡ runes a'.kind)
      × (trim_space (runes a.raw_key) ≡ trim_space (runes a'.raw_key))
unfolding part_at
namespace-affinity_parts user_id user_id' provider provider' surface surface' a a' e =
    let same =
      namespace-injective (affinity_parts user_id provider surface a)
        (affinity_parts user_id' provider' surface' a') refl e in
    let surfaces = ap (λ ps. surface_at (head_or 0 (part_at 3 ps))) same in
    (
      ap (part_at 1) same,
      ap (part_at 2) same,
      sym (surface_at-surface_text (normalize_surface surface))
          ∙ surfaces
          ∙ surface_at-surface_text (normalize_surface surface'),
      ap (part_at 4) same,
      ap (part_at 5) same,
    )
