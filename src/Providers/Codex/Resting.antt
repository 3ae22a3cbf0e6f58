-- ===== src/Providers/Codex/Resting.antt =====
-- When the driver lets a bucket rest, by internal/driver/codex_admin.go.
use mathlib.Core.Path.{subst}
use llm_broker.Prelude.{
  ℕ, ◌<◌, ◌≤◌, String, true, false, ◌||◌, List, [], ◌∷◌, some, ◌≡◌, refl, ap, ◌∙◌, ◌⊎◌, inl, inr,
  arith, All, All-of_Mem, All_at, Mem, ltb, leb, nat_beq, Bool-cases, if◌then◌else◌,
}
use llm_broker.Providers.Codex.{
  Floats, FamilyLimits, CodexState, family, all_families, compute_family_cooldown,
  earliest_cooldown, codex_exhausted_cooldown, serves,
}

module _ (fl : Floats) where
  open fl use {F}

  -- A family that serves has no cooldown, and the other way round.
  serves-cooldown :
      (f : FamilyLimits F) (now : ℕ)
      → serves fl f now ≡ nat_beq (compute_family_cooldown fl f now) 0
  unfolding serves compute_family_cooldown
  serves-cooldown f now = ground arith

  -- Up to its cooldown a family does not serve, and at it it does.
  rests-cooldown :
      (f : FamilyLimits F) (now t : ℕ)
      → now ≤ t
      → t < compute_family_cooldown fl f now
      → serves fl f t ≡ false
  unfolding serves compute_family_cooldown
  rests-cooldown f now t h k = ground arith

  ends-cooldown :
      (f : FamilyLimits F) (now : ℕ)
      → 0 < compute_family_cooldown fl f now
      → (now < compute_family_cooldown fl f now)
        × (serves fl f (compute_family_cooldown fl f now) ≡ true)
  unfolding serves compute_family_cooldown
  ends-cooldown f now h = ground arith

  module _ (s : CodexState F) (now : ℕ) where
    abbrev cooldown_of : String → ℕ
    cooldown_of p = compute_family_cooldown fl (family fl s p) now

    -- What the loop gives over families that all rest, from the earliest cooldown so far.
    record IsEarliest (ps : List String) (earliest r : ℕ) : Type 0 where
      below : All (λ p. (0 < cooldown_of p) × (r ≤ cooldown_of p)) ps
      source : (r ≡ earliest) ⊎ ((p : String) × Mem p ps × (r ≡ cooldown_of p))
      before : (earliest ≡ 0) ⊎ (r ≤ earliest)
      proper : ((earliest ≡ 0) × (ps ≡ [])) ⊎ (0 < r)

    abbrev sooner : ℕ → ℕ → ℕ
    sooner cooldown earliest =
        if nat_beq earliest 0 || ltb cooldown earliest then cooldown else earliest

    earliest_cooldown-IsEarliest :
        (ps : List String) (earliest : ℕ)
        → ((earliest_cooldown fl s now ps earliest ≡ 0)
            × ((p : String) × Mem p ps × (cooldown_of p ≡ 0)))
          ⊎ IsEarliest ps earliest (earliest_cooldown fl s now ps earliest)
    unfolding earliest_cooldown
    earliest_cooldown-IsEarliest [] earliest = inr (record {
      below = tt;
      source = inl refl;
      before = inr (omega arith);
      proper = ground arith;
    })
    earliest_cooldown-IsEarliest (p ∷ ps) earliest = elim (Bool-cases (nat_beq (cooldown_of p) 0)) [
      | inl t ↦ inl (rw t refl, (p, inl refl, ground arith))
      | inr f ↦ rw f (
          extend p ps earliest (ground arith)
            (earliest_cooldown-IsEarliest ps (sooner (cooldown_of p) earliest)))
    ]
      where
        extend :
            (p : String) (ps : List String) (earliest : ℕ)
            → 0 < cooldown_of p
            → ((earliest_cooldown fl s now ps (sooner (cooldown_of p) earliest) ≡ 0)
                × ((q : String) × Mem q ps × (cooldown_of q ≡ 0)))
              ⊎ IsEarliest ps
                  (sooner (cooldown_of p) earliest)
                  (earliest_cooldown fl s now ps (sooner (cooldown_of p) earliest))
            → ((earliest_cooldown fl s now ps (sooner (cooldown_of p) earliest) ≡ 0)
                × ((q : String) × Mem q (p ∷ ps) × (cooldown_of q ≡ 0)))
              ⊎ IsEarliest
                  (p ∷ ps)
                  earliest
                  (earliest_cooldown fl s now ps (sooner (cooldown_of p) earliest))
        extend p ps earliest h (inl (z, (q, m, e))) = inl (z, (q, inr m, e))
        extend p ps earliest h (inr i) = inr (record {
          below = ((h, ground (arith, i.before)), i.below);
          source = elim i.source [
            | inl e ↦ elim (Bool-cases (nat_beq earliest 0 || ltb (cooldown_of p) earliest)) [
              | inl t ↦ inr (p, inl refl, e ∙ rw t refl)
              | inr t ↦ inl (e ∙ rw t refl)
            ]
            | inr (q, m, e) ↦ inr (q, inr m, e)
          ];
          before = ground (arith, i.before);
          proper = ground (arith, i.proper);
        })

  -- A known family can serve, or none can.
  abbrev pub Serving : CodexState F → ℕ → Type 0
  Serving s t = (p : String) × Mem p (all_families fl s) × (serves fl (family fl s p) t ≡ true)

  abbrev pub Resting : CodexState F → ℕ → Type 0
  Resting s t = All (λ p. serves fl (family fl s p) t ≡ false) (all_families fl s)

  -- The answer `r` of `ComputeExhaustedCooldown` at `now`, seen at a time `t`: none, as no family is
  -- known or one serves; or a later time at which one serves, and before which none does.
  abbrev pub IsTimely : CodexState F → ℕ → ℕ → ℕ → Type 0
  IsTimely s now t r =
      ((r ≡ 0) × ((all_families fl s ≡ []) ⊎ Serving s now))
      ⊎ ((now < r) × Serving s r × ((t < now) ⊎ ((r ≤ t) ⊎ Resting s t)))

  rest-Resting :
      (s : CodexState F) (now t r : ℕ)
      → now ≤ t
      → t < r
      → All (λ p. (0 < cooldown_of s now p) × (r ≤ cooldown_of s now p)) (all_families fl s)
      → Resting s t
  rest-Resting s now t r h k below =
      All-of_Mem (λ p. serves fl (family fl s p) t ≡ false) (all_families fl s)
        (λ p m.
          let b =
            All_at (λ p. (0 < cooldown_of s now p) × (r ≤ cooldown_of s now p)) (all_families fl s)
              p below m in
          rests-cooldown (family fl s p) now t h (omega (arith, b.1)))

  rest-IsTimely :
      (s : CodexState F) (now t r : ℕ)
      → IsEarliest s now (all_families fl s) 0 r
      → (p : String) → Mem p (all_families fl s)
      → r ≡ cooldown_of s now p
      → 0 < r
      → IsTimely s now t r
  rest-IsTimely s now t r i p m e h =
      let ends = ends-cooldown (family fl s p) now (omega (arith, e, h)) in
      inr (
        omega (arith, e, ends.0),
        (p, m, ap (serves fl (family fl s p)) e ∙ ends.1),
        elim (Bool-cases (leb now t)) [
          | inl a ↦ elim (Bool-cases (ltb t r)) [
            | inl b ↦ inr (inr (rest-Resting s now t r (ground arith) (ground arith) i.below))
            | inr b ↦ inr (inl (ground arith))
          ]
          | inr a ↦ inl (ground arith)
        ],
      )

  -- A bucket is not told to rest if its state knows no family or one that can serve now. Otherwise it
  -- rests until a later time, at which a known family can serve, and at no time from now until then
  -- can any.
  pub codex_exhausted_cooldown-IsTimely :
      (s : CodexState F) (now t : ℕ) → IsTimely s now t (codex_exhausted_cooldown fl (some s) now)
  unfolding codex_exhausted_cooldown
  codex_exhausted_cooldown-IsTimely s now t =
      let r : ℕ = earliest_cooldown fl s now (all_families fl s) 0 in
      elim (earliest_cooldown-IsEarliest s now (all_families fl s) 0) [
        | inl (z, (p, m, e)) ↦ inl (z, inr (p, m, serves-cooldown (family fl s p) now ∙ rw e refl))
        | inr i ↦ elim i.source [
          | inl z ↦ elim i.proper [
            | inl (zero, nil) ↦ inl (z, inl nil)
            | inr h ↦ let w : ⊥ = omega (arith, z, h) in elim w [ ]
          ]
          | inr (p, m, e) ↦ elim i.proper [
            | inl (zero, nil) ↦ let w : Mem p [] = subst (Mem p) nil m in elim w [ ]
            | inr h ↦ rest-IsTimely s now t r i p m e h
          ]
        ]
      ]
