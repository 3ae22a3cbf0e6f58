-- ===== src/Store/Ttl/View.antt =====
-- internal/store/mem.go: what a TTLMap holds at each time, as a function of the key.
use mathlib.Core.Path.{subst}
use text.Mathlib.TextEquality.{eq_iff}
use llm_broker.Prelude.{
  ℕ, ◌+◌, ◌≤◌, String, true, ◌≡◌, refl, sym, ap, ◌∙◌, inl, inr, [], ◌∷◌, Option, none, some, lookup,
  lookup-insert, lookup-delete, lookup-insert_self, Unique, ltb, ◌==◌, string_eq, if◌then◌else◌,
  arith, Bool-cases,
}
use llm_broker.Store.Ttl.{
  TtlEntry, TtlMap, is_over, get_ttl, set_ttl, get_and_delete_ttl, set_nx_ttl, cleanup_ttl,
}

module _ {V : Type 0} where
  abbrev live : ℕ → Option (TtlEntry V) → Option V
  live now none = none
  live now (some x) = if is_over now x then none else some x.value

  get_ttl-live :
      (now : ℕ) (key : String) (m : TtlMap V) → get_ttl now key m ≡ live now (lookup key m)
  unfolding get_ttl
  get_ttl-live now key m = ground arith

  -- What is taken is what a read would have answered; at the same time or later the key is not found, and
  -- the other keys hold what they held.
  pub get_and_delete_ttl_once :
      (now later : ℕ) (key other : String) (m : TtlMap V)
      → now ≤ later
      → ((get_and_delete_ttl now key m).1 ≡ get_ttl now key m)
        × (get_ttl later other (get_and_delete_ttl now key m).0
            ≡ (if key == other then none else get_ttl later other m))
  unfolding get_and_delete_ttl get_ttl
  get_and_delete_ttl_once now later key other m h =
      (ground arith, ground (arith, eq_iff key other, lookup-delete key other m))

  lookup-cleanup_none :
      (now : ℕ) (key : String) (m : TtlMap V)
      → lookup key m ≡ none
      → lookup key (cleanup_ttl now m) ≡ none
  unfolding cleanup_ttl lookup
  lookup-cleanup_none now key [] q = refl
  lookup-cleanup_none now key ((k, x) ∷ m) q =
      ground (arith, eq_iff k key, lookup-cleanup_none now key m)

  live-over :
      (now later : ℕ) (x : TtlEntry V)
      → now ≤ later
      → is_over now x ≡ true
      → live later (some x) ≡ none
  live-over now later x h o = ground arith

  live-cleanup :
      (now later : ℕ) (key : String) (m : TtlMap V)
      → Unique m
      → now ≤ later
      → live later (lookup key (cleanup_ttl now m)) ≡ live later (lookup key m)
  unfolding cleanup_ttl lookup
  live-cleanup now later key [] u h = refl
  live-cleanup now later key ((k, x) ∷ m) u h = elim (Bool-cases (is_over now x)) [
    | inl o ↦ elim (Bool-cases (k == key)) [
      | inl t ↦
          let gone : lookup key m ≡ none =
            subst (λ j. lookup j m ≡ none) ((eq_iff k key).0 t) u.0 in
          rw (o, t)
            (ap (live later) (lookup-cleanup_none now key m gone) ∙ sym (live-over now later x h o))
      | inr t ↦ rw (o, t) (live-cleanup now later key m u.1 h)
    ]
    | inr o ↦ elim (Bool-cases (k == key)) [
      | inl t ↦ rw (o, t) refl
      | inr t ↦ rw (o, t) (live-cleanup now later key m u.1 h)
    ]
  ]

  -- Where each key has one entry, a cleanup cannot be seen by any read at its time or later.
  pub cleanup_ttl_invisible :
      (now later : ℕ) (key : String) (m : TtlMap V)
      → Unique m
      → now ≤ later
      → get_ttl later key (cleanup_ttl now m) ≡ get_ttl later key m
  cleanup_ttl_invisible now later key m u h =
      get_ttl-live later key (cleanup_ttl now m)
      ∙ live-cleanup now later key m u h
      ∙ sym (get_ttl-live later key m)

  -- `Set` and `Get`: the value is there until its time to live has passed, and other keys keep theirs.
  pub get_ttl-set_ttl :
      (now later ttl : ℕ) (key other : String) (v : V) (m : TtlMap V)
      → get_ttl later other (set_ttl now key v ttl m) ≡ (
          if key == other
          then (if ltb (now + ttl) later then none else some v)
          else get_ttl later other m)
  unfolding set_ttl get_ttl
  get_ttl-set_ttl now later ttl key other v m = ground (
    arith,
    eq_iff key other,
    lookup-insert key other (record { value = v; expires_at = now + ttl }) m,
  )

  -- At the very time at which an entry expires, `Get` still answers it and `SetNX` replaces it.
  pub set_nx_ttl_at_expiry :
      (key : String) (v : V) (ttl : ℕ) (m : TtlMap V) (x : TtlEntry V)
      → lookup key m ≡ some x
      → (get_ttl x.expires_at key m ≡ some x.value)
        × ((set_nx_ttl x.expires_at key v ttl m).1 ≡ true)
        × (lookup key (set_nx_ttl x.expires_at key v ttl m).0
            ≡ some (record { value = v; expires_at = x.expires_at + ttl }))
  unfolding get_ttl set_nx_ttl set_ttl
  set_nx_ttl_at_expiry key v ttl m x q = (
    ground (arith, q),
    ground (arith, q),
    ground (
      arith,
      q,
      lookup-insert_self key (record { value = v; expires_at = x.expires_at + ttl }) m,
    ),
  )
