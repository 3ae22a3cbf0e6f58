-- ===== src/Pool/Choice/Scan.antt =====
-- What the scan of pool_schedule.go puts into its candidates.
use mathlib.Core.Path.{subst}
use llm_broker.Prelude.{
  String, true, ◌≡◌, refl, sym, ap, ◌∙◌, List, [], ◌∷◌, Option, none, some, inl, inr, arith,
  Bool-cases, Option-cases, Mem, All, Map, Entries, insert-Entries, lookup-Entries, lookup, insert,
  lookup-insert_self, lookup-insert_ne, values, str_lt, ◌==◌, string_eq, beq→eq, eq→beq, Unique,
  insert-Unique, if◌then◌else◌,
}
use llm_broker.Domain.{Account}
use llm_broker.Driver.{SchedulerDriver, CapacityAssessment}
use llm_broker.Pool.{Pool, Env, bucket_key}
use llm_broker.Pool.Availability.{RouteRequest, qualifies, capacity_assessment}
use llm_broker.Pool.Choice.{
  BucketCandidate, add_candidate, snoc, collect, insert_by_key, sort_by_key,
}

Mem-snoc : (xs : List Account) (a b : Account) → Mem a xs → Mem a (snoc xs b)
unfolding snoc
Mem-snoc [] a b m = elim m [ ]
Mem-snoc (x ∷ xs) a b (inl e) = inl e
Mem-snoc (x ∷ xs) a b (inr m) = inr (Mem-snoc xs a b m)

Mem-snoc_self : (xs : List Account) (a : Account) → Mem a (snoc xs a)
unfolding snoc
Mem-snoc_self [] a = inl refl
Mem-snoc_self (x ∷ xs) a = inr (Mem-snoc_self xs a)

All-snoc :
    (P : Account → Type 0) (xs : List Account) (a : Account) → All P xs → P a → All P (snoc xs a)
unfolding snoc
All-snoc P [] a h k = (k, tt)
All-snoc P (x ∷ xs) a h k = (h.0, All-snoc P xs a h.1 k)

Mem-insert_by_key :
    (b c : BucketCandidate) (cs : List BucketCandidate)
    → Mem c (b ∷ cs)
    → Mem c (insert_by_key b cs)
unfolding insert_by_key
Mem-insert_by_key b c [] m = m
Mem-insert_by_key b c (d ∷ cs) m = elim (Bool-cases (str_lt d.key b.key)) [
  | inl t ↦ rw t (past m (Mem-insert_by_key b c cs))
  | inr t ↦ rw t m
]
  where
    past :
        Mem c (b ∷ (d ∷ cs))
        → (Mem c (b ∷ cs) → Mem c (insert_by_key b cs))
        → Mem c (d ∷ insert_by_key b cs)
    past (inl q) ih = inr (ih (inl q))
    past (inr (inl q)) ih = inl q
    past (inr (inr n)) ih = inr (ih (inr n))

-- Sorting loses no candidate.
pub Mem-sort_by_key :
    (c : BucketCandidate) (bs : List BucketCandidate) → Mem c bs → Mem c (sort_by_key bs)
unfolding sort_by_key
Mem-sort_by_key c [] m = m
Mem-sort_by_key c (b ∷ bs) (inl e) = Mem-insert_by_key b c (sort_by_key bs) (inl e)
Mem-sort_by_key c (b ∷ bs) (inr m) =
    Mem-insert_by_key b c (sort_by_key bs) (inr (Mem-sort_by_key c bs m))

module _ (P : BucketCandidate → Type 0) where
  All-insert_by_key :
      (b : BucketCandidate) (cs : List BucketCandidate)
      → P b
      → All P cs
      → All P (insert_by_key b cs)
  unfolding insert_by_key
  All-insert_by_key b [] h hs = (h, tt)
  All-insert_by_key b (c ∷ cs) h hs = ground (arith, All-insert_by_key b cs h hs.1)

  -- Sorting makes up no candidate.
  pub All-sort_by_key : (bs : List BucketCandidate) → All P bs → All P (sort_by_key bs)
  unfolding sort_by_key
  All-sort_by_key [] h = tt
  All-sort_by_key (b ∷ bs) h = All-insert_by_key b (sort_by_key bs) h.0 (All-sort_by_key bs h.1)

abbrev pub HasSome : List Account → Type 0
HasSome [] = ⊥
HasSome (a ∷ as') = Unit

HasSome-snoc : (xs : List Account) (a : Account) → HasSome (snoc xs a)
unfolding snoc
HasSome-snoc [] a = tt
HasSome-snoc (x ∷ xs) a = tt

module _ (e : Env) (drv : SchedulerDriver) (req : RouteRequest) (p : Pool)
    (all : List Account) where
  -- An account of the scan that passed its guards, under its bucket's key.
  pub record Fits (key : String) (a : Account) : Type 0 where
    pub listed : Mem a all
    pub qualified : qualifies e drv req p a ≡ true
    pub keyed : bucket_key a ≡ key

  pub record IsCandidate (key : String) (b : BucketCandidate) : Type 0 where
    pub named : b.key ≡ key
    pub fitting : All (Fits key) b.accts
    pub inhabited : HasSome b.accts

  abbrev Step : Account → Map String BucketCandidate → Map String BucketCandidate
  Step a m =
      insert (bucket_key a)
        (add_candidate (bucket_key a) (capacity_assessment p drv req.model e.now a) a
          (lookup (bucket_key a) m))
        m

  add_candidate-IsCandidate :
      (a : Account) (cap : CapacityAssessment) (m : Map String BucketCandidate)
      → Fits (bucket_key a) a
      → Entries IsCandidate m
      → IsCandidate (bucket_key a) (add_candidate (bucket_key a) cap a (lookup (bucket_key a) m))
  unfolding add_candidate
  add_candidate-IsCandidate a cap m f es = go (lookup (bucket_key a) m) refl
    where
      go :
          (o : Option BucketCandidate)
          → lookup (bucket_key a) m ≡ o
          → IsCandidate (bucket_key a) (add_candidate (bucket_key a) cap a o)
      go none q = record { named = refl; fitting = (f, tt); inhabited = tt }
      go (some b) q =
          let old = lookup-Entries IsCandidate (bucket_key a) b m es q in
          record {
            named = old.named;
            fitting = All-snoc (Fits (bucket_key a)) b.accts a old.fitting f;
            inhabited = HasSome-snoc b.accts a;
          }

  -- Every candidate that the scan ends with was made from accounts that passed.
  pub collect-Entries :
      (as' : List Account) (m : Map String BucketCandidate)
      → All (λ a. Mem a all) as'
      → Entries IsCandidate m
      → Entries IsCandidate (collect e drv req p as' m)
  unfolding collect
  collect-Entries [] m ms es = es
  collect-Entries (a ∷ as') m ms es = elim (Bool-cases (qualifies e drv req p a)) [
    | inl t ↦ rw t (collect-Entries as' (Step a m) ms.1 (added t))
    | inr t ↦ rw t (collect-Entries as' m ms.1 es)
  ]
    where
      added : qualifies e drv req p a ≡ true → Entries IsCandidate (Step a m)
      added t =
          insert-Entries IsCandidate (bucket_key a)
            (add_candidate (bucket_key a) (capacity_assessment p drv req.model e.now a) a
              (lookup (bucket_key a) m))
            m
            (add_candidate-IsCandidate a (capacity_assessment p drv req.model e.now a) m
              (record { listed = ms.0; qualified = t; keyed = refl }) es)
            es

  -- The account is in the candidate of its key.
  abbrev Holds : Account → String → Map String BucketCandidate → Type 0
  Holds a key m = (b : BucketCandidate) × (lookup key m ≡ some b) × Mem a b.accts

  Step-keeps_self :
      (a c : Account) (m : Map String BucketCandidate)
      → Holds a (bucket_key c) m
      → Holds a (bucket_key c) (Step c m)
  unfolding add_candidate
  Step-keeps_self a c m (b, q, n) = (
    add_candidate (bucket_key c) (capacity_assessment p drv req.model e.now c) c
        (lookup (bucket_key c) m),
    lookup-insert_self (bucket_key c) _ m,
    rw q (Mem-snoc b.accts a c n),
  )

  Step-keeps :
      (a c : Account) (key : String) (m : Map String BucketCandidate)
      → Holds a key m
      → Holds a key (Step c m)
  Step-keeps a c key m h = elim (Bool-cases (bucket_key c == key)) [
    | inl t ↦
        subst (λ k. Holds a k m → Holds a k (Step c m)) (beq→eq (bucket_key c) key t)
          (Step-keeps_self a c m) h
    | inr t ↦ (h.0, lookup-insert_ne (bucket_key c) key _ m t ∙ h.1, h.2)
  ]

  Step-adds : (a : Account) (m : Map String BucketCandidate) → Holds a (bucket_key a) (Step a m)
  unfolding add_candidate
  Step-adds a m = (
    add_candidate (bucket_key a) (capacity_assessment p drv req.model e.now a) a
        (lookup (bucket_key a) m),
    lookup-insert_self (bucket_key a) _ m,
    elim (Option-cases (lookup (bucket_key a) m)) [
      | inl q ↦ rw q (inl refl)
      | inr (b, q) ↦ rw q (Mem-snoc_self b.accts a)
    ],
  )

  collect-keeps :
      (as' : List Account) (a : Account) (key : String) (m : Map String BucketCandidate)
      → Holds a key m
      → Holds a key (collect e drv req p as' m)
  unfolding collect
  collect-keeps [] a key m h = h
  collect-keeps (c ∷ as') a key m h = elim (Bool-cases (qualifies e drv req p c)) [
    | inl t ↦ rw t (collect-keeps as' a key (Step c m) (Step-keeps a c key m h))
    | inr t ↦ rw t (collect-keeps as' a key m h)
  ]

  -- Every account that passes its guards is in the candidate of its bucket.
  pub collect-adds :
      (as' : List Account) (a : Account) (m : Map String BucketCandidate)
      → Mem a as'
      → qualifies e drv req p a ≡ true
      → Holds a (bucket_key a) (collect e drv req p as' m)
  unfolding collect
  collect-adds [] a m i t = elim i [ ]
  collect-adds (c ∷ as') a m (inl q) t =
      subst (λ x. Holds a (bucket_key a) (collect e drv req p (x ∷ as') m)) q
        (rw t (collect-keeps as' a (bucket_key a) (Step a m) (Step-adds a m)))
  collect-adds (c ∷ as') a m (inr i) t =
      collect-adds as' a (if qualifies e drv req p c then Step c m else m) i t

-- What the entries hold, without their keys.
pub values-All :
    (P : BucketCandidate → Type 0) (m : Map String BucketCandidate)
    → Entries (λ _. P) m
    → All P (values m)
values-All P [] es = tt
values-All P ((k, b) ∷ m) es = (es.0, values-All P m es.1)

pub lookup-Mem :
    (key : String) (b : BucketCandidate) (m : Map String BucketCandidate)
    → lookup key m ≡ some b
    → Mem b (values m)
unfolding lookup
lookup-Mem key b [] q = cc
lookup-Mem key b ((k, c) ∷ m) q = elim (Bool-cases (k == key)) [
  | inl t ↦ let same : some c ≡ some b = rw t at q in inl (cc)
  | inr t ↦ inr (lookup-Mem key b m (rw t at q))
]

pub collect-Unique :
    (e : Env) (drv : SchedulerDriver) (req : RouteRequest) (p : Pool) (as' : List Account)
    (m : Map String BucketCandidate)
    → Unique m
    → Unique (collect e drv req p as' m)
unfolding collect
collect-Unique e drv req p [] m u = u
collect-Unique e drv req p (a ∷ as') m u = elim (Bool-cases (qualifies e drv req p a)) [
  | inl t ↦ rw t (collect-Unique e drv req p as' _ (insert-Unique (bucket_key a) _ m u))
  | inr t ↦ rw t (collect-Unique e drv req p as' m u)
]

abbrev pub IsNamed : String → BucketCandidate → Type 0
IsNamed key b = b.key ≡ key

-- A candidate is found under its own key.
pub lookup_of_Mem :
    (b : BucketCandidate) (m : Map String BucketCandidate)
    → Mem b (values m)
    → Unique m
    → Entries IsNamed m
    → lookup b.key m ≡ some b
unfolding lookup
lookup_of_Mem b [] i u es = elim i [ ]
lookup_of_Mem b ((k, c) ∷ m) (inl q) u es =
    let same : k ≡ b.key = sym (ap (λ x. x.key) q ∙ es.0) in
    rw (eq→beq k b.key same) (ap some (sym q))
lookup_of_Mem b ((k, c) ∷ m) (inr i) u es = elim (Bool-cases (k == b.key)) [
  | inl t ↦
      let here : lookup b.key m ≡ none = subst (λ j. lookup j m ≡ none) (beq→eq k b.key t) u.0 in
      let there = lookup_of_Mem b m i u.1 es.1 in absurd (ground (arith, here, there))
  | inr t ↦ rw t (lookup_of_Mem b m i u.1 es.1)
]
