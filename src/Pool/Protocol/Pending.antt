-- ===== src/Pool/Protocol/Pending.antt =====
-- internal/pool/pool_schedule.go: what an operation does to the pending claims and to the leases that
-- hold them.
use mathlib.Core.Path.{subst}
use text.Mathlib.TextEquality.{eq_iff}
use llm_broker.Prelude.{
  ℕ, ◌<◌, String, false, ◌≡◌, ◌≢◌, refl, sym, ap, ◌∙◌, ◌⊎◌, inl, inr, List, [], ◌∷◌, ◌++◌, Option,
  none, some, arith, Bool-cases, Option-cases, Mem, lookup, delete, lookup-insert, lookup-delete,
  lookup-insert_self, ◌==◌, string_eq, nat_beq,
}
use llm_broker.Domain.{Account}
use llm_broker.Store.{Write, save_binding}
use llm_broker.Pool.{Pool, Env, write}
use llm_broker.Pool.Routes.{RouteKey, route_eq}
use llm_broker.Pool.Choice.{AttemptLease, lease_account}
use llm_broker.Pool.Lease.{
  release_affinity_claim, lower_load, accept, finish, set_session_binding, binding_row,
}
use llm_broker.Pool.Route.{add_claim}
use llm_broker.Pool.Route.Effects.{SameRoutes}

abbrev pub Pending : Pool → String → ℕ → Type 0
Pending p key c = lookup key p.affinity_claims ≡ some c

pub record Owns (l : AttemptLease) (key : String) (c : ℕ) : Type 0 where
  pub claimed : l.claim ≡ some c
  pub on_key : l.affinity_key ≡ key
  pub keyed : key ≢ ""
  pub unaccepted : l.accepted ≡ false
  pub unfinished : l.terminal ≡ false

abbrev pub Owned : Pool → List AttemptLease → Type 0
Owned p ls = (key : String) (c : ℕ) → Pending p key c → (l : AttemptLease) × Mem l ls × Owns l key c

abbrev pub Woken : Pool → Type 0
Woken p = (c : ℕ) → c < p.next_claim → Mem c p.closed_claims ⊎ ((key : String) × Pending p key c)

-- A release keeps every other claim as it was, and removes its own.
pub release-Pending :
    (key k : String) (claim : Option ℕ) (c : ℕ) (p : Pool)
    → Pending (release_affinity_claim key claim p) k c
    → Pending p k c
unfolding release_affinity_claim
release-Pending key k none c p h = h
release-Pending key k (some d) c p h = ground (arith, lookup-delete key k p.affinity_claims)

pub release-removes :
    (key : String) (c d : ℕ) (p : Pool)
    → key ≢ ""
    → Pending p key c
    → ¬ Pending (release_affinity_claim key (some c) p) key d
unfolding release_affinity_claim
release-removes key c d p n q h =
    ground (arith, eq_iff key "", eq_iff key key, lookup-delete key key p.affinity_claims)

abbrev closed_by : String → ℕ → Pool → Pool
closed_by key c p = record p {
  affinity_claims = delete key p.affinity_claims;
  closed_claims = c ∷ p.closed_claims;
}

release_cases :
    (key : String) (claim : Option ℕ) (p : Pool)
    → (release_affinity_claim key claim p ≡ p)
      ⊎ ((c : ℕ) × Pending p key c × (release_affinity_claim key claim p ≡ closed_by key c p))
unfolding release_affinity_claim
release_cases key none p = inl refl
release_cases key (some c) p = elim (Bool-cases (key == "")) [
  | inl t ↦ inl (rw t)
  | inr t ↦ elim (Option-cases (lookup key p.affinity_claims)) [
    | inl q ↦ inl (rw (t, q))
    | inr (d, q) ↦ elim (Bool-cases (nat_beq d c)) [
      | inl u ↦ inr (c, q ∙ ground arith, rw (t, q) (rw u))
      | inr u ↦ inl (rw (t, q) (rw u))
    ]
  ]
]

closed_by-Woken :
    (key : String) (d : ℕ) (p : Pool) → Pending p key d → Woken p → Woken (closed_by key d p)
closed_by-Woken key d p q w c h = elim (w c h) [
  | inl m ↦ inl (inr m)
  | inr (k, r) ↦ elim (Bool-cases (key == k)) [
    | inl t ↦ inl (inl (ground (arith, eq_iff key k)))
    | inr t ↦ inr (k, lookup-delete key k p.affinity_claims ∙ rw t r)
  ]
]

pub release-Woken :
    (key : String) (claim : Option ℕ) (p : Pool)
    → Woken p
    → Woken (release_affinity_claim key claim p)
release-Woken key claim p w = elim (release_cases key claim p) [
  | inl q ↦ subst Woken (sym q) w
  | inr (c, h, q) ↦ subst Woken (sym q) (closed_by-Woken key c p h w)
]

pub add_claim-Woken :
    (key : String) (p : Pool)
    → lookup key p.affinity_claims ≡ none
    → Woken p
    → Woken (add_claim key p)
unfolding add_claim
add_claim-Woken key p f w c h = elim (Bool-cases (nat_beq c p.next_claim)) [
  | inl t ↦
      inr (key, lookup-insert_self key p.next_claim p.affinity_claims ∙ ap some (ground arith))
  | inr t ↦ elim (w c (ground arith)) [
    | inl m ↦ inl m
    | inr (k, r) ↦
        inr (k, ground (arith, eq_iff key k, lookup-insert key k p.next_claim p.affinity_claims))
  ]
]

-- Claims do not depend on the counts of the routes.
pub record SameClaims (p q : Pool) : Type 0 where
  pub claims : q.affinity_claims ≡ p.affinity_claims
  pub next : q.next_claim ≡ p.next_claim
  pub closed : q.closed_claims ≡ p.closed_claims

pub of_routes : {p q : Pool} → SameRoutes p q → SameClaims p q
of_routes s = record { claims = s.claims; next = s.next; closed = s.closed }

pub SameClaims-Woken : {p q : Pool} → SameClaims p q → Woken p → Woken q
SameClaims-Woken s w c h = elim (w c (subst (λ n. c < n) s.next h)) [
  | inl m ↦ inl (subst (Mem c) (sym s.closed) m)
  | inr (k, r) ↦ inr (k, ap (lookup k) s.claims ∙ r)
]

pub SameClaims-Owned :
    {p q : Pool} (ls : List AttemptLease) → SameClaims p q → Owned p ls → Owned q ls
SameClaims-Owned ls s o key c h = o key c (ap (lookup key) (sym s.claims) ∙ h)

pub lease-SameClaims :
    (a : Account) (class key : String) (claim : Option ℕ) (p : Pool)
    → SameClaims p (lease_account a class key claim p).0
unfolding lease_account
lease-SameClaims a class key claim p = record { claims = refl; next = refl; closed = refl }

lower-SameClaims : (key : RouteKey) (p : Pool) → SameClaims p (lower_load key p)
unfolding lower_load
lower-SameClaims key p = elim (Option-cases (lookup key p.route_loads)) [
  | inl q ↦ rw (q, lower_load) (record { claims = refl; next = refl; closed = refl })
  | inr (l, q) ↦ rw (q, lower_load) (record { claims = refl; next = refl; closed = refl })
]

write-SameClaims : (e : Env) (w : Write) (p : Pool) → SameClaims p (write e w p)
unfolding write
write-SameClaims e w p = elim (Bool-cases (e.accepts w)) [
  | inl q ↦ rw q (record { claims = refl; next = refl; closed = refl })
  | inr q ↦ rw q (record { claims = refl; next = refl; closed = refl })
]

-- A call on a lease either does nothing to the claims and the lease, or releases the lease's claim.
pub record Releases (l : AttemptLease) (p q : Pool) : Type 0 where
  pub before : Pool
  pub same : SameClaims p before
  pub after : q ≡ release_affinity_claim l.affinity_key l.claim before

pub accept_cases :
    (e : Env) (ttl : ℕ) (l : AttemptLease) (p : Pool)
    → (((accept e ttl l p).0 ≡ p) × ((accept e ttl l p).1 ≡ l)) ⊎ Releases l p (accept e ttl l p).0
unfolding accept set_session_binding
accept_cases e ttl l p = elim (Bool-cases l.terminal) [
  | inl t ↦ inl (ground arith, ground arith)
  | inr t ↦ elim (Bool-cases l.accepted) [
    | inl u ↦ inl (ground arith, ground arith)
    | inr u ↦ elim (Bool-cases (l.affinity_key == "")) [
      | inl v ↦ inr (record { before = p; same = keep; after = ground arith })
      | inr v ↦ elim (Bool-cases (l.account.subject == "")) [
        | inl x ↦ inr (record { before = p; same = keep; after = ground arith })
        | inr x ↦
            elim (Bool-cases
              (e.accepts (save_binding (binding_row e l.affinity_key l.account ttl)))) [
                | inl y ↦ inr (record {
                  before = write e (save_binding (binding_row e l.affinity_key l.account ttl)) p;
                  same =
                      write-SameClaims e (save_binding (binding_row e l.affinity_key l.account ttl))
                        p;
                  after = ground arith;
                })
                | inr y ↦ inr (record { before = p; same = keep; after = ground arith })
              ]
      ]
    ]
  ]
]
  where
    keep : SameClaims p p
    keep = record { claims = refl; next = refl; closed = refl }

pub finish_cases :
    (l : AttemptLease) (p : Pool)
    → (((finish l p).0 ≡ p) × ((finish l p).1 ≡ l)) ⊎ Releases l p (finish l p).0
unfolding finish
finish_cases l p = elim (Bool-cases l.terminal) [
  | inl t ↦ inl (ground arith, ground arith)
  | inr t ↦ inr (record {
    before = lower_load l.load_key p;
    same = lower-SameClaims l.load_key p;
    after = ground arith;
  })
]

pub Releases-Woken : (l : AttemptLease) (p q : Pool) → Releases l p q → Woken p → Woken q
Releases-Woken l p q r w =
    subst Woken (sym r.after)
      (release-Woken l.affinity_key l.claim r.before (SameClaims-Woken r.same w))

-- The owner of a claim that is still pending is not the lease that was replaced.
moved :
    (xs : List AttemptLease) (l l' o : AttemptLease) (ys : List AttemptLease)
    → o ≢ l
    → Mem o (xs ++ (l ∷ ys))
    → Mem o (xs ++ (l' ∷ ys))
moved [] l l' o ys n (inl q) = absurd (n q)
moved [] l l' o ys n (inr m) = inr m
moved (x ∷ xs) l l' o ys n (inl q) = inl q
moved (x ∷ xs) l l' o ys n (inr m) = inr (moved xs l l' o ys n m)

release-Owned :
    (xs : List AttemptLease) (l l' : AttemptLease) (ys : List AttemptLease) (p : Pool)
    → Owned p (xs ++ (l ∷ ys))
    → Owned (release_affinity_claim l.affinity_key l.claim p) (xs ++ (l' ∷ ys))
release-Owned xs l l' ys p o key c h =
    let before = release-Pending l.affinity_key key l.claim c p h in
    let (owner, m, w) = o key c before in
    (owner, moved xs l l' owner ys (λ same. not_this owner w same) m, w)
  where
    not_this : (owner : AttemptLease) → Owns owner key c → owner ≢ l
    not_this owner w same =
        let key_of : l.affinity_key ≡ key = sym (ap (λ x. x.affinity_key) same) ∙ w.on_key in
        let claim_of : l.claim ≡ some c = sym (ap (λ x. x.claim) same) ∙ w.claimed in
        release-removes key c c p w.keyed (release-Pending l.affinity_key key l.claim c p h) (
          subst (λ k. Pending (release_affinity_claim k (some c) p) key c) key_of
            (subst (λ cl. Pending (release_affinity_claim l.affinity_key cl p) key c) claim_of h))

pub Releases-Owned :
    (xs : List AttemptLease) (l l' : AttemptLease) (ys : List AttemptLease) (p q : Pool)
    → Releases l p q
    → Owned p (xs ++ (l ∷ ys))
    → Owned q (xs ++ (l' ∷ ys))
Releases-Owned xs l l' ys p q r o =
    subst (λ z. Owned z (xs ++ (l' ∷ ys))) (sym r.after)
      (release-Owned xs l l' ys r.before (SameClaims-Owned (xs ++ (l ∷ ys)) r.same o))
