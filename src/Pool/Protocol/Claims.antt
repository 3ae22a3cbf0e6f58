-- ===== src/Pool/Protocol/Claims.antt =====
-- internal/pool/pool_schedule.go: affinity claims and the leases that hold them.
use mathlib.Core.Path.{subst, subst₂}
use text.Mathlib.TextEquality.{eq_iff}
use llm_broker.Prelude.{
  ℕ, String, false, ◌≡◌, ◌≢◌, refl, sym, ◌∙◌, inl, inr, List, ◌∷◌, ◌++◌, none, some, arith,
  Bool-cases, lookup, lookup-insert, lookup-insert_self, ◌==◌, string_eq,
}
use llm_broker.Domain.{Account}
use llm_broker.Driver.{SchedulerDriver}
use llm_broker.Pool.{Pool, Env}
use llm_broker.Pool.Routes.{route_eq}
use llm_broker.Pool.Availability.{RouteRequest}
use llm_broker.Pool.Choice.{AttemptLease, lease_account}
use llm_broker.Pool.Lease.{release_affinity_claim}
use llm_broker.Pool.Route.{Round, Outcome, add_claim, granted, refused, waits}
use llm_broker.Pool.Route.Effects.{
  RoundEffect, plain, claiming, failing, unclaimed, waiting, acquire_route-Effect,
}
use llm_broker.Pool.Protocol.{
  System, Step, acquires, fails, blocks, accepts, finishes, others, Reach, here, next,
}
use llm_broker.Pool.Protocol.Pending.{
  Pending, Owns, Owned, Woken, release-Pending, release-removes, release-Woken, add_claim-Woken,
  of_routes, SameClaims-Woken, SameClaims-Owned, lease-SameClaims, Releases, accept_cases,
  finish_cases, Releases-Woken, Releases-Owned,
}

pub record IsLive (s : System) : Type 0 where
  pub owned : Owned s.pool s.leases
  pub woken : Woken s.pool

abbrev granted_to : Outcome → List AttemptLease → List AttemptLease
granted_to (granted l) ls = l ∷ ls
granted_to (refused x) ls = ls
granted_to (waits c) ls = ls

more : (p : Pool) (l : AttemptLease) (ls : List AttemptLease) → Owned p ls → Owned p (l ∷ ls)
more p l ls o key c h = let (w, m, x) = o key c h in (w, inr m, x)

-- The new claim belongs to the new lease.
claim-Owned :
    (r : Pool) (key : String) (l : AttemptLease) (ls : List AttemptLease)
    → Owns l key r.next_claim
    → Owned r ls
    → Owned (add_claim key r) (l ∷ ls)
unfolding add_claim
claim-Owned r key l ls w o k c h = elim (Bool-cases (key == k)) [
  | inl t ↦
      let same : key ≡ k = (eq_iff key k).0 t in
      let number : r.next_claim ≡ c =
        ground (arith, lookup-insert key k r.next_claim r.affinity_claims) in
      (l, inl refl, subst (λ j. Owns l j c) same (subst (Owns l key) number w))
  | inr t ↦
      let old : Pending r k c =
        sym (lookup-insert key k r.next_claim r.affinity_claims ∙ rw t) ∙ h in
      let (x, m, y) = o k c old in (x, inr m, y)
]

lease-Owns :
    (a : Account) (class key : String) (c : ℕ) (p : Pool)
    → key ≢ ""
    → Owns (lease_account a class key (some c) p).1 key c
unfolding lease_account
lease-Owns a class key c p n = record {
  claimed = refl;
  on_key = refl;
  keyed = n;
  unaccepted = refl;
  unfinished = refl;
}

-- A claim that is made and given back in one round leaves the others.
given_up :
    (r : Pool) (key : String) (ls : List AttemptLease)
    → key ≢ ""
    → lookup key r.affinity_claims ≡ none
    → Owned r ls
    → Owned (release_affinity_claim key (some r.next_claim) (add_claim key r)) ls
given_up r key ls n f o k c h = elim (Bool-cases (key == k)) [
  | inl t ↦
      let same : key ≡ k = (eq_iff key k).0 t in
      absurd (
        release-removes key r.next_claim c (add_claim key r) n
          (unfold add_claim in lookup-insert_self key r.next_claim r.affinity_claims)
          (subst
            (λ j. Pending (release_affinity_claim key (some r.next_claim) (add_claim key r)) j c)
            (sym same) h))
  | inr t ↦ o k c (older t (release-Pending key k (some r.next_claim) c (add_claim key r) h))
]
  where
    older : (key == k) ≡ false → Pending (add_claim key r) k c → Pending r k c
    older t q =
        sym (lookup-insert key k r.next_claim r.affinity_claims ∙ rw t) ∙ (unfold add_claim in q)

round-IsLive :
    {e : Env} {drv : SchedulerDriver} {req : RouteRequest} {p : Pool} {rd : Round}
    (ls : List AttemptLease)
    → RoundEffect e drv req p rd
    → Owned p ls
    → Woken p
    → Owned rd.0 (granted_to rd.1 ls) × Woken rd.0
round-IsLive {req = req} ls (plain {l = l} r a class s c w) o k =
    subst (λ g. Owned g.0 (g.1 ∷ ls) × Woken g.0) (sym w)
      (plain_part (lease_account a class req.affinity_key none r).1)
  where
    plain_part :
        (m : AttemptLease)
        → Owned (lease_account a class req.affinity_key none r).0 (m ∷ ls)
          × Woken (lease_account a class req.affinity_key none r).0
    plain_part m =
        let same = lease-SameClaims a class req.affinity_key none r in
        (
          SameClaims-Owned (m ∷ ls) same (more r m ls (SameClaims-Owned ls (of_routes s) o)),
          SameClaims-Woken same (SameClaims-Woken (of_routes s) k),
        )
round-IsLive {req = req} ls (claiming r a class s c n f w) o k =
    subst (λ g. Owned g.0 (g.1 ∷ ls) × Woken g.0) (sym w)
      (claim_part
        (lease_account a class req.affinity_key (some r.next_claim)
          (add_claim req.affinity_key r)).1
        (lease-Owns a class req.affinity_key r.next_claim (add_claim req.affinity_key r) n))
  where
    claim_part :
        (m : AttemptLease)
        → Owns m req.affinity_key r.next_claim
        → Owned
            (lease_account a class req.affinity_key
              (some r.next_claim)
              (add_claim req.affinity_key r)).0
            (m ∷ ls)
          × Woken
              (lease_account a class req.affinity_key
                (some r.next_claim)
                (add_claim req.affinity_key r)).0
    claim_part m x =
        let same =
          lease-SameClaims a class req.affinity_key (some r.next_claim)
            (add_claim req.affinity_key r) in
        (
          SameClaims-Owned (m ∷ ls) same
              (claim-Owned r req.affinity_key m ls x (SameClaims-Owned ls (of_routes s) o)),
          SameClaims-Woken same
              (add_claim-Woken req.affinity_key r f (SameClaims-Woken (of_routes s) k)),
        )
round-IsLive ls (failing s) o k =
    (SameClaims-Owned ls (of_routes s) o, SameClaims-Woken (of_routes s) k)
round-IsLive {req = req} ls (unclaimed r s n f w) o k =
    subst (λ q. Owned q ls × Woken q) (sym w)
      (
        given_up r req.affinity_key ls n f (SameClaims-Owned ls (of_routes s) o),
        release-Woken req.affinity_key (some r.next_claim) (add_claim req.affinity_key r)
            (add_claim-Woken req.affinity_key r f (SameClaims-Woken (of_routes s) k)),
      )
round-IsLive ls (waiting s q) o k =
    (SameClaims-Owned ls (of_routes s) o, SameClaims-Woken (of_routes s) k)

same_place :
    (xs : List AttemptLease) (l l' : AttemptLease) (ys : List AttemptLease) (p q : Pool)
    → q ≡ p
    → l' ≡ l
    → IsLive (record { pool = p; leases = xs ++ (l ∷ ys) })
    → IsLive (record { pool = q; leases = xs ++ (l' ∷ ys) })
same_place xs l l' ys p q a b h =
    subst₂ (λ z m. IsLive (record { pool = z; leases = xs ++ (m ∷ ys) })) (sym a) (sym b) h

released :
    (xs : List AttemptLease) (l l' : AttemptLease) (ys : List AttemptLease) (p q : Pool)
    → Releases l p q
    → IsLive (record { pool = p; leases = xs ++ (l ∷ ys) })
    → IsLive (record { pool = q; leases = xs ++ (l' ∷ ys) })
released xs l l' ys p q r h = record {
  owned = Releases-Owned xs l l' ys p q r h.owned;
  woken = Releases-Woken l p q r h.woken;
}

abbrev After : List AttemptLease → Round → Type 0
After ls rd = Owned rd.0 (granted_to rd.1 ls) × Woken rd.0

-- Every step keeps a lease for each pending claim, and closes the channel of each claim that ends.
pub Step-IsLive : {s t : System} → Step s t → IsLive s → IsLive t
Step-IsLive {s} (acquires e drv req eq) h =
    let r =
      subst (After s.leases) eq
        (round-IsLive s.leases (acquire_route-Effect e drv req s.pool) h.owned h.woken) in
    record { owned = r.0; woken = r.1 }
Step-IsLive {s} (fails e drv req eq) h =
    let r =
      subst (After s.leases) eq
        (round-IsLive s.leases (acquire_route-Effect e drv req s.pool) h.owned h.woken) in
    record { owned = r.0; woken = r.1 }
Step-IsLive {s} (blocks e drv req eq) h =
    let r =
      subst (After s.leases) eq
        (round-IsLive s.leases (acquire_route-Effect e drv req s.pool) h.owned h.woken) in
    record { owned = r.0; woken = r.1 }
Step-IsLive (accepts {p = p} e ttl xs l ys) h = elim (accept_cases e ttl l p) [
  | inl (a, b) ↦ same_place xs l _ ys p _ a b h
  | inr r ↦ released xs l _ ys p _ r h
]
Step-IsLive (finishes {p = p} xs l ys) h = elim (finish_cases l p) [
  | inl (a, b) ↦ same_place xs l _ ys p _ a b h
  | inr r ↦ released xs l _ ys p _ r h
]
Step-IsLive {s} (others q r) h = record {
  owned = SameClaims-Owned s.leases (of_routes r) h.owned;
  woken = SameClaims-Woken (of_routes r) h.woken;
}

-- If every pending claim has an unfinished, unaccepted lease that holds it, and every claim that was
-- made and is not pending has its channel closed, then it is so after any steps.
pub Reach-IsLive : {s t : System} → IsLive s → Reach s t → IsLive t
Reach-IsLive h here = h
Reach-IsLive h (next r st) = Step-IsLive st (Reach-IsLive h r)
