-- ===== src/Pool/Availability/Serves.antt =====
-- internal/pool/pool_schedule.go: when an account can serve a request, said without the order of
-- the guards.
use text.Mathlib.TextEquality.{eq_iff}
use llm_broker.Prelude.{
  ℕ, ◌≤◌, String, Bool, true, false, not, ◌&&◌, ◌≡◌, ◌≢◌, refl, sym, ap, ◌∙◌, ◌↔◌, ◌⊎◌, inl, inr,
  List, [], ◌∷◌, Option, none, some, arith, Bool-cases, not-eq-true, All, if◌then◌else◌, ◌==◌,
  string_eq,
}
use llm_broker.Prelude.Int.{pos, ltb_ℤ}
use llm_broker.Domain.{Account, Status, is_active, CellStatus, EgressCell, ProxyConfig}
use llm_broker.Driver.{SchedulerDriver}
use llm_broker.Pool.{Pool, Env, bucket_key, bucket_state, bucket_cooldown}
use llm_broker.Pool.Buckets.{cell_of, ends_after}
use llm_broker.Pool.Cells.{cell_available, cell_active, has_proxy}
use llm_broker.Pool.Availability.{
  Exclusion, RouteRequest, structurally_available, allowed_on_surface, capacity_assessment,
  excludes_account, excludes_bucket, qualifies,
}

abbrev pub Over : ℕ → Option ℕ → Type 0
Over now none = Unit
Over now (some until) = until ≤ now

abbrev pub IsProxied : Option ProxyConfig → Type 0
IsProxied none = ⊥
IsProxied (some x) = (x.host ≢ "") × (ltb_ℤ (pos 0) x.port ≡ true)

abbrev pub IsUp : CellStatus → Type 0
IsUp CellStatus.unset = Unit
IsUp CellStatus.active = Unit
IsUp _ = ⊥

abbrev pub IsUsable : ℕ → Option EgressCell → Type 0
IsUsable now none = ⊥
IsUsable now (some c) = IsUp c.status × Over now c.cooldown_until × IsProxied c.proxy

abbrev pub Spares : (Exclusion → String) → String → List Exclusion → Type 0
Spares field value = All (λ x. (field x ≡ "") ⊎ (field x ≢ value))

pub record CanServe (e : Env) (drv : SchedulerDriver) (req : RouteRequest) (p : Pool) (a : Account)
    : Type 0 where
  pub spared : Spares (λ x. x.account_id) a.id req.exclusions
  pub provided : a.provider ≡ drv.provider
  pub bucket_spared : Spares (λ x. x.bucket_key) (bucket_key a) req.exclusions
  pub surfaced : allowed_on_surface p a req.surface ≡ true
  pub active : a.status ≡ Status.active
  pub housed : (a.cell_id ≡ "") ⊎ IsUsable e.now (cell_of p a.cell_id)
  pub rested : Over e.now (bucket_cooldown p a)
  pub capable : (drv.assess_capacity (bucket_state p a) req.model e.now).eligible ≡ true

pub excludes_account_iff :
    (xs : List Exclusion) (id : String)
    → (excludes_account xs id ≡ false) ↔ Spares (λ x. x.account_id) id xs
unfolding excludes_account
excludes_account_iff [] id = (λ _. tt, λ _. refl)
excludes_account_iff (x ∷ xs) id = (
  λ h.
      ground
        (arith, eq_iff x.account_id "", eq_iff x.account_id id, (excludes_account_iff xs id).0),
  λ h.
      ground
        (arith, eq_iff x.account_id "", eq_iff x.account_id id, (excludes_account_iff xs id).1),
)

pub excludes_bucket_iff :
    (xs : List Exclusion) (key : String)
    → (excludes_bucket xs key ≡ false) ↔ Spares (λ x. x.bucket_key) key xs
unfolding excludes_bucket
excludes_bucket_iff [] key = (λ _. tt, λ _. refl)
excludes_bucket_iff (x ∷ xs) key = (
  λ h.
      ground
        (arith, eq_iff x.bucket_key "", eq_iff x.bucket_key key, (excludes_bucket_iff xs key).0),
  λ h.
      ground
        (arith, eq_iff x.bucket_key "", eq_iff x.bucket_key key, (excludes_bucket_iff xs key).1),
)

Over-iff : (now : ℕ) (t : Option ℕ) → (ends_after t now ≡ false) ↔ Over now t
Over-iff now none = (λ _. tt, λ _. refl)
Over-iff now (some until) = (λ h. ground arith, λ h. ground arith)

IsProxied-iff : (x : Option ProxyConfig) → (has_proxy x ≡ true) ↔ IsProxied x
IsProxied-iff none = (λ h. cc, λ h. absurd h)
IsProxied-iff (some x) =
    (λ h. ground (arith, eq_iff x.host ""), λ h. ground (arith, eq_iff x.host ""))

IsUp-iff : (s : CellStatus) → (cell_active s ≡ true) ↔ IsUp s
IsUp-iff CellStatus.unset = (λ _. tt, λ _. refl)
IsUp-iff CellStatus.active = (λ _. tt, λ _. refl)
IsUp-iff CellStatus.disabled = (λ h. cc, λ h. absurd h)
IsUp-iff CellStatus.error = (λ h. cc, λ h. absurd h)
IsUp-iff (CellStatus.raw s) = (λ h. cc, λ h. absurd h)

three_guards :
    (a b c : Bool)
    → (if not a then false else if b then false else c) ≡ true
    → (a ≡ true) × (b ≡ false) × (c ≡ true)
three_guards a b c h = ground arith

guards_pass :
    (a b c : Bool)
    → a ≡ true
    → b ≡ false
    → c ≡ true
    → (if not a then false else if b then false else c) ≡ true
guards_pass a b c h k l = ground arith

cell_available_iff :
    (now : ℕ) (c : Option EgressCell) → (cell_available now c ≡ true) ↔ IsUsable now c
unfolding cell_available
cell_available_iff now none = (λ h. cc, λ h. absurd h)
cell_available_iff now (some c) = (
  λ h.
      let g =
        three_guards (cell_active c.status) (ends_after c.cooldown_until now) (has_proxy c.proxy)
          h in
      (
        (IsUp-iff c.status).0 g.0,
        (Over-iff now c.cooldown_until).0 g.1,
        (IsProxied-iff c.proxy).0 g.2,
      ),
  λ u. rw (
    (IsUp-iff c.status).1 u.0,
    (Over-iff now c.cooldown_until).1 u.1,
    (IsProxied-iff c.proxy).1 u.2,
  ),
)

-- The guards that do not depend on the request.
structurally_available_iff :
    (p : Pool) (now : ℕ) (a : Account)
    → (structurally_available p now a ≡ true) ↔ (
        (a.status ≡ Status.active)
        × ((a.cell_id ≡ "") ⊎ IsUsable now (cell_of p a.cell_id))
        × Over now (bucket_cooldown p a))
unfolding structurally_available
structurally_available_iff p now a = (
  λ h.
      let g =
        three_guards (is_active a.status)
          (not (a.cell_id == "") && not (cell_available now (cell_of p a.cell_id)))
          (not (ends_after (bucket_cooldown p a) now)) h in
      (
        ground arith,
        housed g.1,
        (Over-iff now (bucket_cooldown p a)).0
            (not-eq-true (ends_after (bucket_cooldown p a) now) g.2),
      ),
  λ s.
      guards_pass (is_active a.status)
        (not (a.cell_id == "") && not (cell_available now (cell_of p a.cell_id)))
        (not (ends_after (bucket_cooldown p a) now)) (ap is_active s.0) (settled s.1)
        (ap not ((Over-iff now (bucket_cooldown p a)).1 s.2)),
)
  where
    housed :
        (not (a.cell_id == "") && not (cell_available now (cell_of p a.cell_id))) ≡ false
        → (a.cell_id ≡ "") ⊎ IsUsable now (cell_of p a.cell_id)
    housed g = elim (Bool-cases (a.cell_id == "")) [
      | inl q ↦ inl ((eq_iff a.cell_id "").0 q)
      | inr q ↦ inr ((cell_available_iff now (cell_of p a.cell_id)).0 (ground arith))
    ]

    settled :
        (a.cell_id ≡ "") ⊎ IsUsable now (cell_of p a.cell_id)
        → (not (a.cell_id == "") && not (cell_available now (cell_of p a.cell_id))) ≡ false
    settled (inl q) = rw ((eq_iff a.cell_id "").1 q, ◌&&◌)
    settled (inr u) = rw ((cell_available_iff now (cell_of p a.cell_id)).1 u) (ground arith)

capable_iff :
    (p : Pool) (drv : SchedulerDriver) (model : String) (now : ℕ) (a : Account)
    → (capacity_assessment p drv model now a).eligible
      ≡ (drv.assess_capacity (bucket_state p a) model now).eligible
unfolding capacity_assessment
capable_iff p drv model now a = ground arith

abbrev scan_guards : Bool → Bool → Bool → Bool → Bool → Bool → Bool
scan_guards a b c d f g =
    if a
    then false
    else if not b
    then false
    else if c
    then false
    else if not d
    then false
    else if not f
    then false
    else g

scan_guards_iff :
    (a b c d f g : Bool)
    → (scan_guards a b c d f g ≡ true)
      ↔ ((a ≡ false) × (b ≡ true) × (c ≡ false) × (d ≡ true) × (f ≡ true) × (g ≡ true))
scan_guards_iff a b c d f g = (λ h. ground arith, λ h. ground arith)

-- The guards of the scan pass exactly the accounts that can serve the request.
pub qualifies_iff :
    (e : Env) (drv : SchedulerDriver) (req : RouteRequest) (p : Pool) (a : Account)
    → (qualifies e drv req p a ≡ true) ↔ CanServe e drv req p a
unfolding qualifies
qualifies_iff e drv req p a = (
  λ h.
      let g = guards.0 h in
      let free = (structurally_available_iff p e.now a).0 g.4 in
      record {
        spared = (excludes_account_iff req.exclusions a.id).0 g.0;
        provided = (eq_iff a.provider drv.provider).0 g.1;
        bucket_spared = (excludes_bucket_iff req.exclusions (bucket_key a)).0 g.2;
        surfaced = g.3;
        active = free.0;
        housed = free.1;
        rested = free.2;
        capable = sym (capable_iff p drv req.model e.now a) ∙ g.5;
      },
  λ s. guards.1 (
    (excludes_account_iff req.exclusions a.id).1 s.spared,
    (eq_iff a.provider drv.provider).1 s.provided,
    (excludes_bucket_iff req.exclusions (bucket_key a)).1 s.bucket_spared,
    s.surfaced,
    (structurally_available_iff p e.now a).1 (s.active, s.housed, s.rested),
    capable_iff p drv req.model e.now a ∙ s.capable,
  ),
)
  where
    guards : (qualifies e drv req p a ≡ true) ↔ (
        (excludes_account req.exclusions a.id ≡ false)
        × ((a.provider == drv.provider) ≡ true)
        × (excludes_bucket req.exclusions (bucket_key a) ≡ false)
        × (allowed_on_surface p a req.surface ≡ true)
        × (structurally_available p e.now a ≡ true)
        × ((capacity_assessment p drv req.model e.now a).eligible ≡ true))
    guards =
        scan_guards_iff (excludes_account req.exclusions a.id) (a.provider == drv.provider)
          (excludes_bucket req.exclusions (bucket_key a)) (allowed_on_surface p a req.surface)
          (structurally_available p e.now a) (capacity_assessment p drv req.model e.now a).eligible
