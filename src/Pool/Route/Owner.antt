-- ===== src/Pool/Route/Owner.antt =====
-- internal/pool/pool_schedule.go: AcquireRoute for a request that requires the owner of its key.
use llm_broker.Prelude.{
  String, true, false, ◌≡◌, ◌≢◌, refl, sym, ◌∙◌, ◌⊎◌, inl, inr, Option, none, some, Bool-cases,
  Option-cases, ◌==◌, string_eq, arith, if◌then◌else◌,
}
use mathlib.Core.Path.{subst}
use text.Mathlib.TextEquality.{eq_iff}
use llm_broker.Domain.{SessionBinding}
use llm_broker.Driver.{SchedulerDriver, require}
use llm_broker.Store.{get_binding, get_session_binding}
use llm_broker.Pool.{Pool, Env, reload_state}
use llm_broker.Pool.Results.{
  PoolError, Result, ok, err, affinity_owner_unavailable, binding_failed, refresh_failed,
}
use llm_broker.Pool.Availability.{RouteRequest}
use llm_broker.Pool.Choice.{AttemptLease}
use llm_broker.Pool.Acquire.{Granted, acquire_locked}
use llm_broker.Pool.Route.{
  Round, granted, refused, account_id_for_binding, has_binding, without_target, try_bound,
  resolve_bound, drop_foreign, check_pin, load_binding, acquire_route,
}

abbrev pub IsGranted : Round → Type 0
IsGranted (q, granted l) = Unit
IsGranted _ = ⊥

Result-cases {ℓ} :
    {A : Type ℓ} (m : Result A) → ((a : A) × (m ≡ ok a)) ⊎ ((x : PoolError) × (m ≡ err x))
Result-cases (ok a) = inl (a, refl)
Result-cases (err x) = inr (x, refl)

-- The lease of the round is what a bound acquire of the binding's account gives.
pub record OwnerServes (e : Env) (drv : SchedulerDriver) (req : RouteRequest) (r : Pool)
    (rd : Round) : Type 0 where
  pub binding : SessionBinding
  pub found : get_session_binding e.now req.affinity_key r.store ≡ some binding
  pub same_provider : binding.provider ≡ drv.provider
  pub present : account_id_for_binding r (some binding) ≢ ""
  pub lease : AttemptLease
  pub after : Pool
  pub acquired :
      acquire_locked e drv req (account_id_for_binding r (some binding)) none r ≡ ok (after, lease)
  pub outcome : rd ≡ (after, granted lease)

module _ (e : Env) (drv : SchedulerDriver) (req : RouteRequest) (p r : Pool)
    (c : req.continuity ≡ require) (h : req.hard_account_id ≡ "") (k : req.affinity_key ≢ "") where
  without_none : ¬ IsGranted (without_target e drv req none r)
  unfolding without_target has_binding
  without_none g = ground (arith, c, eq_iff req.affinity_key "")

  try_bound-require :
      (m : Option SessionBinding) (id : String)
      → ((g : Granted) × (acquire_locked e drv req id none r ≡ ok g)
          × (try_bound e drv req m id r ≡ (g.0, granted g.1)))
        ⊎ (try_bound e drv req m id r ≡ (r, refused affinity_owner_unavailable))
  unfolding try_bound
  try_bound-require m id = elim (Result-cases (acquire_locked e drv req id none r)) [
    | inl (g, q) ↦ inl (g, q, rw (q, try_bound) refl)
    | inr (x, q) ↦ inr (rw (q, h, c, try_bound) refl)
  ]

  resolve_bound-require :
      (m : Option SessionBinding)
      → resolve_bound e drv req m r ≡ (
          if account_id_for_binding r m == ""
          then if has_binding m
            then (r, refused affinity_owner_unavailable)
            else without_target e drv req m r
          else try_bound e drv req m (account_id_for_binding r m) r)
  unfolding resolve_bound
  resolve_bound-require none = rw (h, c) refl
  resolve_bound-require (some b) = rw (h, c) refl

  resolve_absent :
      (b : SessionBinding)
      → (account_id_for_binding r (some b) == "") ≡ true
      → resolve_bound e drv req (some b) r ≡ (r, refused affinity_owner_unavailable)
  unfolding has_binding
  resolve_absent b t = resolve_bound-require (some b) ∙ rw t refl

  resolve_present :
      (b : SessionBinding)
      → (account_id_for_binding r (some b) == "") ≡ false
      → resolve_bound e drv req (some b) r
        ≡ try_bound e drv req (some b) (account_id_for_binding r (some b)) r
  resolve_present b t = resolve_bound-require (some b) ∙ rw t refl

  resolve_some :
      (b : SessionBinding)
      → get_session_binding e.now req.affinity_key r.store ≡ some b
      → b.provider ≡ drv.provider
      → IsGranted (resolve_bound e drv req (some b) r)
      → OwnerServes e drv req r (resolve_bound e drv req (some b) r)
  unfolding has_binding
  resolve_some b f s g = elim (Bool-cases (account_id_for_binding r (some b) == "")) [
    | inl t ↦ absurd (subst IsGranted (resolve_absent b t) g)
    | inr t ↦ elim (try_bound-require (some b) (account_id_for_binding r (some b))) [
      | inl (w, q, x) ↦ record {
        binding = b;
        found = f;
        same_provider = s;
        present = λ n. ground (arith, eq_iff (account_id_for_binding r (some b)) "");
        lease = w.1;
        after = w.0;
        acquired = q;
        outcome = resolve_present b t ∙ x;
      }
      | inr x ↦ absurd (subst IsGranted (resolve_present b t ∙ x) g)
    ]
  ]

  resolve_none : ¬ IsGranted (resolve_bound e drv req none r)
  unfolding account_id_for_binding has_binding
  resolve_none g = without_none (subst IsGranted (resolve_bound-require none) g)

  drop_same :
      (b : SessionBinding)
      → (b.provider == drv.provider) ≡ true
      → drop_foreign e drv req (some b) r ≡ resolve_bound e drv req (some b) r
  unfolding drop_foreign
  drop_same b t = rw t refl

  drop_other :
      (b : SessionBinding)
      → (b.provider == drv.provider) ≡ false
      → drop_foreign e drv req (some b) r ≡ (r, refused affinity_owner_unavailable)
  unfolding drop_foreign
  drop_other b t = rw (t, c) refl

  check_pin-require :
      (m : Option SessionBinding) → check_pin e drv req m r ≡ drop_foreign e drv req m r
  unfolding check_pin
  check_pin-require m = ground (arith, eq_iff req.affinity_key "")

  check_pin-OwnerServes :
      (m : Option SessionBinding)
      → get_session_binding e.now req.affinity_key r.store ≡ m
      → IsGranted (check_pin e drv req m r)
      → OwnerServes e drv req r (check_pin e drv req m r)
  unfolding drop_foreign
  check_pin-OwnerServes none f g =
      absurd (resolve_none (subst IsGranted (check_pin-require none) g))
  check_pin-OwnerServes (some b) f g = elim (Bool-cases (b.provider == drv.provider)) [
    | inl t ↦
        let path : check_pin e drv req (some b) r ≡ resolve_bound e drv req (some b) r =
          check_pin-require (some b) ∙ drop_same b t in
        subst (OwnerServes e drv req r) (sym path)
          (resolve_some b f ((eq_iff b.provider drv.provider).0 t) (subst IsGranted path g))
    | inr t ↦ absurd (subst IsGranted (check_pin-require (some b) ∙ drop_other b t) g)
  ]

  load_binding-require : load_binding e req r ≡ (
      if e.answers (get_binding req.affinity_key)
      then ok (get_session_binding e.now req.affinity_key r.store)
      else err binding_failed)
  unfolding load_binding
  load_binding-require =
      let named : (req.affinity_key == "") ≡ false = ground (arith, eq_iff req.affinity_key "") in
      rw (h, named, load_binding) refl

  round_without :
      (x : PoolError)
      → reload_state e p ≡ some r
      → load_binding e req r ≡ err x
      → acquire_route e drv req p ≡ (r, refused x)
  unfolding acquire_route
  round_without x q s = rw (q, s, acquire_route) refl

  round_with :
      (m : Option SessionBinding)
      → reload_state e p ≡ some r
      → load_binding e req r ≡ ok m
      → acquire_route e drv req p ≡ check_pin e drv req m r
  unfolding acquire_route
  round_with m q s = rw (q, s, acquire_route) refl

  round-OwnerServes :
      reload_state e p ≡ some r
      → IsGranted (acquire_route e drv req p)
      → OwnerServes e drv req r (acquire_route e drv req p)
  round-OwnerServes q g = elim (Bool-cases (e.answers (get_binding req.affinity_key))) [
    | inl t ↦
        let m : Option SessionBinding = get_session_binding e.now req.affinity_key r.store in
        let s : load_binding e req r ≡ ok m = load_binding-require ∙ rw t refl in
        subst (OwnerServes e drv req r) (sym (round_with m q s))
          (check_pin-OwnerServes m refl (subst IsGranted (round_with m q s) g))
    | inr t ↦
        let s : load_binding e req r ≡ err binding_failed = load_binding-require ∙ rw t refl in
        absurd (subst IsGranted (round_without binding_failed q s) g)
  ]

round_unloaded :
    (e : Env) (drv : SchedulerDriver) (req : RouteRequest) (p : Pool)
    → reload_state e p ≡ none
    → acquire_route e drv req p ≡ (p, refused refresh_failed)
unfolding acquire_route
round_unloaded e drv req p q = rw (q, acquire_route) refl

-- A request that requires the owner of its affinity key, and is not pinned, is granted a route only
-- by the bound acquire of the account that the key's binding names, for the binding's own provider.
pub required_owner :
    (e : Env) (drv : SchedulerDriver) (req : RouteRequest) (p : Pool)
    → req.continuity ≡ require
    → req.hard_account_id ≡ ""
    → req.affinity_key ≢ ""
    → IsGranted (acquire_route e drv req p)
    → (r : Pool) × (reload_state e p ≡ some r) × OwnerServes e drv req r (acquire_route e drv req p)
required_owner e drv req p c h k g = elim (Option-cases (reload_state e p)) [
  | inl q ↦ absurd (subst IsGranted (round_unloaded e drv req p q) g)
  | inr (r, q) ↦ (r, q, round-OwnerServes e drv req p r c h k q g)
]
