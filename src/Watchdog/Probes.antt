-- ===== src/Watchdog/Probes.antt =====
-- internal/localcellwatchdog/watchdog.go: what the probes after a repair find.
use llm_broker.Prelude.{
  ℕ, zero, suc, ◌≤◌, String, Bool, true, false, not, ◌&&◌, ◌≡◌, refl, ◌⊎◌, inl, inr, List, [], ◌∷◌,
  ◌++◌, Option, none, some, Option-cases, count_if, nat_beq, arith,
}
use llm_broker.Watchdog.{
  Watchdog, Cell, ProbeResult, CellAnswers, WatchdogError, test_failed, context_ended, WatchdogCall,
  probes, looks_up, adds, restarts, clears, Probed, after_probe, on_probe, probe_from,
}

abbrev pub passed : Option Bool → Bool
passed none = false
passed (some t) = t

abbrev pub broke : Option Bool → Bool
broke none = false
broke (some t) = not t

-- With what the last probe found and whether a cooldown is to be cleared: the address and the service are
-- touched only after a probe that failed, and the cooldown is cleared exactly when the last probe passes.
unfoldable pub is_settled : Option Bool → Bool → List WatchdogCall → Bool
is_settled last due [] = not (passed last && due)
is_settled last due (probes id t ∷ cs) = is_settled t due cs
is_settled last due (looks_up iface ipv6 ∷ cs) = broke last && is_settled last due cs
is_settled last due (adds iface ipv6 ∷ cs) = broke last && is_settled last due cs
is_settled last due (restarts service ∷ cs) = broke last && is_settled last due cs
is_settled last due (clears id ∷ cs) = passed last && (due && is_settled last false cs)

abbrev pub is_probe : WatchdogCall → Bool
is_probe (probes id t) = true
is_probe (looks_up iface ipv6) = false
is_probe (adds iface ipv6) = false
is_probe (restarts service) = false
is_probe (clears id) = false

abbrev pub is_restart : WatchdogCall → Bool
is_restart (restarts service) = true
is_restart (probes id t) = false
is_restart (looks_up iface ipv6) = false
is_restart (adds iface ipv6) = false
is_restart (clears id) = false

abbrev pub is_due : Option ℕ → Bool
is_due none = false
is_due (some t) = true

unfoldable pub all_probes : List WatchdogCall → Bool
all_probes [] = true
all_probes (c ∷ cs) = is_probe c && all_probes cs

unfoldable pub last_of : Option Bool → List WatchdogCall → Option Bool
last_of last [] = last
last_of last (probes id t ∷ cs) = last_of t cs
last_of last (looks_up iface ipv6 ∷ cs) = last_of last cs
last_of last (adds iface ipv6 ∷ cs) = last_of last cs
last_of last (restarts service ∷ cs) = last_of last cs
last_of last (clears id ∷ cs) = last_of last cs

pub is_settled-probes :
    (last : Option Bool) (due : Bool) (cs ds : List WatchdogCall)
    → all_probes cs ≡ true
    → is_settled last due (cs ++ ds) ≡ is_settled (last_of last cs) due ds
unfolding is_settled all_probes last_of
is_settled-probes last due [] ds h = refl
is_settled-probes last due (probes id t ∷ cs) ds h = is_settled-probes t due cs ds h
is_settled-probes last due (looks_up iface ipv6 ∷ cs) ds h = cc
is_settled-probes last due (adds iface ipv6 ∷ cs) ds h = cc
is_settled-probes last due (restarts service ∷ cs) ds h = cc
is_settled-probes last due (clears id ∷ cs) ds h = cc

-- What the result of the probes says of the last of them.
abbrev pub Tells : WatchdogError ⊎ ProbeResult → Option Bool → Type 0
Tells (inl x) last = passed last ≡ false
Tells (inr r) last = last ≡ some r.is_ok

pub record IsProbing (n : ℕ) (before : Option Bool) (p : Probed) : Type 0 where
  pub only : all_probes p.1 ≡ true
  pub few : count_if is_probe p.1 ≤ n
  pub no_restart : count_if is_restart p.1 ≡ 0
  pub tells : Tells p.0 (last_of before p.1)

module _ (w : Watchdog) (cell : Cell) (ans : CellAnswers) where
  IsProbing-after :
      (n : ℕ) (before : Option Bool) (id : String) (t : Option Bool) (p : Probed)
      → IsProbing n t p
      → IsProbing (suc n) before (after_probe (probes id t) p)
  unfolding all_probes last_of count_if
  IsProbing-after n before id t (x, cs) h = record {
    only = h.only;
    few = omega (arith, h.few);
    no_restart = h.no_restart;
    tells = h.tells;
  }

  pub IsProbing-end :
      (n : ℕ) (x : WatchdogError ⊎ ProbeResult) (t : Option Bool)
      → Tells x t
      → IsProbing n t (x, [])
  unfolding all_probes last_of count_if
  IsProbing-end n x t h = record { only = refl; few = omega arith; no_restart = refl; tells = h }

  IsProbing-on_probe :
      (n : ℕ) (is_last ended : Bool) (rest : Probed) (t : Bool) (e : String)
      → IsProbing n (some t) rest
      → IsProbing n
          (some t)
          (on_probe w cell ans is_last ended rest (some (record { is_ok = t; error = e })))
  unfolding on_probe
  IsProbing-on_probe n is_last ended rest true e h =
      IsProbing-end n (inr (record { is_ok = true; error = e })) (some true) refl
  IsProbing-on_probe n true ended rest false e h =
      IsProbing-end n (inr (record { is_ok = false; error = e })) (some false) refl
  IsProbing-on_probe n false true rest false e h =
      IsProbing-end n (inl context_ended) (some false) refl
  IsProbing-on_probe n false false rest false e h = h

  pub IsProbing-probe_from :
      (n i : ℕ) (prev : ProbeResult)
      → IsProbing n (some prev.is_ok) (probe_from w cell ans n i prev)
  unfolding probe_from on_probe
  IsProbing-probe_from zero i prev = IsProbing-end zero (inr prev) (some prev.is_ok) refl
  IsProbing-probe_from (suc n) i prev = elim (Option-cases (ans.test_cell i)) [
    | inl q ↦ rw q (
        IsProbing-after n (some prev.is_ok) cell.id none (inl test_failed, [])
          (IsProbing-end n (inl test_failed) none refl))
    | inr (r, q) ↦ rw q (
        IsProbing-after n (some prev.is_ok) cell.id (some r.is_ok) _ (
          IsProbing-on_probe n (nat_beq n 0) (ans.context_ends i)
            (probe_from w cell ans n (suc i) r) r.is_ok r.error (IsProbing-probe_from n (suc i) r)))
  ]
