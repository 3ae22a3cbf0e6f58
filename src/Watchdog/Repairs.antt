-- ===== src/Watchdog/Repairs.antt =====
-- internal/localcellwatchdog/watchdog.go: when a cell is repaired and when its cooldown is cleared.
use llm_broker.Prelude.{
  ℕ, suc, ◌≤◌, String, Bool, true, false, ◌≡◌, refl, sym, ap, ◌∙◌, ◌⊎◌, inl, inr, List, [], ◌++◌,
  Option, none, some, Bool-cases, count_if-append, Option-cases, count_if, arith,
}
use mathlib.Core.Path.{subst}
use mathlib.Core.List.{append-nil}
use llm_broker.Watchdog.{
  Watchdog, Cell, ProbeResult, CellAnswers, WatchdogError, WatchdogCall, Run, Probed,
  clear_cooldown_if_needed, probe_after_repair, on_repaired, restart, repair, check, reconcile_cell,
  port_of, trims_to, trimmed, label,
}
use llm_broker.Watchdog.Probes.{
  passed, is_settled, is_probe, is_restart, is_due, last_of, is_settled-probes, IsProbing,
  IsProbing-probe_from,
}

module _ (w : Watchdog) (cell : Cell) (ans : CellAnswers) where
  abbrev pub due : Bool
  due = is_due cell.cooldown_until

  record IsRepairing (n m : ℕ) (before : Option Bool) (r : Run) : Type 0 where
    settled : is_settled before due r.1 ≡ true
    probed : count_if is_probe r.1 ≤ n
    restarted : count_if is_restart r.1 ≤ m

  IsRepairing-weaken :
      (n m : ℕ) (before : Option Bool) (r : Run)
      → IsRepairing 0 0 before r
      → IsRepairing n m before r
  IsRepairing-weaken n m before r h = record {
    settled = h.settled;
    probed = omega (arith, h.probed);
    restarted = omega (arith, h.restarted);
  }

  IsRepairing-nil :
      (before : Option Bool) (x : Option WatchdogError)
      → passed before ≡ false
      → IsRepairing 0 0 before (x, [])
  unfolding is_settled count_if
  IsRepairing-nil before x h = record {
    settled = ground (arith, h);
    probed = omega arith;
    restarted = omega arith;
  }

  clear-IsRepairing : IsRepairing 0 0 (some true) (clear_cooldown_if_needed w cell ans)
  unfolding clear_cooldown_if_needed is_settled count_if
  clear-IsRepairing = elim (Option-cases cell.cooldown_until) [
    | inl q ↦ record {
      settled = rw q refl;
      probed = rw q (omega arith);
      restarted = rw q (omega arith);
    }
    | inr (t, q) ↦ record {
      settled = rw q refl;
      probed = rw q (omega arith);
      restarted = rw q (omega arith);
    }
  ]

  IsRepairing-probes :
      (n : ℕ) (before : Option Bool) (x : WatchdogError ⊎ ProbeResult) (cs : List WatchdogCall)
      (r : Run)
      → IsProbing n before (x, cs)
      → IsRepairing 0 0 (last_of before cs) r
      → IsRepairing n 0 before (r.0, cs ++ r.1)
  IsRepairing-probes n before x cs r h k = record {
    settled = is_settled-probes before due cs r.1 h.only ∙ k.settled;
    probed = omega (arith, h.few, k.probed, count_if-append is_probe cs r.1);
    restarted = omega (arith, h.no_restart, k.restarted, count_if-append is_restart cs r.1);
  }

  on_repaired-IsRepairing :
      (n : ℕ) (before : Option Bool) (p : Probed)
      → IsProbing n before p
      → IsRepairing n 0 before (on_repaired w cell ans p)
  unfolding on_repaired
  on_repaired-IsRepairing n before (inl x, cs) h =
      subst (λ ds. IsRepairing n 0 before (some x, ds)) (append-nil cs)
        (IsRepairing-probes n before (inl x) cs (some x, []) h
          (IsRepairing-nil (last_of before cs) (some x) h.tells))
  on_repaired-IsRepairing n before (inr r, cs) h = elim (Bool-cases r.is_ok) [
    | inl t ↦ rw t (
        IsRepairing-probes n before (inr r) cs (clear_cooldown_if_needed w cell ans) h (
          subst (λ l. IsRepairing 0 0 l (clear_cooldown_if_needed w cell ans))
            (sym (h.tells ∙ ap some t)) clear-IsRepairing))
    | inr t ↦ rw t (
        subst (λ ds. IsRepairing n 0 before (none, ds)) (append-nil cs)
          (IsRepairing-probes n before (inr r) cs (none, []) h
            (IsRepairing-nil (last_of before cs) none (ap passed h.tells ∙ t))))
  ]

  restart-IsRepairing :
      (service : String)
      → IsRepairing w.repair_probe_retries 1 (some false) (restart w cell ans service)
  unfolding restart is_settled count_if probe_after_repair
  restart-IsRepairing service = elim (Bool-cases ans.restarts_service) [
    | inl t ↦
        let h : IsRepairing w.repair_probe_retries 0 (some false)
            (on_repaired w cell ans (probe_after_repair w cell ans)) =
          on_repaired-IsRepairing w.repair_probe_retries (some false)
            (probe_after_repair w cell ans)
            (IsProbing-probe_from w cell ans w.repair_probe_retries 1
              (record { is_ok = false; error = "" })) in
        rw t (record {
          settled = h.settled;
          probed = h.probed;
          restarted = omega (arith, h.restarted);
        })
    | inr t ↦ rw t (record { settled = refl; probed = omega arith; restarted = omega arith })
  ]

  repair-IsRepairing :
      (ipv6 : List ℕ) (service : String)
      → IsRepairing w.repair_probe_retries 1 (some false) (repair w cell ans ipv6 service)
  unfolding repair is_settled count_if
  repair-IsRepairing ipv6 service =
      let h : IsRepairing w.repair_probe_retries 1 (some false) (restart w cell ans service) =
        restart-IsRepairing service in
      elim (Option-cases ans.ipv6_present) [
        | inl q ↦ rw q (record { settled = refl; probed = omega arith; restarted = omega arith })
        | inr (b, q) ↦ elim (Bool-cases b) [
          | inl t ↦
              rw (q, t) (record { settled = h.settled; probed = h.probed; restarted = h.restarted })
          | inr t ↦ elim (Bool-cases ans.adds_ipv6) [
            | inl d ↦
                rw (q, t, d)
                  (record { settled = h.settled; probed = h.probed; restarted = h.restarted })
            | inr d ↦
                rw (q, t, d)
                  (record { settled = refl; probed = omega arith; restarted = omega arith })
          ]
        ]
      ]

  check-IsRepairing :
      (ipv6 : List ℕ) (service : String)
      → IsRepairing (suc w.repair_probe_retries) 1 none (check w cell ans ipv6 service)
  unfolding check is_settled count_if
  check-IsRepairing ipv6 service = elim (Option-cases (ans.test_cell 0)) [
    | inl q ↦ rw q (record { settled = refl; probed = omega arith; restarted = omega arith })
    | inr (r, q) ↦ elim (Bool-cases r.is_ok) [
      | inl t ↦
          let h = clear-IsRepairing in
          rw (q, t)
            (record {
              settled = h.settled;
              probed = omega (arith, h.probed);
              restarted = omega (arith, h.restarted);
            })
      | inr t ↦
          let h : IsRepairing w.repair_probe_retries 1 (some false)
              (repair w cell ans ipv6 service) =
            repair-IsRepairing ipv6 service in
          rw (q, t)
            (record {
              settled = h.settled;
              probed = omega (arith, h.probed);
              restarted = h.restarted;
            })
    ]
  ]

  reconcile_cell-IsRepairing :
      IsRepairing (suc w.repair_probe_retries) 1 none (reconcile_cell w cell ans)
  unfolding reconcile_cell is_settled count_if
  reconcile_cell-IsRepairing = elim (Option-cases (port_of cell.proxy)) [
    | inl q ↦
        rw (q, reconcile_cell)
          (IsRepairing-weaken (suc w.repair_probe_retries) 1 none (none, [])
            (IsRepairing-nil none none refl))
    | inr (service, q) ↦ elim (Bool-cases (trims_to (label "ipv6" cell.labels) "")) [
      | inl t ↦
          rw (q, reconcile_cell, t)
            (IsRepairing-weaken (suc w.repair_probe_retries) 1 none (none, [])
              (IsRepairing-nil none none refl))
      | inr t ↦
          let h : IsRepairing (suc w.repair_probe_retries) 1 none
              (check w cell ans (trimmed (label "ipv6" cell.labels)) service) =
            check-IsRepairing (trimmed (label "ipv6" cell.labels)) service in
          rw (q, reconcile_cell, t) h
    ]
  ]

  -- However the services answer, the run over one cell probes it at most once and the configured retries
  -- more, and restarts its service at most once. It looks up and adds the address and restarts the service
  -- only right after a probe that failed, and it clears the cooldown, if the cell has one, exactly when the
  -- last probe passes.
  pub reconcile_cell_bounded :
      (count_if is_probe (reconcile_cell w cell ans).1 ≤ suc w.repair_probe_retries)
      × (count_if is_restart (reconcile_cell w cell ans).1 ≤ 1)
      × (is_settled none due (reconcile_cell w cell ans).1 ≡ true)
  reconcile_cell_bounded =
      let h : IsRepairing (suc w.repair_probe_retries) 1 none (reconcile_cell w cell ans) =
        reconcile_cell-IsRepairing in
      (h.probed, h.restarted, h.settled)
