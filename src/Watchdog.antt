-- ===== src/Watchdog.antt =====
-- internal/localcellwatchdog/watchdog.go: local cells whose proxy fails are repaired. What the services
-- answer about a cell is given; a call yields its error, if any, and the calls that it makes in order.
pub mod Probes
pub mod Repairs
use llm_broker.Prelude.{
  ℕ, zero, suc, ◌+◌, String, Bool, true, false, not, ◌&&◌, ◌||◌, List, [], ◌∷◌, ◌++◌, Option, none,
  some, Map, lookup, ◌⊎◌, inl, inr, nat_beq, ltb, ◌==◌, string_eq, if◌then◌else◌, keep,
}
use llm_broker.Prelude.Int.{ℤ, pos, negsuc}
use llm_broker.Domain.Surfaces.{runes, is_space, drop_spaces, trim_space, same_codes}

pub record Proxy : Type 0 where
  pub type : String
  pub host : String
  pub port : ℤ

pub record Cell : Type 0 where
  pub id : String
  pub name : String
  pub status : String
  pub proxy : Option Proxy
  pub labels : Map String String
  pub cooldown_until : Option ℕ

pub record Options : Type 0 where
  pub iface : String
  pub repair_probe_retries : ℤ
  pub repair_probe_delay : ℤ

pub record Watchdog : Type 0 where
  pub iface : String
  pub repair_probe_retries : ℕ
  pub repair_probe_delay : ℕ

abbrev positive_or : ℕ → ℤ → ℕ
positive_or n (pos zero) = n
positive_or n (pos (suc k)) = suc k
positive_or n (negsuc k) = n

-- The delay is in milliseconds.
unfoldable pub new : Options → Watchdog
new opts = record {
  iface = if opts.iface == "" then "eth0" else opts.iface;
  repair_probe_retries = positive_or 5 opts.repair_probe_retries;
  repair_probe_delay = positive_or 300 opts.repair_probe_delay;
}

abbrev pub label : String → Map String String → String
label k m = elim (lookup k m) [ none ↦ "" | some v ↦ v ]

-- `strings.TrimSpace(text) == expected`, and the text trimmed, as its code points.
unfoldable pub trimmed : String → List ℕ
unfolding trim_space is_space
trimmed text = trim_space (runes text)

unfoldable pub trims_to : String → String → Bool
unfolding trimmed same_codes
trims_to text expected = same_codes (trimmed text) (runes expected)

abbrev is_positive : ℤ → Bool
is_positive (pos n) = ltb 0 n
is_positive (negsuc n) = false

abbrev is_local_proxy : Option Proxy → Bool
is_local_proxy none = false
is_local_proxy (some p) =
    trims_to p.type "socks5" && (trims_to p.host "127.0.0.1" && is_positive p.port)

unfoldable pub is_target_cell : Cell → Bool
unfolding trims_to
is_target_cell c =
    trims_to c.status "active"
    && (is_local_proxy c.proxy
        && (trims_to (label "transport" c.labels) "local-danted"
            && not (trims_to (label "ipv6" c.labels) "")))

unfoldable pub target_cells : List Cell → List Cell
unfolding is_target_cell keep
target_cells cells = keep is_target_cell cells

unfoldable pub service_name_for_port : ℤ → Option String
service_name_for_port (negsuc n) = none
service_name_for_port (pos port) =
    if nat_beq port 11080
    then some "danted-linda.service"
    else if nat_beq port 11082
    then some "danted-cell-uk-linode-02-local.service"
    else if nat_beq port 11083
    then some "danted-cell-uk-linode-03-local.service"
    else none

pub record ProbeResult : Type 0 where
  pub is_ok : Bool
  pub error : String

-- What the client and the runner answer about one cell: the answer to each probe, counted from 0, and
-- whether the context ends in the wait after a probe of the repair.
pub record CellAnswers : Type 0 where
  pub test_cell : ℕ → Option ProbeResult
  pub ipv6_present : Option Bool
  pub adds_ipv6 : Bool
  pub restarts_service : Bool
  pub clears_cooldown : Bool
  pub context_ends : ℕ → Bool

pub data WatchdogError : Type 0 where
  list_failed test_failed present_failed add_failed restart_failed clear_failed context_ended :
      WatchdogError

-- A probe is noted with what it found, if it was answered.
pub data WatchdogCall : Type 0 where
  probes : String → Option Bool → WatchdogCall
  looks_up adds : String → List ℕ → WatchdogCall
  restarts clears : String → WatchdogCall

abbrev pub Run : Type 0
Run = Option WatchdogError × List WatchdogCall

abbrev pub Probed : Type 0
Probed = (WatchdogError ⊎ ProbeResult) × List WatchdogCall

abbrev pub found : Option ProbeResult → Option Bool
found none = none
found (some r) = some r.is_ok

abbrev pub after : WatchdogCall → Run → Run
after c (x, calls) = (x, c ∷ calls)

abbrev pub after_probe : WatchdogCall → Probed → Probed
after_probe c (x, calls) = (x, c ∷ calls)

abbrev pub port_of : Option Proxy → Option String
port_of none = none
port_of (some p) = service_name_for_port p.port

module _ (w : Watchdog) (cell : Cell) (ans : CellAnswers) where
  unfoldable pub clear_cooldown_if_needed : Run
  clear_cooldown_if_needed = elim cell.cooldown_until [
    | none ↦ (none, [])
    | some t ↦ (if ans.clears_cooldown then none else some clear_failed, clears cell.id ∷ [])
  ]

  -- What one probe of the repair leads to; `rest` are the probes after the wait.
  unfoldable pub on_probe : Bool → Bool → Probed → Option ProbeResult → Probed
  on_probe is_last ended rest none = (inl test_failed, [])
  on_probe is_last ended rest (some r) =
      if r.is_ok
      then (inr r, [])
      else if is_last
      then (inr r, [])
      else if ended
      then (inl context_ended, [])
      else rest

  -- The probes from the given one on, `n` at most; the first probe of the cell has the number 0.
  unfoldable pub probe_from : ℕ → ℕ → ProbeResult → Probed
  unfolding on_probe
  probe_from zero i last = (inr last, [])
  probe_from (suc n) i last = after_probe (probes cell.id (found (ans.test_cell i))) (
      on_probe (nat_beq n 0) (ans.context_ends i)
        (probe_from n (suc i) (elim (ans.test_cell i) [ none ↦ last | some r ↦ r ]))
        (ans.test_cell i))

  unfoldable pub probe_after_repair : Probed
  unfolding probe_from
  probe_after_repair = probe_from w.repair_probe_retries 1 (record { is_ok = false; error = "" })

  unfoldable pub on_repaired : Probed → Run
  unfolding clear_cooldown_if_needed
  on_repaired (inl x, calls) = (some x, calls)
  on_repaired (inr r, calls) =
      if r.is_ok
      then (clear_cooldown_if_needed.0, calls ++ clear_cooldown_if_needed.1)
      else (none, calls)

  unfoldable pub restart : String → Run
  unfolding on_repaired probe_after_repair
  restart service =
      after (restarts service)
        (if ans.restarts_service then on_repaired probe_after_repair else (some restart_failed, []))

  unfoldable pub repair : List ℕ → String → Run
  unfolding restart
  repair ipv6 service = after (looks_up w.iface ipv6) (elim ans.ipv6_present [
    | none ↦ (some present_failed, [])
    | some present ↦
        if present
        then restart service
        else after (adds w.iface ipv6)
            (if ans.adds_ipv6 then restart service else (some add_failed, []))
  ])

  unfoldable pub check : List ℕ → String → Run
  unfolding repair clear_cooldown_if_needed
  check ipv6 service = after (probes cell.id (found (ans.test_cell 0))) (elim (ans.test_cell 0) [
    | none ↦ (some test_failed, [])
    | some r ↦ if r.is_ok then clear_cooldown_if_needed else repair ipv6 service
  ])

  -- For a cell with a proxy; a cell without one is no target.
  unfoldable pub reconcile_cell : Run
  unfolding check trims_to service_name_for_port
  reconcile_cell = elim (port_of cell.proxy) [
    | none ↦ (none, [])
    | some service ↦
        if trims_to (label "ipv6" cell.labels) ""
        then (none, [])
        else check (trimmed (label "ipv6" cell.labels)) service
  ]

abbrev pub first_of : Option WatchdogError → Option WatchdogError → Option WatchdogError
first_of none y = y
first_of (some x) y = some x

abbrev pub joined : Run → Run → Run
joined (x, calls) (y, more) = (first_of x y, calls ++ more)

unfoldable pub reconcile_all : Watchdog → (String → CellAnswers) → List Cell → Run
unfolding reconcile_cell
reconcile_all w answers [] = (none, [])
reconcile_all w answers (c ∷ cs) =
    joined (reconcile_cell w c (answers c.id)) (reconcile_all w answers cs)

unfoldable pub run_once : Watchdog → (String → CellAnswers) → Option (List Cell) → Run
unfolding reconcile_all target_cells
run_once w answers none = (some list_failed, [])
run_once w answers (some cells) = reconcile_all w answers (target_cells cells)
