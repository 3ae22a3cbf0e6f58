-- ===== src/Pool/Cells.antt =====
-- internal/pool/pool_cells.go: the egress cells of the pool.
use llm_broker.Prelude.{
  ℕ, String, Bool, true, false, ◌&&◌, List, Option, none, some, values, insert, lookup, not, ◌==◌,
  ◌<>◌, string_eq, if◌then◌else◌, nat_beq, map,
}
use llm_broker.Prelude.Int.{pos, ltb_ℤ}
use llm_broker.Domain.{ProxyConfig, CellStatus, EgressCell, hydrate_cell, persist_cell}
use llm_broker.Events.{Event, EventType, blank}
use llm_broker.Store.{save_cell}
use llm_broker.Pool.{Pool, Env, write, publish, reload_state, reload_or_keep}
use llm_broker.Pool.Results.{Result, ok, err, cell_id_required, refresh_failed, store_failed}
use llm_broker.Pool.Buckets.{
  CooldownResult, no_cooldown, ends_after, time_or_zero, clone_cell, cell_of, clone_option,
}

abbrev pub cell_active : CellStatus → Bool
cell_active CellStatus.unset = true
cell_active CellStatus.active = true
cell_active _ = false

abbrev pub has_proxy : Option ProxyConfig → Bool
has_proxy none = false
has_proxy (some p) = not (p.host == "") && ltb_ℤ (pos 0) p.port

-- An empty status counts as active. (The source also writes that into the cell in memory, which
-- the next reload replaces.)
unfoldable pub cell_available : ℕ → Option EgressCell → Bool
cell_available now none = false
cell_available now (some c) =
    if not (cell_active c.status)
    then false
    else if ends_after c.cooldown_until now
    then false
    else has_proxy c.proxy

unfoldable pub get_cell : Env → String → Pool → Pool × Option EgressCell
get_cell e id p = let q : Pool = reload_or_keep e p in (q, clone_option (cell_of q id))

unfoldable pub list_cells : Env → Pool → Pool × List EgressCell
list_cells e p = let q : Pool = reload_or_keep e p in (q, map clone_cell (values q.cells))

abbrev or_now : ℕ → ℕ → ℕ
or_now t now = if nat_beq t 0 then now else t

unfoldable pub put_cell : EgressCell → Pool → Pool
put_cell c p = record p { cells = insert c.id c p.cells }

-- The row that `SaveCell` writes.
unfoldable pub saved_cell : Env → EgressCell → EgressCell
saved_cell e c = record (persist_cell e.codec (clone_cell c)) {
  created_at = or_now c.created_at e.now;
  updated_at = e.now;
}

save_cell_in : Env → EgressCell → Pool → Result Pool
unfolding saved_cell put_cell
save_cell_in e c q =
    if e.accepts (save_cell (saved_cell e c))
    then ok
        (put_cell (hydrate_cell e.codec (saved_cell e c)) (write e (save_cell (saved_cell e c)) q))
    else err store_failed

-- A nil cell is `none`.
unfoldable pub save_egress_cell : Env → Option EgressCell → Pool → Result Pool
unfolding save_cell_in
save_egress_cell e none p = err cell_id_required
save_egress_cell e (some c) p =
    if c.id == ""
    then err cell_id_required
    else elim (reload_state e p) [ none ↦ err refresh_failed | some q ↦ save_cell_in e c q ]

unfoldable pub stamp_cell : Env → EgressCell → EgressCell
stamp_cell e c = record (persist_cell e.codec c) {
  created_at = or_now c.created_at e.now;
  updated_at = or_now c.updated_at e.now;
}

unfoldable pub persist_cell_row : Env → EgressCell → Pool → Pool
unfolding stamp_cell put_cell
persist_cell_row e c p = write e (save_cell (stamp_cell e c)) (put_cell (stamp_cell e c) p)

unfoldable pub apply_cell_cooldown : Env → Option EgressCell → ℕ → Pool → Pool × CooldownResult
unfolding persist_cell_row
apply_cell_cooldown e none proposed p = (p, no_cooldown)
apply_cell_cooldown e (some c) proposed p =
    if ends_after c.cooldown_until proposed
    then (p, record { applied = false; actual = time_or_zero c.cooldown_until })
    else (
      persist_cell_row e (record c { cooldown_until = some proposed; updated_at = e.now }) p,
      record { applied = true; actual = proposed },
    )

cell_cooldown_event : Env → String → ℕ → String → Event
cell_cooldown_event e id until message = record (blank EventType.relay_error) {
  cell_id = id;
  cooldown_until = some until;
  message = "cell " <> id <> " cooldown until " <> e.rfc3339 until <> ": " <> message;
}

unfoldable pub cooldown_cell : Env → String → ℕ → String → Pool → Pool × Bool
unfolding apply_cell_cooldown cell_cooldown_event
cooldown_cell e id proposed message p =
    let q : Pool = reload_or_keep e p in
    let (r, result) = apply_cell_cooldown e (cell_of q id) proposed q in
    if not result.applied
    then (r, false)
    else if message == ""
    then (r, true)
    else (publish (cell_cooldown_event e id result.actual message) r, true)

-- The account is looked up in the maps at hand, before any reload.
unfoldable pub cooldown_cell_for_account : Env → String → ℕ → String → Pool → Pool × Bool
unfolding cooldown_cell
cooldown_cell_for_account e account_id proposed message p = elim (lookup account_id p.accounts) [
  | none ↦ (p, false)
  | some a ↦ if a.cell_id == "" then (p, false) else cooldown_cell e a.cell_id proposed message p
]

clear_cell : Env → String → EgressCell → Pool → Pool
unfolding persist_cell_row
clear_cell e id c q =
    publish
      (record (blank EventType.recover) {
        cell_id = id;
        message = "cell " <> id <> " cooldown cleared";
      })
      (persist_cell_row e (record c { cooldown_until = none; updated_at = e.now }) q)

abbrev clear_cell_if_cooling : Env → String → Option EgressCell → Pool → Pool × Bool
unfolding clear_cell
clear_cell_if_cooling e id none q = (q, false)
clear_cell_if_cooling e id (some c) q = elim c.cooldown_until [
  | none ↦ (q, false)
  | some _ ↦ (clear_cell e id c q, true)
]

unfoldable pub clear_cell_cooldown : Env → String → Pool → Pool × Bool
unfolding clear_cell
clear_cell_cooldown e id p =
    let q : Pool = reload_or_keep e p in clear_cell_if_cooling e id (cell_of q id) q
