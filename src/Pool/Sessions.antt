-- ===== src/Pool/Sessions.antt =====
-- internal/pool/pool_runtime.go and pool.go: session bindings and reads of the pool.
use llm_broker.Prelude.{
  String, List, Option, none, some, values, lookup, map, string_eq, if◌then◌else◌,
}
use llm_broker.Domain.{Account, SessionBinding}
use llm_broker.Store.{
  get_binding, bindings_of, delete_binding, get_session_binding, list_session_bindings_by_target,
}
use llm_broker.Pool.{Pool, Env, write, reload_state, reload_or_keep}
use llm_broker.Pool.Results.{
  PoolError, Result, ok, err, binding_failed, refresh_failed, store_failed, account_not_found,
}
use llm_broker.Pool.Buckets.{project_account}
use llm_broker.Pool.Route.{account_for_target}

unfoldable pub get : Env → String → Pool → Pool × Option Account
get e id p =
    let q : Pool = reload_or_keep e p in
    (q, elim (lookup id q.accounts) [ none ↦ none | some a ↦ some (project_account q a) ])

unfoldable pub list : Env → Pool → Pool × List Account
list e p = let q : Pool = reload_or_keep e p in (q, map (project_account q) (values q.accounts))

abbrev id_of : Option Account → Option String
id_of none = none
id_of (some a) = some a.id

-- The account that a session is bound to, if it still is in the pool.
bound_account : Env → SessionBinding → Pool → Pool × Result (Option String)
bound_account e b p = elim (reload_state e p) [
  | none ↦ (p, err refresh_failed)
  | some q ↦ (q, ok (id_of (account_for_target b.provider b.subject (values q.accounts))))
]

unfoldable pub get_session_account : Env → String → Pool → Pool × Result (Option String)
unfolding bound_account
get_session_account e uuid p =
    if e.answers (get_binding uuid)
    then elim (get_session_binding e.now uuid p.store) [
      | none ↦ (p, ok none)
      | some b ↦ bound_account e b p
    ]
    else (p, err binding_failed)

unfoldable pub list_session_bindings : Env → String → Pool → Pool × Result (List SessionBinding)
unfolding get
list_session_bindings e id p =
    let (q, found) = get e id p in
    elim found [
      | none ↦ (q, err (account_not_found id))
      | some a ↦
          if e.answers (bindings_of a.provider a.subject)
          then (q, ok (list_session_bindings_by_target e.now a.provider a.subject q.store))
          else (q, err binding_failed)
    ]

unfoldable pub unbind_session : Env → String → Pool → Pool × Option PoolError
unbind_session e uuid p =
    if e.accepts (delete_binding uuid)
    then (write e (delete_binding uuid) p, none)
    else (p, some store_failed)
