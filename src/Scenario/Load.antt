-- ===== src/Scenario/Load.antt =====
-- internal/scenario/scenario.go: `loadScope` and `Load`.
use krsm.Prelude.{String, List, Result, ok, err, ◌>>=◌}
use krsm.Model.{Ref}
use krsm.Model.Clause.{ScopeClause}
use krsm.State.{new_scan_state, scan_state}
use krsm.Scope.{ScopePredicate, CompileError, compile, derive}
use krsm.Scenario.{
  Scenario, FileRead, content, absent, failed, LoadError, unreadable, contract_rejected, Yaml,
  scope_source_contract, scope_source_scope_yaml, scope_source_derived,
}
use krsm.Scenario.Manifests.{parse_cluster}
use krsm.Scenario.Clauses.{parse_action, parse_scope, parse_task_contract}

-- `fmt.Errorf("compile taskcontract: %w", cerr)`
abbrev pub compiled : Result CompileError ScopePredicate → Result LoadError ScopePredicate
compiled (ok pred) = ok pred
compiled (err e) = err (contract_rejected e)

-- Every error of the read ends the load.
abbrev pub contents : FileRead → Result LoadError String
contents (content raw) = ok raw
contents _ = err unreadable

module _ (yaml : Yaml) (read : String → FileRead) where
  abbrev pub read_file : String → Result LoadError String
  read_file name = contents (read name)

  abbrev pub from_contract : String → Result LoadError (List ScopeClause × String)
  from_contract raw = do
    tc ← parse_task_contract yaml raw
    pred ← compiled (compile tc)
    ok (pred.clauses, scope_source_contract)

  abbrev pub from_scope_yaml : String → Result LoadError (List ScopeClause × String)
  from_scope_yaml raw = do clauses ← parse_scope yaml raw; ok (clauses, scope_source_scope_yaml)

  unfoldable pub load_scope : Ref → Result LoadError (List ScopeClause × String)
  unfolding parse_task_contract parse_scope compile derive
  load_scope target = elim (read "taskcontract.yaml") [
    | content raw ↦ from_contract raw
    | failed ↦ err unreadable
    | absent ↦ elim (read "scope.yaml") [
      | content raw ↦ from_scope_yaml raw
      | failed ↦ err unreadable
      | absent ↦ ok ((derive target).clauses, scope_source_derived)
    ]
  ]

  unfoldable pub load : Result LoadError Scenario
  unfolding parse_cluster parse_action load_scope new_scan_state
  load = do
    cluster_raw ← read_file "cluster.yaml"
    objs ← parse_cluster yaml cluster_raw
    request_raw ← read_file "request.yaml"
    action ← parse_action yaml request_raw
    (clauses, source) ← load_scope action.target
    ok (record {
      state = scan_state (new_scan_state objs);
      action = action;
      scope = clauses;
      scope_source = source;
    })
