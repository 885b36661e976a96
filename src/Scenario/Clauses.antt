-- ===== src/Scenario/Clauses.antt =====
-- internal/scenario/scenario.go: `parseAction`, `parseScope` and `parseTaskContract`.
use krsm.Prelude.{
  String, Bool, true, not, ◌||◌, Option, none, some, List, [], ◌∷◌, ◌==◌, if◌then◌else◌, Json,
  Result, ok, err, ◌>>=◌,
}
use krsm.Selector.{Labels, LabelSelector, is_empty, entries}
use krsm.Model.{Ref, Object, Action, no_ref}
use krsm.Model.Clause.{
  ScopeClause, Validation, valid, invalid, validate, ownership_clause, dim_selector, dim_ownership,
  no_selector,
}
use krsm.Scope.{AllowClause, TaskContract}
use krsm.Scenario.{
  LoadError, bad_action, bad_scope, bad_clause, bad_contract, bad_allow_clause,
  ownership_without_root, ownership_with_gvk, ownership_with_namespace, ownership_with_name,
  ownership_with_selector, stray_root, invalid_scope_clause, RawRef, RawPayload, RawAction,
  RawScopeClause, RawAllowClause, Yaml, ns_of, uid_of,
}
use krsm.Scenario.Decode.{decode_scope_clause, decode_allow_clause}
use krsm.Scenario.Selectors.{scope_selector_from}

abbrev pub payload_selector : Option Labels → LabelSelector
payload_selector m = record { match_labels = m; match_expressions = [] }

abbrev pub payload_object : Option RawPayload → Option Object
payload_object none = none
payload_object (some p) = some (record {
  ref = no_ref;
  labels = p.labels;
  selector = payload_selector p.selector;
  owners = [];
  cross_refs = [];
  finalizers = p.finalizers;
})

-- The reference with the uid of its names.
unfoldable pub resolved : RawRef → Ref
unfolding ns_of uid_of
resolved r = record {
  gvk = record { group = r.group; version = r.version; kind = r.kind };
  namespace = ns_of r.kind r.namespace;
  name = r.name;
  uid = uid_of r.kind (ns_of r.kind r.namespace) r.name;
}

abbrev pub or_true : Option Bool → Bool
or_true none = true
or_true (some b) = b

unfoldable pub action_from : RawAction → Action
unfolding resolved
action_from ra = record {
  verb = ra.verb;
  target = resolved ra.target;
  cascade = or_true ra.cascade;
  old = payload_object ra.old;
  new = payload_object ra.new;
}

-- The clause, if it is valid.
abbrev pub validated : ScopeClause → Validation → Result LoadError ScopeClause
validated c valid = ok c
validated c (invalid e) = err (invalid_scope_clause e)

abbrev pub is_set : LabelSelector → Bool
is_set sel = not (is_empty (entries sel.match_labels)) || not (is_empty sel.match_expressions)

-- The branch of the ownership dimension; identity stands on the root only.
unfoldable pub ownership_from : Json → RawScopeClause → Result LoadError ScopeClause
unfolding scope_selector_from resolved ownership_clause
ownership_from raw rc = elim rc.root [
  | none ↦ err ownership_without_root
  | some root ↦
      if not (rc.group == "") || (not (rc.version == "") || not (rc.kind == ""))
      then err ownership_with_gvk
      else if not (rc.namespace == "")
      then err ownership_with_namespace
      else if not (rc.name == "")
      then err ownership_with_name
      else (scope_selector_from raw >>= λ sel.
          if is_set sel then err ownership_with_selector else ok (ownership_clause (resolved root)))
]

abbrev pub selector_if : Bool → Json → Result LoadError LabelSelector
selector_if b raw = if b then scope_selector_from raw else ok no_selector

abbrev pub named_clause : RawScopeClause → LabelSelector → ScopeClause
named_clause rc sel = record {
  dim = rc.dim;
  gvk = record { group = rc.group; version = rc.version; kind = rc.kind };
  namespace = ns_of rc.kind rc.namespace;
  name = rc.name;
  selector = sel;
  root = no_ref;
}

-- The branch of the other dimensions.
unfoldable pub named_from : Json → RawScopeClause → Result LoadError ScopeClause
unfolding scope_selector_from ns_of
named_from raw rc = elim rc.root [
  | some root ↦ err stray_root
  | none ↦ (selector_if (rc.dim == dim_selector) raw >>= λ sel. ok (named_clause rc sel))
]

-- One round of the loop of `parseScope`.
unfoldable pub scope_clause_from : Json → Result LoadError ScopeClause
unfolding decode_scope_clause ownership_from named_from validate
scope_clause_from raw = elim (decode_scope_clause raw) [
  | none ↦ err bad_clause
  | some rc ↦
      ((if rc.dim == dim_ownership then ownership_from raw rc else named_from raw rc) >>= λ clause.
      validated clause (validate clause))
]

unfoldable pub scope_clauses_from : List Json → Result LoadError (List ScopeClause)
unfolding scope_clause_from
scope_clauses_from [] = ok []
scope_clauses_from (raw ∷ raws) = do
  clause ← scope_clause_from raw
  rest ← scope_clauses_from raws
  ok (clause ∷ rest)

-- One round of the loop of `parseTaskContract`.
abbrev pub allow_clause_of : RawAllowClause → LabelSelector → AllowClause
allow_clause_of rc sel = record {
  dim = rc.dim;
  gvk = record { group = rc.gvk.group; version = rc.gvk.version; kind = rc.gvk.kind };
  namespace = ns_of rc.gvk.kind rc.namespace;
  name = rc.name;
  selector = sel;
}

unfoldable pub allow_clause_from : Json → Result LoadError AllowClause
unfolding decode_allow_clause scope_selector_from ns_of
allow_clause_from raw = elim (decode_allow_clause raw) [
  | none ↦ err bad_allow_clause
  | some rc ↦ (selector_if (rc.dim == dim_selector) raw >>= λ sel. ok (allow_clause_of rc sel))
]

unfoldable pub allow_clauses_from : List Json → Result LoadError (List AllowClause)
unfolding allow_clause_from
allow_clauses_from [] = ok []
allow_clauses_from (raw ∷ raws) = do
  ac ← allow_clause_from raw
  rest ← allow_clauses_from raws
  ok (ac ∷ rest)

module _ (yaml : Yaml) where
  unfoldable pub parse_action : String → Result LoadError Action
  unfolding action_from
  parse_action raw = elim (yaml.action raw) [
    | none ↦ err bad_action
    | some ra ↦ ok (action_from ra)
  ]

  unfoldable pub parse_scope : String → Result LoadError (List ScopeClause)
  unfolding scope_clauses_from
  parse_scope raw = elim (yaml.scope raw) [
    | none ↦ err bad_scope
    | some raws ↦ scope_clauses_from raws
  ]

  unfoldable pub parse_task_contract : String → Result LoadError TaskContract
  unfolding allow_clauses_from
  parse_task_contract raw = elim (yaml.contract raw) [
    | none ↦ err bad_contract
    | some rtc ↦
        (allow_clauses_from rtc.spec.allow >>= λ allow. ok (record {
          api_version = rtc.api_version;
          kind = rtc.kind;
          metadata = record { name = rtc.metadata.name; namespace = rtc.metadata.namespace };
          spec = record { allow_clauses = allow; max_severity = rtc.spec.max_severity };
        }))
  ]
