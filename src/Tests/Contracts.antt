-- ===== src/Tests/Contracts.antt =====
-- Clauses, contracts and reports at concrete inputs.
use krsm.Cli.{Report, action_on}
use krsm.Cli.Output.{detail, write_report}
use krsm.Cli.Shown.{escaping_shown}
use krsm.Prelude.{◌∈◌, inl, true, refl, [], ◌∷◌, ◌≡◌, ◌↔◌, ok}
use krsm.Model.{warn, Decision, block, no_gvk}
use krsm.Model.Clause.{validate, valid, ownership_clause, no_selector}
use krsm.Model.Validity.{WellFormed, validate_iff}
use krsm.Scope.{TaskContract, AllowClause, compile, mode_audit, apply}
use krsm.Scope.Contract.{Compilable, compiled_to, compile_iff}
use krsm.Scope.Reporting.{Reports, apply-Reports}
use krsm.Tests.Cluster.{deployment, service, select_web}

validate_iff_example :
    (validate (ownership_clause deployment.ref) ≡ valid)
    ↔ WellFormed (ownership_clause deployment.ref)
validate_iff_example = validate_iff (ownership_clause deployment.ref)

abbrev by_name : AllowClause
by_name = record {
  dim = "resource";
  gvk = no_gvk;
  namespace = "shop";
  name = "web*";
  selector = no_selector;
}

abbrev by_selector : AllowClause
by_selector = record {
  dim = "selector";
  gvk = no_gvk;
  namespace = "shop";
  name = "";
  selector = select_web;
}

abbrev contract : TaskContract
contract = record {
  api_version = "krsm.io/v1";
  kind = "TaskContract";
  metadata = record { name = "rollout"; namespace = "shop" };
  spec = record { allow_clauses = by_name ∷ by_selector ∷ []; max_severity = "low" };
}

compile_iff_example :
    (compile contract ≡ ok (compiled_to contract))
    ↔ (Compilable contract × (compiled_to contract ≡ compiled_to contract))
compile_iff_example = compile_iff contract (compiled_to contract)

abbrev escape : Decision
escape = record {
  verdict = block;
  reason = "affected-resource closure escapes task scope";
  closure = deployment.ref ∷ service.ref ∷ [];
  escaping = service.ref ∷ [];
  external = [];
}

apply-Reports_example : Reports mode_audit escape (apply mode_audit escape)
apply-Reports_example = apply-Reports mode_audit escape

abbrev escape_report : Report
escape_report = record {
  action = action_on "delete" "Deployment" "web" "shop";
  clauses = [];
  scope_source = "derived (ownership-tree)";
  decision = escape;
  plain = true;
}

escaping_shown_example : detail service.ref ∈ (write_report escape_report).stdout
escaping_shown_example = escaping_shown escape_report service.ref (λ e. cc) (inl refl)

abbrev boundary_report : Report
boundary_report = record escape_report {
  decision = record escape { verdict = warn; external = service.ref ∷ [] };
}
