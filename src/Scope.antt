-- ===== src/Scope.antt =====
-- scope/scope.go: task contracts, their compilation to scope clauses, the derived scope of a target
-- and the mode in which a decision is reported. The texts of the errors are left out.
pub mod Derived
pub mod Reporting
pub mod Contract
use krsm.Prelude.{
  Result, ok, err, ◌>>=◌, String, Bool, true, false, not, ◌&&◌, ◌||◌, List, [], ◌∷◌, ◌==◌,
  if◌then◌else◌,
}
use Prim.Native.String.{◌++◌}
use krsm.Selector.{LabelSelector, is_empty}
use krsm.Model.{Gvk, Ref, Decision, Verdict, allow, warn, block, no_ref}
use krsm.Model.Clause.{
  ScopeDim, ScopeClause, ClauseError, Validation, valid, invalid, validate, ownership_clause,
  dim_resource, dim_selector,
}

abbrev pub Severity : Type 0
Severity = String

-- `Severity.valid`: the known severities, of which the empty one is `SeverityNone`.
unfoldable pub valid_severity : Severity → Bool
valid_severity s = s == "" || s == "low" || s == "medium" || s == "high" || s == "critical"

pub record AllowClause : Type 0 where
  pub dim : ScopeDim
  pub gvk : Gvk
  pub namespace : String
  pub name : String
  pub selector : LabelSelector

pub record Metadata : Type 0 where
  pub name : String
  pub namespace : String

pub record Spec : Type 0 where
  pub allow_clauses : List AllowClause
  pub max_severity : Severity

pub record TaskContract : Type 0 where
  pub api_version : String
  pub kind : String
  pub metadata : Metadata
  pub spec : Spec

abbrev pub Provenance : Type 0
Provenance = String

pub record ScopePredicate : Type 0 where
  pub clauses : List ScopeClause
  pub max_severity : Severity
  pub provenance : Provenance

unfoldable pub derive : Ref → ScopePredicate
unfolding ownership_clause
derive target = record {
  clauses = ownership_clause target ∷ [];
  max_severity = "";
  provenance = "derived:ownership-tree";
}

abbrev pub Mode : Type 0
Mode = String

abbrev pub mode_audit : Mode
mode_audit = "audit"

abbrev pub mode_enforce : Mode
mode_enforce = "enforce"

abbrev pub is_block : Verdict → Bool
is_block block = true
is_block _ = false

-- `Mode.Apply`
unfoldable pub apply : Mode → Decision → Decision
apply m d =
    if not (m == mode_audit)
    then d
    else if not (is_block d.verdict) || is_empty d.escaping
    then d
    else record d {
      verdict = warn;
      reason = "audit: " ++ d.reason ++ " (would Block under --mode enforce)";
    }

pub data CompileError : Type 0 where
  unrecognised_api_version unrecognised_kind unknown_max_severity unsupported_dimension :
      CompileError
  invalid_clause : ClauseError → CompileError

abbrev pub lowered : AllowClause → ScopeClause
lowered ac = record {
  dim = ac.dim;
  gvk = ac.gvk;
  namespace = ac.namespace;
  name = ac.name;
  selector = ac.selector;
  root = no_ref;
}

abbrev pub checked : ScopeClause → Validation → Result CompileError ScopeClause
checked clause valid = ok clause
checked clause (invalid e) = err (invalid_clause e)

unfoldable pub compile_clause : AllowClause → Result CompileError ScopeClause
unfolding validate
compile_clause ac =
    if ac.dim == "" || ac.dim == dim_resource || ac.dim == dim_selector
    then checked (lowered ac) (validate (lowered ac))
    else err unsupported_dimension

-- The loop of `Compile`, which stops at the first clause that fails.
unfoldable pub compile_clauses : List AllowClause → Result CompileError (List ScopeClause)
unfolding compile_clause
compile_clauses [] = ok []
compile_clauses (ac ∷ acs) = do
  clause ← compile_clause ac
  rest ← compile_clauses acs
  ok (clause ∷ rest)

unfoldable pub compile : TaskContract → Result CompileError ScopePredicate
unfolding compile_clauses valid_severity
compile tc =
    if not (tc.api_version == "krsm.io/v1")
    then err unrecognised_api_version
    else if not (tc.kind == "TaskContract")
    then err unrecognised_kind
    else if not (valid_severity tc.spec.max_severity)
    then err unknown_max_severity
    else do
      clauses ← compile_clauses tc.spec.allow_clauses
      ok (record {
        clauses = clauses;
        max_severity = tc.spec.max_severity;
        provenance = "contract";
      })
