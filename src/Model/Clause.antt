-- ===== src/Model/Clause.antt =====
-- closure/model.go: the clauses of an authorised scope and their structural check.
use krsm.Prelude.{String, Bool, not, ◌||◌, [], ◌==◌, if◌then◌else◌, none}
use krsm.Selector.{LabelSelector, is_empty, entries}
use krsm.Model.{Gvk, Ref, gvk_eq, ref_eq, no_gvk, no_ref}

-- `ScopeDim` is a string type: a clause may carry any text.
abbrev pub ScopeDim : Type 0
ScopeDim = String

abbrev pub dim_resource : ScopeDim
dim_resource = "resource"

abbrev pub dim_selector : ScopeDim
dim_selector = "selector"

abbrev pub dim_namespace : ScopeDim
dim_namespace = "namespace"

abbrev pub dim_ownership : ScopeDim
dim_ownership = "ownership"

pub record ScopeClause : Type 0 where
  pub dim : ScopeDim
  pub gvk : Gvk
  pub namespace : String
  pub name : String
  pub selector : LabelSelector
  pub root : Ref

-- The zero value of a selector: a nil map and no expressions.
abbrev pub no_selector : LabelSelector
no_selector = record { match_labels = none; match_expressions = [] }

unfoldable pub resource_clause : Gvk → String → String → ScopeClause
resource_clause gvk namespace name = record {
  dim = dim_resource;
  gvk = gvk;
  namespace = namespace;
  name = name;
  selector = no_selector;
  root = no_ref;
}

unfoldable pub selector_clause : Gvk → String → LabelSelector → ScopeClause
selector_clause gvk namespace selector = record {
  dim = dim_selector;
  gvk = gvk;
  namespace = namespace;
  name = "";
  selector = selector;
  root = no_ref;
}

unfoldable pub namespace_clause : Gvk → String → ScopeClause
namespace_clause gvk namespace = record {
  dim = dim_namespace;
  gvk = gvk;
  namespace = namespace;
  name = "";
  selector = no_selector;
  root = no_ref;
}

unfoldable pub ownership_clause : Ref → ScopeClause
ownership_clause root = record {
  dim = dim_ownership;
  gvk = no_gvk;
  namespace = "";
  name = "";
  selector = no_selector;
  root = root;
}

-- The errors of `Validate`, one for each message; the text is left out.
pub data ClauseError : Type 0 where
  carries_selector carries_root carries_name carries_gvk carries_namespace : ClauseError
  missing_namespace incomplete_root unknown_dimension : ClauseError

pub data Validation : Type 0 where
  valid : Validation
  invalid : ClauseError → Validation

-- `if b { return e }`, and the rest of the checks behind it.
abbrev pub reject_if : Bool → ClauseError → Validation → Validation
reject_if b e rest = if b then invalid e else rest

unfoldable pub has_selector : ScopeClause → Bool
has_selector c =
    not (is_empty (entries c.selector.match_labels)) || not (is_empty c.selector.match_expressions)

abbrev pub has_root : ScopeClause → Bool
has_root c = not (ref_eq c.root no_ref)

unfoldable pub validate : ScopeClause → Validation
validate c =
    if c.dim == "" || c.dim == dim_resource
    then reject_if (has_selector c) carries_selector (reject_if (has_root c) carries_root valid)
    else if c.dim == dim_selector
    then reject_if (not (c.name == "")) carries_name (reject_if (has_root c) carries_root valid)
    else if c.dim == dim_namespace
    then reject_if (c.namespace == "") missing_namespace (
        reject_if (not (c.name == "")) carries_name
          (reject_if (has_selector c) carries_selector (reject_if (has_root c) carries_root valid)))
    else if c.dim == dim_ownership
    then reject_if (c.root.gvk.kind == "" || c.root.name == "") incomplete_root (
        reject_if (not (c.name == "")) carries_name (
          reject_if (has_selector c) carries_selector (
            reject_if (not (gvk_eq c.gvk no_gvk)) carries_gvk
              (reject_if (not (c.namespace == "")) carries_namespace valid))))
    else invalid unknown_dimension
