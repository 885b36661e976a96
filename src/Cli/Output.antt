-- ===== src/Cli/Output.antt =====
-- cmd/krsm/main.go: the report of a check, as the lines that `writeReport` prints on the two streams.
use Prim.Native.String.{◌++◌}
use krsm.Prelude.{String, Bool, true, false, List, [], ◌∷◌, map, ◌==◌, text_lt, if◌then◌else◌}
use krsm.Selector.{
  LabelSelector, SelectorRequirement, entries, label_of, is_empty, op_exists, op_does_not_exist,
}
use krsm.Model.{Gvk, Ref, Decision, Verdict, allow, warn, block, human}
use krsm.Model.Clause.{ScopeClause, dim_namespace, dim_ownership, dim_selector}
use krsm.Cli.{Report}

-- `strings.Join`
unfoldable pub join : String → List String → String
join sep [] = ""
join sep (s ∷ []) = s
join sep (s ∷ t ∷ ts) = s ++ sep ++ join sep (t ∷ ts)

unfoldable pub icon : Verdict → Bool → String
icon v true = ""
icon block false = "❌ "
icon warn false = "⚠ "
icon allow false = "✅ "

-- One line of `writeDetail`.
abbrev pub detail : Ref → String
detail r = "           → " ++ human r

unfoldable pub write_detail : List Ref → List String
unfolding human
write_detail refs = map detail refs

unfoldable pub join_refs : List Ref → String
unfolding join human
join_refs refs = join ", " (map human refs)

unfoldable pub qualified_kind : Gvk → String
qualified_kind gvk = if gvk.group == "" then gvk.kind else gvk.kind ++ "." ++ gvk.group

-- `sort.Strings`
unfoldable pub insert_text : String → List String → List String
unfolding text_lt
insert_text s [] = s ∷ []
insert_text s (t ∷ ts) = if text_lt t s then t ∷ insert_text s ts else s ∷ t ∷ ts

unfoldable pub sort_texts : List String → List String
unfolding insert_text
sort_texts [] = []
sort_texts (s ∷ ss) = insert_text s (sort_texts ss)

abbrev pub requirement_str : SelectorRequirement → String
requirement_str r =
    if r.operator == op_exists
    then r.key ++ " " ++ r.operator
    else if r.operator == op_does_not_exist
    then r.key ++ " " ++ r.operator
    else r.key ++ " " ++ r.operator ++ " [" ++ join " " r.values ++ "]"

abbrev append_texts : List String → List String → List String
append_texts [] ts = ts
append_texts (s ∷ ss) ts = s ∷ append_texts ss ts

unfoldable pub selector_str : LabelSelector → String
unfolding join sort_texts
selector_str sel =
    let m = entries sel.match_labels in
    let keys = sort_texts (map (λ (p : String × String). p.0) m) in
    join ", " (
      append_texts (map (λ k. k ++ "=" ++ label_of k m) keys)
        (map requirement_str sel.match_expressions))

unfoldable pub scope_str : ScopeClause → String
unfolding qualified_kind selector_str
scope_str s =
    if s.dim == dim_namespace
    then (if s.gvk.kind == ""
        then "ns:" ++ s.namespace ++ "/*"
        else "ns:" ++ qualified_kind s.gvk ++ "/" ++ s.namespace ++ "/*")
    else if s.dim == dim_ownership
    then "owns:" ++ qualified_kind s.root.gvk ++ "/" ++ s.root.namespace ++ "/" ++ s.root.name
    else if s.dim == dim_selector
    then qualified_kind s.gvk ++ "/" ++ s.namespace ++ "/{" ++ selector_str s.selector ++ "}"
    else qualified_kind s.gvk ++ "/" ++ s.namespace ++ "/" ++ s.name

unfoldable pub join_scope : List ScopeClause → String
unfolding join scope_str
join_scope clauses = join ", " (map scope_str clauses)

-- The lines of the standard output and of the standard error.
pub record Streams : Type 0 where
  pub stdout : List String
  pub stderr : List String

abbrev pub verdict_line : Verdict → Bool → String → String
verdict_line v plain rest = "VERDICT  " ++ icon v plain ++ rest

-- The switch of `writeReport`.
unfoldable pub write_verdict : Decision → Bool → Streams
unfolding icon write_detail
write_verdict d plain = elim d.verdict [
  | block ↦ record {
    stdout = verdict_line block plain ("BLOCK — " ++ d.reason ++ ":") ∷ write_detail d.escaping;
    stderr = [];
  }
  | warn ↦ elim (is_empty d.escaping) [
    | false ↦ record {
      stdout = verdict_line warn plain ("WARN — " ++ d.reason ++ ":") ∷ write_detail d.escaping;
      stderr =
          if is_empty d.external
          then []
          else verdict_line warn plain
              "WARN — closure crosses the cluster boundary (external effect):"
            ∷ write_detail d.external;
    }
    | true ↦ record {
      stdout = verdict_line warn plain ("WARN — " ++ d.reason ++ " (detail on stderr)") ∷ [];
      stderr = verdict_line warn plain ("WARN — " ++ d.reason ++ ":") ∷ write_detail d.external;
    }
  ]
  | allow ↦ record {
    stdout = verdict_line allow plain "ALLOW — closure within task scope" ∷ [];
    stderr = [];
  }
]

unfoldable pub write_report : Report → Streams
unfolding human join_scope join_refs write_verdict
write_report r =
    let v = write_verdict r.decision r.plain in
    record {
      stdout =
          ("ACTION   " ++ r.action.verb ++ " " ++ human r.action.target)
          ∷ ("SCOPE    " ++ join_scope r.clauses ++ "  (" ++ r.scope_source ++ ")")
          ∷ ("CLOSURE  " ++ join_refs r.decision.closure)
          ∷ v.stdout;
      stderr = v.stderr;
    }
