-- ===== src/Scenario/Selectors.antt =====
-- internal/scenario/scenario.go: `selectorFrom`, `matchLabels` and `scopeSelectorFrom`.
use krsm.Prelude.{
  String, not, ◌&&◌, Option, none, some, List, [], ◌∷◌, ◌==◌, if◌then◌else◌, Json, Result, ok, err,
  ◌>>=◌,
}
use krsm.Selector.{LabelSelector, SelectorRequirement, valid_operator, is_none, is_empty, entries}
use krsm.Model.Clause.{no_selector}
use krsm.Scenario.{LoadError, bad_selector, bad_service_selector, unknown_operator, RawSpec}
use krsm.Scenario.Decode.{Wrapper, decode_wrapper, decode_map}

-- The loop over `matchExpressions`.
unfoldable pub checked_expressions :
    List SelectorRequirement → Result LoadError (List SelectorRequirement)
unfolding valid_operator
checked_expressions [] = ok []
checked_expressions (e ∷ es) =
    let rest = checked_expressions es in
    if not (valid_operator e.operator) then err unknown_operator else (rest >>= λ rs. ok (e ∷ rs))

-- A wrapper that is there and sets nothing gives an empty map.
unfoldable pub selector_of : Wrapper → List SelectorRequirement → LabelSelector
selector_of w es =
    if is_none w.match_labels && is_empty es
    then record { match_labels = some []; match_expressions = es }
    else record { match_labels = w.match_labels; match_expressions = es }

unfoldable pub match_labels : Option Json → Result LoadError LabelSelector
unfolding decode_wrapper checked_expressions selector_of
match_labels none = ok no_selector
match_labels (some raw) = elim (decode_wrapper raw) [
  | none ↦ err bad_selector
  | some w ↦ (checked_expressions w.match_expressions >>= λ es. ok (selector_of w es))
]

unfoldable pub scope_selector_from : Json → Result LoadError LabelSelector
unfolding match_labels
scope_selector_from raw = do
  sel ← match_labels (some raw)
  ok (
      if is_empty (entries sel.match_labels) && is_empty sel.match_expressions
      then no_selector
      else sel)

-- The flat map of a Service.
unfoldable pub service_selector_from : Option Json → Result LoadError LabelSelector
unfolding decode_map
service_selector_from none = ok no_selector
service_selector_from (some raw) = elim (decode_map (some []) raw) [
  | none ↦ err bad_service_selector
  | some m ↦ ok (record { match_labels = m; match_expressions = [] })
]

unfoldable pub selector_from : String → RawSpec → Result LoadError LabelSelector
unfolding service_selector_from match_labels
selector_from kind spec =
    if kind == "Service"
    then service_selector_from spec.selector
    else if kind == "NetworkPolicy"
    then match_labels spec.pod_selector
    else match_labels spec.selector
