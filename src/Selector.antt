-- ===== src/Selector.antt =====
-- closure/selector.go: label selectors. A label map is an association list, read like Go's map: a
-- missing key reads as the empty text. `match_labels` is `none` for Go's nil map, which `is_nil`
-- tells from an empty one.
pub mod Equal
pub mod Matching
use krsm.Prelude.{
  String, Bool, true, false, not, ◌&&◌, ◌||◌, Option, none, some, List, [], ◌∷◌, ◌==◌, nat_eq,
  length, any, all, lookup, lookup_or, if◌then◌else◌,
}

abbrev pub Labels : Type 0
Labels = List (String × String)

abbrev pub SelectorOperator : Type 0
SelectorOperator = String

abbrev pub op_in : SelectorOperator
op_in = "In"

abbrev pub op_not_in : SelectorOperator
op_not_in = "NotIn"

abbrev pub op_exists : SelectorOperator
op_exists = "Exists"

abbrev pub op_does_not_exist : SelectorOperator
op_does_not_exist = "DoesNotExist"

pub record SelectorRequirement : Type 0 where
  pub key : String
  pub operator : SelectorOperator
  pub values : List String

pub record LabelSelector : Type 0 where
  pub match_labels : Option Labels
  pub match_expressions : List SelectorRequirement

-- What ranging over a map that may be nil reads.
abbrev pub entries : Option Labels → Labels
entries none = []
entries (some m) = m

-- `labels[k]`
abbrev pub label_of : String → Labels → String
label_of k m = lookup_or "" k m

abbrev pub is_empty {ℓ} : {A : Type ℓ} → List A → Bool
is_empty [] = true
is_empty (_ ∷ _) = false

abbrev pub is_none {ℓ} : {A : Type ℓ} → Option A → Bool
is_none none = true
is_none (some _) = false

unfoldable pub is_nil : LabelSelector → Bool
is_nil s = is_none s.match_labels && is_empty s.match_expressions

-- `for k, v := range a { if b[k] != v { return false } }`
unfoldable pub entries_agree : Labels → Labels → Bool
unfolding all lookup_or
entries_agree a b = all (λ p. label_of p.0 b == p.1) a

unfoldable pub values_equal : List String → List String → Bool
values_equal [] [] = true
values_equal (v ∷ vs) (w ∷ ws) = v == w && values_equal vs ws
values_equal _ _ = false

-- The loop over `MatchExpressions`, behind the test that the lengths agree.
unfoldable pub expressions_equal : List SelectorRequirement → List SelectorRequirement → Bool
unfolding values_equal
expressions_equal [] [] = true
expressions_equal (r ∷ rs) (q ∷ qs) =
    (r.key == q.key)
    && (r.operator == q.operator)
    && values_equal r.values q.values
    && expressions_equal rs qs
expressions_equal _ _ = false

unfoldable pub equal : LabelSelector → LabelSelector → Bool
unfolding entries_agree expressions_equal
equal s o =
    nat_eq (length (entries s.match_labels)) (length (entries o.match_labels))
    && entries_agree (entries s.match_labels) (entries o.match_labels)
    && expressions_equal s.match_expressions o.match_expressions

unfoldable pub valid_operator : SelectorOperator → Bool
valid_operator o = o == op_in || o == op_not_in || o == op_exists || o == op_does_not_exist

unfoldable pub contains : List String → String → Bool
unfolding any
contains vals v = any (λ x. x == v) vals

unfoldable pub requirement_matches : SelectorRequirement → Labels → Bool
unfolding contains lookup
requirement_matches r labels =
    let val = lookup r.key labels in
    if r.operator == op_in
    then elim val [ none ↦ false | some v ↦ contains r.values v ]
    else if r.operator == op_not_in
    then elim val [ none ↦ true | some v ↦ not (contains r.values v) ]
    else if r.operator == op_exists
    then not (is_none val)
    else if r.operator == op_does_not_exist
    then is_none val
    else false

unfoldable pub matches : LabelSelector → Labels → Bool
unfolding entries_agree requirement_matches all
matches s labels =
    entries_agree (entries s.match_labels) labels
    && all (λ r. requirement_matches r labels) s.match_expressions
