-- ===== src/Scenario/Parity.antt =====
-- internal/scenario/scenario.go and internal/cluster/selector.go: one selector, read from a manifest
-- and from an object of the cluster.
use krsm.Prelude.{
  String, not, Option, none, some, List, [], ◌∷◌, map, ◌≡◌, refl, sym, ap, ◌∙◌, ◌⊎◌, inl, inr,
  Distinct, keys, lookup, Bool-cases, if◌then◌else◌, Json, string, object, array, Fields, pairs_of,
  items_of, ok, err, ◌>>=◌, relabel,
}
use krsm.Selector.{Labels, SelectorRequirement, valid_operator, entries}
use krsm.Cluster.{
  Unstructured, as_array, all_texts, all_labels, objects_of, present, nested_string, nested_slice,
  nested_map, nested_string_map, nested_string_slice, maps_at, requirement_of, requirements_of,
  match_labels_from, invalid_operator,
}
use krsm.Scenario.{bad_selector, unknown_operator}
use krsm.Scenario.Decode.{Wrapper}
use krsm.Scenario.Selectors.{checked_expressions, selector_of, match_labels}
use krsm.Scenario.Encoded.{
  string_items, label_fields, requirement_fields, requirement_items, wrapper_fields,
  decode_wrapper_fields,
}

-- A path of one key leads to the value of that key, and to its text if it is one.
pub record ReadsFields (api : Unstructured) : Type 0 where
  pub value : (fs : Fields) (k : String) → api.field_no_copy fs (k ∷ []) ≡ lookup k (pairs_of fs)
  pub string :
      (fs : Fields) (k s : String)
      → lookup k (pairs_of fs) ≡ some (string s)
      → api.string_field fs (k ∷ []) ≡ some s

all_texts_of : (vs : List String) → all_texts (items_of (string_items vs)) ≡ some vs
unfolding all_texts items_of
all_texts_of [] = refl
all_texts_of (v ∷ vs) = rw (all_texts_of vs)

all_labels_of : (m : Labels) → all_labels (pairs_of (label_fields m)) ≡ some m
unfolding all_labels pairs_of
all_labels_of [] = refl
all_labels_of ((k, v) ∷ m) = rw (all_labels_of m)

objects_of_items :
    (es : List SelectorRequirement)
    → objects_of (items_of (requirement_items es)) ≡ map requirement_fields es
unfolding objects_of items_of
objects_of_items [] = refl
objects_of_items (e ∷ es) = ap (λ l. requirement_fields e ∷ l) (objects_of_items es)

module _ (api : Unstructured) (reads : ReadsFields api) where
  string_at_key :
      (fs : Fields) (k s : String)
      → lookup k (pairs_of fs) ≡ some (string s)
      → nested_string api fs (k ∷ []) ≡ s
  unfolding nested_string
  string_at_key fs k s h = rw (nested_string, reads.string fs k s h)

  slice_at_key :
      (fs : Fields) (k : String) (v : Json)
      → lookup k (pairs_of fs) ≡ some v
      → nested_slice api fs (k ∷ []) ≡ as_array v
  unfolding nested_slice
  slice_at_key fs k v h = rw (nested_slice, reads.value fs k, h)

  strings_at_key :
      (fs : Fields) (k : String) (vs : List String)
      → lookup k (pairs_of fs) ≡ some (array (string_items vs))
      → nested_string_slice api fs (k ∷ []) ≡ some vs
  unfolding nested_string_slice
  strings_at_key fs k vs h =
      rw (nested_string_slice, slice_at_key fs k (array (string_items vs)) h) (all_texts_of vs)

  requirement_of_fields : (r : SelectorRequirement) → requirement_of api (requirement_fields r) ≡ r
  unfolding lookup pairs_of
  requirement_of_fields r =
      let k = string_at_key (requirement_fields r) "key" r.key refl in
      let o = string_at_key (requirement_fields r) "operator" r.operator refl in
      let v =
        ap (λ (x : Option (List String)). elim x [ none ↦ [] | some vs ↦ vs ])
          (strings_at_key (requirement_fields r) "values" r.values refl) in
      λ i. record { key = k i; operator = o i; values = v i }

  maps_at_key :
      (fs : Fields) (k : String) (es : List SelectorRequirement)
      → lookup k (pairs_of fs) ≡ some (array (requirement_items es))
      → maps_at api fs (k ∷ []) ≡ map requirement_fields es
  unfolding maps_at
  maps_at_key fs k es h =
      rw (maps_at, slice_at_key fs k (array (requirement_items es)) h) (objects_of_items es)

  labels_at_key :
      (fs : Fields) (k : String) (m : Labels)
      → lookup k (pairs_of fs) ≡ some (object (label_fields m))
      → nested_string_map api fs (k ∷ []) ≡ some m
  unfolding nested_string_map nested_map
  labels_at_key fs k m h = rw (nested_string_map, nested_map, reads.value fs k, h) (all_labels_of m)

  no_labels_at_key :
      (fs : Fields) (k : String)
      → lookup k (pairs_of fs) ≡ none
      → nested_string_map api fs (k ∷ []) ≡ none
  unfolding nested_string_map nested_map
  no_labels_at_key fs k h = rw (nested_string_map, nested_map, reads.value fs k, h)

  next_requirement :
      (e : SelectorRequirement) (es : List SelectorRequirement)
      → requirements_of api (map requirement_fields (e ∷ es)) ≡ (
          if not (valid_operator e.operator)
          then err invalid_operator
          else (requirements_of api (map requirement_fields es) >>= λ rs. ok (e ∷ rs)))
  unfolding requirements_of
  next_requirement e es =
      ap
        (λ (r : SelectorRequirement).
          if not (valid_operator r.operator)
          then err invalid_operator
          else (requirements_of api (map requirement_fields es) >>= λ rs. ok (r ∷ rs)))
        (requirement_of_fields e)

  -- Both loops take the same expressions, or both fail.
  SameExpressions : List SelectorRequirement → Type 0
  SameExpressions es =
      ((checked_expressions es ≡ ok es) × (requirements_of api (map requirement_fields es) ≡ ok es))
      ⊎ ((checked_expressions es ≡ err unknown_operator)
          × (requirements_of api (map requirement_fields es) ≡ err invalid_operator))

  expressions_agree : (es : List SelectorRequirement) → SameExpressions es
  unfolding checked_expressions requirements_of SameExpressions
  expressions_agree [] = inl (refl, refl)
  expressions_agree (e ∷ es) = elim (Bool-cases (not (valid_operator e.operator))) [
    | inl b ↦ inr (rw (checked_expressions, b), next_requirement e es ∙ rw b)
    | inr b ↦ elim (expressions_agree es) [
      | inl (p, q) ↦ inl (rw (checked_expressions, b, p), next_requirement e es ∙ rw (b, q))
      | inr (p, q) ↦ inr (rw (checked_expressions, b, p), next_requirement e es ∙ rw (b, q))
    ]
  ]

  present-selector_of :
      (ls : Option Labels) (es : List SelectorRequirement)
      → present ls es ≡ selector_of (record { match_labels = ls; match_expressions = es }) es
  unfolding selector_of
  present-selector_of none [] = refl
  present-selector_of none (e ∷ es) = refl
  present-selector_of (some m) es = refl

  read_expressions :
      (ls : Option Labels) (es : List SelectorRequirement)
      → maps_at api (wrapper_fields ls es) ("matchExpressions" ∷ []) ≡ map requirement_fields es
  unfolding lookup pairs_of
  read_expressions none es = maps_at_key (wrapper_fields none es) "matchExpressions" es refl
  read_expressions (some m) es = maps_at_key (wrapper_fields (some m) es) "matchExpressions" es refl

  read_labels :
      (ls : Option Labels) (es : List SelectorRequirement)
      → nested_string_map api (wrapper_fields ls es) ("matchLabels" ∷ []) ≡ ls
  unfolding lookup pairs_of
  read_labels none es = no_labels_at_key (wrapper_fields none es) "matchLabels" refl
  read_labels (some m) es = labels_at_key (wrapper_fields (some m) es) "matchLabels" m refl

  read_from_manifest :
      (ls : Option Labels) (es : List SelectorRequirement)
      → Distinct (keys (entries ls))
      → match_labels (some (object (wrapper_fields ls es))) ≡ (
          checked_expressions es >>= λ es'.
          ok (selector_of (record { match_labels = ls; match_expressions = es }) es'))
  unfolding match_labels
  read_from_manifest ls es d =
      ap
        (λ (x : Option Wrapper). elim x [
          | none ↦ err bad_selector
          | some w ↦ (checked_expressions w.match_expressions >>= λ es'. ok (selector_of w es'))
        ])
        (decode_wrapper_fields ls es d)

  read_from_cluster :
      (ls : Option Labels) (es : List SelectorRequirement) (o : Fields) (path : List String)
      → nested_map api o path ≡ some (wrapper_fields ls es)
      → match_labels_from api o path
        ≡ (requirements_of api (map requirement_fields es) >>= λ reqs. ok (present ls reqs))
  unfolding match_labels_from
  read_from_cluster ls es o path h =
      rw (match_labels_from, h, read_expressions ls es, read_labels ls es)

  -- Where a path of one key is read as the value of that key, a selector of labels without a key
  -- twice and of requirements is read from a manifest and from an object of the cluster as one and
  -- the same, nil and empty maps told apart, or it is refused by both for an unknown operator.
  pub selectors_agree :
      (ls : Option Labels) (es : List SelectorRequirement) (o : Fields) (path : List String)
      → Distinct (keys (entries ls))
      → nested_map api o path ≡ some (wrapper_fields ls es)
      → match_labels (some (object (wrapper_fields ls es)))
        ≡ relabel unknown_operator (match_labels_from api o path)
  unfolding SameExpressions
  selectors_agree ls es o path d h = elim (expressions_agree es) [
    | inl (p, q) ↦
        let c : match_labels_from api o path ≡ ok (present ls es) =
          read_from_cluster ls es o path h ∙ rw q in
        read_from_manifest ls es d
        ∙ (rw p)
        ∙ ap ok (sym (present-selector_of ls es))
        ∙ sym (ap (relabel unknown_operator) c)
    | inr (p, q) ↦
        let c : match_labels_from api o path ≡ err invalid_operator =
          read_from_cluster ls es o path h ∙ rw q in
        read_from_manifest ls es d ∙ (rw p) ∙ sym (ap (relabel unknown_operator) c)
  ]
