-- ===== src/Cluster.antt =====
-- internal/cluster: the projection of unstructured objects, as the API server returns them, to the
-- objects of the engine (build.go, selector.go, crossref.go, index.go). The calls of apimachinery are
-- the record `Unstructured`; the texts of the errors are left out.
pub mod Strings
pub mod Buildable
pub mod Projection
pub mod Selects
pub mod Contents
pub mod Listable
pub mod Total
pub mod Resolve
pub mod Targets
pub mod Live
pub mod Reader
pub mod Index
pub mod Snapshot
pub mod Selectors
pub mod References
pub mod Build
use krsm.Prelude.{
  Result, ok, err, ◌>>=◌, ℕ, String, Bool, true, false, not, ◌&&◌, ◌||◌, Option, none, some, List,
  [], ◌∷◌, ◌++◌, map, ◌==◌, if◌then◌else◌, cut, Json, string, object, array, Fields, pairs_of,
  items_of,
}
use krsm.Selector.{Labels, LabelSelector, SelectorRequirement, valid_operator, is_none, is_empty}
use krsm.Model.{
  Gvk, Ref, OwnerRef, RefKind, ref_volume, ref_env_from, ref_env, ref_scale_target,
  ref_image_pull_secret, CrossRef, Object,
}
use krsm.Model.Clause.{no_selector}

-- `NestedFieldNoCopy` and `NestedString` of apimachinery: the value at a path, and the text at a
-- path; `none` where the path is missing or runs through a value of another type.
pub record Unstructured : Type 0 where
  pub field_no_copy : Fields → List String → Option Json
  pub string_field : Fields → List String → Option String

-- The errors of a projection; each ends the whole of it.
pub data BuildError : Type 0 where
  missing_kind missing_name invalid_operator : BuildError

-- `s, ok := v.(string)`, and the same for a map and a slice.
abbrev pub as_text : Json → Option String
as_text (string s) = some s
as_text _ = none

abbrev pub as_object : Json → Option Fields
as_object (object fs) = some fs
as_object _ = none

abbrev pub as_array : Json → Option (List Json)
as_array (array vs) = some (items_of vs)
as_array _ = none

-- The values of a map or the elements of a slice, if every one is a string.
unfoldable pub all_texts : List Json → Option (List String)
all_texts [] = some []
all_texts (v ∷ vs) = elim (as_text v) [
  | none ↦ none
  | some s ↦ elim (all_texts vs) [ none ↦ none | some ss ↦ some (s ∷ ss) ]
]

unfoldable pub all_labels : List (String × Json) → Option Labels
all_labels [] = some []
all_labels ((k, v) ∷ ps) = elim (as_text v) [
  | none ↦ none
  | some s ↦ elim (all_labels ps) [ none ↦ none | some m ↦ some ((k, s) ∷ m) ]
]

-- The maps among the elements of a slice: the others are skipped.
unfoldable pub objects_of : List Json → List Fields
objects_of [] = []
objects_of (v ∷ vs) = elim (as_object v) [ none ↦ objects_of vs | some fs ↦ fs ∷ objects_of vs ]

-- A wrapper that is there and sets nothing gives an empty map, not a nil one.
abbrev pub present : Option Labels → List SelectorRequirement → LabelSelector
present none [] = record { match_labels = some []; match_expressions = [] }
present labels reqs = record { match_labels = labels; match_expressions = reqs }

module _ (api : Unstructured) where
  unfoldable pub nested_string : Fields → List String → String
  nested_string obj path = elim (api.string_field obj path) [ none ↦ "" | some s ↦ s ]

  unfoldable pub nested_slice : Fields → List String → Option (List Json)
  nested_slice obj path = elim (api.field_no_copy obj path) [ none ↦ none | some v ↦ as_array v ]

  unfoldable pub nested_map : Fields → List String → Option Fields
  nested_map obj path = elim (api.field_no_copy obj path) [ none ↦ none | some v ↦ as_object v ]

  unfoldable pub nested_string_map : Fields → List String → Option Labels
  unfolding nested_map all_labels
  nested_string_map obj path = elim (nested_map obj path) [
    | none ↦ none
    | some m ↦ all_labels (pairs_of m)
  ]

  unfoldable pub nested_string_slice : Fields → List String → Option (List String)
  unfolding nested_slice all_texts
  nested_string_slice obj path = elim (nested_slice obj path) [
    | none ↦ none
    | some vs ↦ all_texts vs
  ]

  -- The maps of the slice at a path, none where there is no slice.
  unfoldable pub maps_at : Fields → List String → List Fields
  unfolding nested_slice objects_of
  maps_at obj path = elim (nested_slice obj path) [ none ↦ [] | some vs ↦ objects_of vs ]

  unfoldable pub has_field : Fields → List String → Bool
  unfolding nested_map
  has_field obj path = not (is_none (nested_map obj path))

  -- One entry of `matchExpressions`; values that are not all strings are none.
  abbrev pub requirement_of : Fields → SelectorRequirement
  requirement_of m = record {
    key = nested_string m ("key" ∷ []);
    operator = nested_string m ("operator" ∷ []);
    values = elim (nested_string_slice m ("values" ∷ [])) [ none ↦ [] | some vs ↦ vs ];
  }

  -- The loop over `matchExpressions`.
  unfoldable pub requirements_of : List Fields → Result BuildError (List SelectorRequirement)
  unfolding nested_string nested_string_slice
  requirements_of [] = ok []
  requirements_of (m ∷ ms) =
      let rest = requirements_of ms in
      if not (valid_operator (requirement_of m).operator)
      then err invalid_operator
      else (rest >>= λ rs. ok (requirement_of m ∷ rs))

  unfoldable pub match_labels_from : Fields → List String → Result BuildError LabelSelector
  unfolding nested_map nested_string_map maps_at requirements_of
  match_labels_from o path = elim (nested_map o path) [
    | none ↦ ok no_selector
    | some wrap ↦
        (requirements_of (maps_at wrap ("matchExpressions" ∷ [])) >>= λ reqs.
        ok (present (nested_string_map wrap ("matchLabels" ∷ [])) reqs))
  ]

  -- The flat selector of a Service.
  unfoldable pub service_selector : Fields → LabelSelector
  unfolding nested_map nested_string_map
  service_selector o =
      let path = "spec" ∷ "selector" ∷ [] in
      elim (nested_map o path) [
        | none ↦ no_selector
        | some _ ↦ elim (nested_string_map o path) [
          | none ↦ record { match_labels = some []; match_expressions = [] }
          | some m ↦ record { match_labels = some m; match_expressions = [] }
        ]
      ]

  unfoldable pub selector_from_unstructured : String → Fields → Result BuildError LabelSelector
  unfolding service_selector match_labels_from
  selector_from_unstructured kind o =
      if kind == "Service"
      then ok (service_selector o)
      else if kind == "NetworkPolicy"
      then match_labels_from o ("spec" ∷ "podSelector" ∷ [])
      else match_labels_from o ("spec" ∷ "selector" ∷ [])
