-- ===== src/Tests/Snapshots.antt =====
-- Unstructured objects, read by a walk along the path.
use krsm.Prelude.{
  String, true, false, Option, some, none, List, [], ◌∷◌, ◌≡◌, refl, ◌==◌, ◌∙◌, inl, inr,
  Bool-cases, lookup, pairs_of, relabel, ap, ok, Json, null, string, object, array, other, Fields,
  no_fields, field, no_items, item, items_of,
}
use krsm.Closure.Keys.{are_distinct, are_distinct-Distinct}
use krsm.Cluster.{nested_map, match_labels_from, Unstructured, as_text, selector_from_unstructured}
use krsm.Scenario.{unknown_operator}
use krsm.Scenario.Selectors.{match_labels}
use krsm.Scenario.Encoded.{wrapper_fields}
use krsm.Scenario.Parity.{ReadsFields, selectors_agree}
use krsm.Selector.{Labels, SelectorRequirement, LabelSelector, valid_operator}
use krsm.Model.{Object}
use krsm.Cluster.Selectors.{Reads, selector_path, selector_from_unstructured-Reads}
use krsm.Cluster.References.{NameUidIndex}
use krsm.Cluster.Build.{ScopeInfo, build_objects, new_name_uid_index}
use krsm.Cluster.Snapshot.{Mirrors, build_objects-Mirrors}

abbrev pub child : Fields → String → Option Json
child no_fields k = none
child (field j v fs) k = elim (j == k) [ true ↦ some v | false ↦ child fs k ]

-- The value at a path.
unfoldable pub value_at : Fields → List String → Option Json
value_at fs [] = some (object fs)
value_at fs (k ∷ []) = child fs k
value_at fs (k ∷ j ∷ path) = elim (child fs k) [
  | some (object inner) ↦ value_at inner (j ∷ path)
  | some (string s) ↦ none
  | some (array vs) ↦ none
  | some other ↦ none
  | some null ↦ none
  | none ↦ none
]

abbrev pub api : Unstructured
api = record {
  field_no_copy = value_at;
  string_field = λ fs path. elim (value_at fs path) [ none ↦ none | some v ↦ as_text v ];
}

abbrev string_at : String → String → Fields → Fields
string_at k v fs = field k (string v) fs

-- A ConfigMap.
abbrev pub config_map : Fields
config_map = string_at "apiVersion" "v1" (
    string_at "kind" "ConfigMap" (
      field "metadata"
        (object
          (string_at "name" "cfg" (string_at "namespace" "shop" (string_at "uid" "c1" no_fields))))
        no_fields))

-- A NetworkPolicy with a set-based selector.
abbrev policy : Fields
policy = string_at "apiVersion" "networking.k8s.io/v1" (
    string_at "kind" "NetworkPolicy" (
      field "metadata"
        (object
          (string_at "name" "deny" (string_at "namespace" "shop" (string_at "uid" "n1" no_fields))))
        (field "spec"
          (object (
            field "podSelector"
              (object (
                field "matchExpressions"
                  (array (
                    item (object (string_at "key" "app" (string_at "operator" "Exists" no_fields)))
                      no_items))
                  no_fields))
              no_fields))
          no_fields)))

abbrev everything_namespaced : ScopeInfo
everything_namespaced gvk = some true

abbrev app_exists : LabelSelector
app_exists = record {
  match_labels = none;
  match_expressions = record { key = "app"; operator = "Exists"; values = [] } ∷ [];
}

policy_run : selector_from_unstructured api "NetworkPolicy" policy ≡ ok app_exists
unfolding selector_from_unstructured value_at valid_operator items_of
policy_run = refl

selector_from_unstructured-Reads_example :
    Reads api policy (selector_path "NetworkPolicy") app_exists
selector_from_unstructured-Reads_example =
    selector_from_unstructured-Reads api "NetworkPolicy" policy app_exists policy_run

abbrev listed : List Fields
listed = config_map ∷ policy ∷ []

abbrev listed_index : NameUidIndex
listed_index =
    (record { kind = "NetworkPolicy"; namespace = "shop"; name = "deny" }, "n1")
    ∷ (record { kind = "ConfigMap"; namespace = "shop"; name = "cfg" }, "c1")
    ∷ []

index_run : new_name_uid_index api everything_namespaced listed ≡ ok listed_index
unfolding new_name_uid_index value_at
index_run = refl

abbrev pub built_config : Object
built_config = record {
  ref = record {
    gvk = record { group = ""; version = "v1"; kind = "ConfigMap" };
    namespace = "shop";
    name = "cfg";
    uid = "c1";
  };
  labels = [];
  selector = record { match_labels = none; match_expressions = [] };
  owners = [];
  cross_refs = [];
  finalizers = [];
}

abbrev built_policy : Object
built_policy = record {
  ref = record {
    gvk = record { group = "networking.k8s.io"; version = "v1"; kind = "NetworkPolicy" };
    namespace = "shop";
    name = "deny";
    uid = "n1";
  };
  labels = [];
  selector = app_exists;
  owners = [];
  cross_refs = [];
  finalizers = [];
}

built_run : build_objects api everything_namespaced listed ≡ ok (built_config ∷ built_policy ∷ [])
unfolding build_objects value_at valid_operator items_of
built_run = refl

build_objects-Mirrors_example :
    Mirrors api everything_namespaced listed (built_config ∷ built_policy ∷ [])
build_objects-Mirrors_example =
    build_objects-Mirrors api everything_namespaced listed (built_config ∷ built_policy ∷ [])
      built_run

child-lookup : (fs : Fields) (k : String) → child fs k ≡ lookup k (pairs_of fs)
unfolding lookup pairs_of
child-lookup no_fields k = refl
child-lookup (field j v fs) k = elim (Bool-cases (j == k)) [
  | inl e ↦ rw (child, e)
  | inr e ↦ rw (child, e) (child-lookup fs k)
]

api-ReadsFields : ReadsFields api
unfolding value_at
api-ReadsFields = record {
  value = child-lookup;
  string = λ fs k s h.
      ap (λ (x : Option Json). elim x [ none ↦ none | some v ↦ as_text v ]) (child-lookup fs k ∙ h);
}

abbrev web_labels : Labels
web_labels = ("app", "web") ∷ ("tier", "") ∷ []

abbrev exists_app : SelectorRequirement
exists_app = record { key = "app"; operator = "Exists"; values = [] }

abbrev workload : Fields
workload =
    field "spec"
      (object
        (field "selector" (object (wrapper_fields (some web_labels) (exists_app ∷ []))) no_fields))
      no_fields

workload_run :
    nested_map api workload ("spec" ∷ "selector" ∷ [])
    ≡ some (wrapper_fields (some web_labels) (exists_app ∷ []))
unfolding nested_map value_at
workload_run = refl

selectors_agree_example :
    match_labels (some (object (wrapper_fields (some web_labels) (exists_app ∷ []))))
    ≡ relabel unknown_operator (match_labels_from api workload ("spec" ∷ "selector" ∷ []))
unfolding are_distinct
selectors_agree_example =
    selectors_agree api api-ReadsFields (some web_labels) (exists_app ∷ []) workload
      ("spec" ∷ "selector" ∷ []) (are_distinct-Distinct ("app" ∷ "tier" ∷ []) refl) workload_run
