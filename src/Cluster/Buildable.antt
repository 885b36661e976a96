-- ===== src/Cluster/Buildable.antt =====
-- internal/cluster/build.go and selector.go: which unstructured objects can be built.
use krsm.Prelude.{
  String, some, List, [], ◌∷◌, ◌≡◌, ◌≢◌, refl, sym, ap, ◌∙◌, inl, inr, ◌∈◌, ◌==◌, ne, neq_false,
  Bool-cases, ok, Json, object, array, Fields, Items, items_of,
}
use krsm.Selector.{LabelSelector, SelectorRequirement}
use krsm.Model.Clause.{no_selector}
use krsm.Cluster.{
  Unstructured, nested_string, nested_string_map, maps_at, objects_of, requirements_of,
  requirement_of, present, match_labels_from, service_selector, selector_from_unstructured,
}
use krsm.Cluster.Strings.{TextAt, nested_string-TextAt, nested_string_neq}
use krsm.Cluster.Contents.{nested_map_cases, nested_slice_cases, as_object-cases}
use krsm.Cluster.Selectors.{selector_path}
use krsm.Cluster.Selects.{operators, valid_operator_iff}
use krsm.Cluster.Build.{kind_name}

-- The entries of the selector of a kind, other than a Service, have known operators.
abbrev pub Operates : Unstructured → Fields → String → Type 0
Operates api o kind =
    (wrap : Fields) (vs : Items) (entry : Fields) (op : String)
    → kind ≢ "Service"
    → api.field_no_copy o (selector_path kind) ≡ some (object wrap)
    → api.field_no_copy wrap ("matchExpressions" ∷ []) ≡ some (array vs)
    → object entry ∈ items_of vs
    → TextAt api entry ("operator" ∷ []) op
    → op ∈ operators

-- The object has a kind and a name, and no unknown operator in its selector.
pub record Buildable (api : Unstructured) (o : Fields) : Type 0 where
  pub kind : ¬ TextAt api o ("kind" ∷ []) ""
  pub name : ¬ TextAt api o ("metadata" ∷ "name" ∷ []) ""
  pub operates : (kind : String) → TextAt api o ("kind" ∷ []) kind → Operates api o kind

-- The maps among values are values.
objects_of-∈ : (vs : List Json) (m : Fields) → m ∈ objects_of vs → object m ∈ vs
unfolding objects_of
objects_of-∈ [] m k = absurd k
objects_of-∈ (v ∷ vs) m k = elim (as_object-cases v) [
  | inr (_, e) ↦ inr (objects_of-∈ vs m (rw (objects_of, e) at k))
  | inl (fs, e) ↦ elim (first fs e) [
    | inl p ↦ inl (ap object p ∙ sym e)
    | inr j ↦ inr (objects_of-∈ vs m j)
  ]
]
  where
    first : (fs : Fields) → v ≡ object fs → m ∈ fs ∷ objects_of vs
    first fs e = rw (objects_of, e) at k

module _ (api : Unstructured) where
  pub kind_name_total :
      (o : Fields)
      → Buildable api o
      → kind_name api o
        ≡ ok (nested_string api o ("kind" ∷ []), nested_string api o ("metadata" ∷ "name" ∷ []))
  unfolding kind_name
  kind_name_total o w = rw (
    kind_name,
    neq_false (nested_string api o ("kind" ∷ [])) "" (nested_string_neq api o ("kind" ∷ []) w.kind),
    neq_false (nested_string api o ("metadata" ∷ "name" ∷ [])) ""
        (nested_string_neq api o ("metadata" ∷ "name" ∷ []) w.name),
  )

  requirements_of_total :
      (ms : List Fields)
      → ((m : Fields) → m ∈ ms → nested_string api m ("operator" ∷ []) ∈ operators)
      → (rs : List SelectorRequirement) × (requirements_of api ms ≡ ok rs)
  unfolding requirements_of
  requirements_of_total [] h = ([], refl)
  requirements_of_total (m ∷ ms) h =
      let valid = (valid_operator_iff (nested_string api m ("operator" ∷ []))).1 (h m (inl refl)) in
      let (rs, e) = requirements_of_total ms (λ x k. h x (inr k)) in
      (requirement_of api m ∷ rs, rw (requirements_of, valid, e))

  match_labels_from_total :
      (o : Fields) (kind : String)
      → kind ≢ "Service"
      → Operates api o kind
      → (sel : LabelSelector) × (match_labels_from api o (selector_path kind) ≡ ok sel)
  unfolding match_labels_from maps_at
  match_labels_from_total o kind n h = elim (nested_map_cases api o (selector_path kind)) [
    | inr (a, e) ↦ (no_selector, rw (match_labels_from, e))
    | inl (wrap, f, e) ↦
        let labels = nested_string_map api wrap ("matchLabels" ∷ []) in
        elim (nested_slice_cases api wrap ("matchExpressions" ∷ [])) [
          | inr (a, g) ↦ (present labels [], rw (match_labels_from, e, maps_at, g))
          | inl (vs, k, g) ↦
              let (rs, r) = requirements_of_total (objects_of (items_of vs)) (λ m j.
                h wrap vs m (nested_string api m ("operator" ∷ [])) n f k
                  (objects_of-∈ (items_of vs) m j)
                  (nested_string-TextAt api m ("operator" ∷ []))) in
              (present labels rs, rw (match_labels_from, e, maps_at, g, r))
        ]
  ]

  pub selector_from_unstructured_total :
      (o : Fields) (kind : String)
      → Operates api o kind
      → (sel : LabelSelector) × (selector_from_unstructured api kind o ≡ ok sel)
  unfolding selector_from_unstructured
  selector_from_unstructured_total o kind h = elim (Bool-cases (kind == "Service")) [
    | inl e ↦ (service_selector api o, rw (selector_from_unstructured, e))
    | inr n ↦
        let (sel, s) = match_labels_from_total o kind (ne kind "Service" n) h in
        (
          sel,
          elim (Bool-cases (kind == "NetworkPolicy")) [
            | inl e ↦ rw (selector_from_unstructured, n, e) (rw e at s)
            | inr e ↦ rw (selector_from_unstructured, n, e) (rw e at s)
          ],
        )
  ]
