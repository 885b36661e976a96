-- ===== src/Cluster/Selects.antt =====
-- internal/cluster/selector.go: what a selector of an unstructured object requires, entry by entry.
use krsm.Prelude.{
  String, true, none, some, List, [], ◌∷◌, ◌≡◌, ◌≢◌, refl, sym, ap, ◌↔◌, ◌⊎◌, inl, inr, ◌∈◌, subst,
  ◌==◌, ne, eq_iff, Bool-cases, Option-cases, >>=-eq-ok, ok_injective, Option, Result, ok, object,
  Fields,
}
use krsm.Selector.{Labels, LabelSelector, SelectorRequirement, valid_operator}
use krsm.Model.Clause.{no_selector}
use krsm.Cluster.{
  BuildError, Unstructured, nested_string, nested_string_map, nested_string_slice, maps_at,
  requirements_of, requirement_of, present, match_labels_from, service_selector,
  selector_from_unstructured,
}
use krsm.Cluster.Strings.{TextAt, nested_string-TextAt}
use krsm.Cluster.Contents.{
  OrEmpty, as_read, as_empty, LabelsAt, TextsAt, MapsAt, nested_map_cases,
  nested_string_map-LabelsAt, nested_string_slice-TextsAt, maps_at-MapsAt,
}
use krsm.Cluster.Selectors.{selector_path}

abbrev pub operators : List String
operators = "In" ∷ "NotIn" ∷ "Exists" ∷ "DoesNotExist" ∷ []

pub valid_operator_iff : (s : String) → (valid_operator s ≡ true) ↔ (s ∈ operators)
unfolding valid_operator
valid_operator_iff s = (
  λ h. elim (Bool-cases (s == "In")) [
    | inl e ↦ inl ((eq_iff s "In").0 e)
    | inr e ↦ elim (Bool-cases (s == "NotIn")) [
      | inl f ↦ inr (inl ((eq_iff s "NotIn").0 f))
      | inr f ↦ elim (Bool-cases (s == "Exists")) [
        | inl g ↦ inr (inr (inl ((eq_iff s "Exists").0 g)))
        | inr g ↦
            inr (inr (inr (inl ((eq_iff s "DoesNotExist").0 (rw (valid_operator, e, f, g) at h)))))
      ]
    ]
  ],
  λ m. elim m [
    | inl e ↦ ap valid_operator e
    | inr (inl e) ↦ ap valid_operator e
    | inr (inr (inl e)) ↦ ap valid_operator e
    | inr (inr (inr (inl e))) ↦ ap valid_operator e
    | inr (inr (inr (inr no_more))) ↦ absurd no_more
  ],
)

pub OrEmpty_total : (o : Option (List String)) → OrEmpty o (elim o [ none ↦ [] | some xs ↦ xs ])
OrEmpty_total none = as_empty
OrEmpty_total (some xs) = as_read

module _ (api : Unstructured) where
  -- The requirement is that of an entry: its key, a known operator, and its values if all are texts.
  pub record Requires (m : Fields) (r : SelectorRequirement) : Type 0 where
    pub key : TextAt api m ("key" ∷ []) r.key
    pub operator : TextAt api m ("operator" ∷ []) r.operator
    pub known : r.operator ∈ operators
    pub texts : Option (List String)
    pub texts_at : TextsAt api m ("values" ∷ []) texts
    pub values : OrEmpty texts r.values

  -- Entry by entry, in order.
  pub data RequiresAll : List Fields → List SelectorRequirement → Type 0 where
    no_entries : RequiresAll [] []
    one_entry :
        {m : Fields} {r : SelectorRequirement} {ms : List Fields} {rs : List SelectorRequirement}
        → Requires m r
        → RequiresAll ms rs
        → RequiresAll (m ∷ ms) (r ∷ rs)

  -- The labels and entries of a wrapper; a wrapper of neither gives an empty map of labels.
  pub data Wraps (wrap : Fields) : LabelSelector → Type 0 where
    sets_nothing :
        LabelsAt api wrap ("matchLabels" ∷ []) none
        → MapsAt api wrap ("matchExpressions" ∷ []) []
        → Wraps wrap (record { match_labels = some []; match_expressions = [] })
    sets :
        {labels : Option Labels} {ms : List Fields} {rs : List SelectorRequirement}
        → LabelsAt api wrap ("matchLabels" ∷ []) labels
        → MapsAt api wrap ("matchExpressions" ∷ []) ms
        → RequiresAll ms rs
        → (labels ≢ none) ⊎ (rs ≢ [])
        → Wraps wrap (record { match_labels = labels; match_expressions = rs })

  -- The selector of an object of a kind: nil where there is no map at the path of the kind, the
  -- labels of the map for a Service, and what the wrapper sets for any other kind.
  pub data Selects (o : Fields) (kind : String) : LabelSelector → Type 0 where
    is_absent :
        ((fs : Fields) → api.field_no_copy o (selector_path kind) ≢ some (object fs))
        → Selects o kind no_selector
    is_flat :
        {fs : Fields} {read : Option Labels} {labels : Labels}
        → kind ≡ "Service"
        → api.field_no_copy o (selector_path kind) ≡ some (object fs)
        → LabelsAt api o (selector_path kind) read
        → OrEmpty read labels
        → Selects o kind (record { match_labels = some labels; match_expressions = [] })
    is_wrapper :
        {wrap : Fields} {sel : LabelSelector}
        → kind ≢ "Service"
        → api.field_no_copy o (selector_path kind) ≡ some (object wrap)
        → Wraps wrap sel
        → Selects o kind sel

  requirements_of-RequiresAll :
      (ms : List Fields) (rs : List SelectorRequirement)
      → requirements_of api ms ≡ ok rs
      → RequiresAll ms rs
  unfolding requirements_of
  requirements_of-RequiresAll [] rs h = subst (RequiresAll []) (ok_injective [] rs h) no_entries
  requirements_of-RequiresAll (m ∷ ms) rs h =
      elim (Bool-cases (valid_operator (nested_string api m ("operator" ∷ [])))) [
        | inr e ↦ absurd (cc (rw (requirements_of, e) at h))
        | inl e ↦
            let keep : List SelectorRequirement → Result BuildError (List SelectorRequirement) =
              λ qs. ok (requirement_of api m ∷ qs) in
            let (qs, f, g) =
              >>=-eq-ok (requirements_of api ms) keep rs (rw (requirements_of, e) at h) in
            subst (RequiresAll (m ∷ ms)) (ok_injective (requirement_of api m ∷ qs) rs g) (
              one_entry
                (record {
                  key = nested_string-TextAt api m ("key" ∷ []);
                  operator = nested_string-TextAt api m ("operator" ∷ []);
                  known = (valid_operator_iff (nested_string api m ("operator" ∷ []))).0 e;
                  texts = nested_string_slice api m ("values" ∷ []);
                  texts_at = nested_string_slice-TextsAt api m ("values" ∷ []);
                  values = OrEmpty_total (nested_string_slice api m ("values" ∷ []));
                })
                (requirements_of-RequiresAll ms qs f))
      ]

  present-Wraps :
      (wrap : Fields) (labels : Option Labels) (ms : List Fields) (rs : List SelectorRequirement)
      → LabelsAt api wrap ("matchLabels" ∷ []) labels
      → MapsAt api wrap ("matchExpressions" ∷ []) ms
      → RequiresAll ms rs
      → Wraps wrap (present labels rs)
  present-Wraps wrap none _ _ l m no_entries = sets_nothing l m
  present-Wraps wrap none _ _ l m (one_entry w ws) =
      sets l m (one_entry w ws) (inr (λ e. absurd (cc)))
  present-Wraps wrap (some ls) ms rs l m w = sets l m w (inl (λ e. absurd (cc)))

  match_labels_from-Selects :
      (o : Fields) (kind : String) (sel : LabelSelector)
      → kind ≢ "Service"
      → match_labels_from api o (selector_path kind) ≡ ok sel
      → Selects o kind sel
  unfolding match_labels_from
  match_labels_from-Selects o kind sel n h = elim (nested_map_cases api o (selector_path kind)) [
    | inr (a, e) ↦
        subst (Selects o kind) (ok_injective no_selector sel (rw (match_labels_from, e) at h))
          (is_absent a)
    | inl (wrap, f, e) ↦
        let labels = nested_string_map api wrap ("matchLabels" ∷ []) in
        let ms = maps_at api wrap ("matchExpressions" ∷ []) in
        let (rs, g, k) =
          >>=-eq-ok (requirements_of api ms) (λ qs. ok (present labels qs)) sel
            (rw (match_labels_from, e) at h) in
        is_wrapper n f (
          subst (Wraps wrap) (ok_injective (present labels rs) sel k) (
            present-Wraps wrap labels ms rs
              (nested_string_map-LabelsAt api wrap ("matchLabels" ∷ []))
              (maps_at-MapsAt api wrap ("matchExpressions" ∷ []))
              (requirements_of-RequiresAll ms rs g)))
  ]

  service_selector-Selects : (o : Fields) → Selects o "Service" (service_selector api o)
  unfolding service_selector
  service_selector-Selects o =
      let path : List String = "spec" ∷ "selector" ∷ [] in
      elim (nested_map_cases api o path) [
        | inr (a, e) ↦ rw (service_selector, e) (is_absent a)
        | inl (fs, f, e) ↦ elim (Option-cases (nested_string_map api o path)) [
          | inl g ↦
              rw (service_selector, e, g)
                (is_flat refl f
                  (subst (LabelsAt api o path) g (nested_string_map-LabelsAt api o path)) as_empty)
          | inr (ls, g) ↦
              rw (service_selector, e, g)
                (is_flat refl f
                  (subst (LabelsAt api o path) g (nested_string_map-LabelsAt api o path)) as_read)
        ]
      ]

  pub selector_from_unstructured-Selects :
      (kind : String) (o : Fields) (sel : LabelSelector)
      → selector_from_unstructured api kind o ≡ ok sel
      → Selects o kind sel
  unfolding selector_from_unstructured
  selector_from_unstructured-Selects kind o sel h = elim (Bool-cases (kind == "Service")) [
    | inl e ↦
        subst (Selects o kind)
          (ok_injective (service_selector api o) sel (rw (selector_from_unstructured, e) at h))
          (subst (λ k. Selects o k (service_selector api o)) (sym ((eq_iff kind "Service").0 e))
            (service_selector-Selects o))
    | inr n ↦
        match_labels_from-Selects o kind sel (ne kind "Service" n)
          (elim (Bool-cases (kind == "NetworkPolicy")) [
            | inl e ↦ rw e (rw (n, selector_from_unstructured, e) at h)
            | inr e ↦ rw e (rw (n, selector_from_unstructured, e) at h)
          ])
  ]
