-- ===== src/Cluster/Contents.antt =====
-- internal/cluster/build.go: what `nestedStringMap`, `nestedStringSlice` and the loops over slices of
-- maps find in an unstructured object, told by the value that apimachinery gives for the path.
use krsm.Prelude.{
  String, Option, none, some, List, [], ◌∷◌, map, ◌≡◌, ◌≢◌, refl, ap, ◌∙◌, ◌⊎◌, inl, inr,
  Option-cases, Json, null, string, object, array, other, Fields, Items, pairs_of, items_of,
}
use krsm.Selector.{Labels}
use krsm.Cluster.{
  Unstructured, as_text, as_object, as_array, all_texts, all_labels, objects_of, nested_slice,
  nested_map, nested_string_map, nested_string_slice, maps_at,
}

-- What is read, or nothing where nothing can be read.
pub data OrEmpty {A : Type 0} : Option (List A) → List A → Type 0 where
  as_read : {xs : List A} → OrEmpty (some xs) xs
  as_empty : OrEmpty none []

abbrev pub text_pair : String × String → String × Json
text_pair p = (p.0, string p.1)

-- The maps among values, in order.
pub data MapsAmong : List Json → List Fields → Type 0 where
  no_values : MapsAmong [] []
  is_map :
      {fs : Fields} {vs : List Json} {ms : List Fields}
      → MapsAmong vs ms
      → MapsAmong (object fs ∷ vs) (fs ∷ ms)
  is_other :
      {v : Json} {vs : List Json} {ms : List Fields}
      → ((fs : Fields) → v ≢ object fs)
      → MapsAmong vs ms
      → MapsAmong (v ∷ vs) ms

as_text-cases :
    (v : Json)
    → ((s : String) × (v ≡ string s)) ⊎ (((s : String) → v ≢ string s) × (as_text v ≡ none))
as_text-cases null = inr (λ s e. absurd (cc), refl)
as_text-cases (string s) = inl (s, refl)
as_text-cases (object fs) = inr (λ s e. absurd (cc), refl)
as_text-cases (array vs) = inr (λ s e. absurd (cc), refl)
as_text-cases other = inr (λ s e. absurd (cc), refl)

pub as_object-cases :
    (v : Json)
    → ((fs : Fields) × (v ≡ object fs)) ⊎ (((fs : Fields) → v ≢ object fs) × (as_object v ≡ none))
as_object-cases null = inr (λ s e. absurd (cc), refl)
as_object-cases (string s) = inr (λ s e. absurd (cc), refl)
as_object-cases (object fs) = inl (fs, refl)
as_object-cases (array vs) = inr (λ s e. absurd (cc), refl)
as_object-cases other = inr (λ s e. absurd (cc), refl)

as_array-cases :
    (v : Json)
    → ((vs : Items) × (v ≡ array vs)) ⊎ (((vs : Items) → v ≢ array vs) × (as_array v ≡ none))
as_array-cases null = inr (λ s e. absurd (cc), refl)
as_array-cases (string s) = inr (λ s e. absurd (cc), refl)
as_array-cases (object fs) = inr (λ s e. absurd (cc), refl)
as_array-cases (array vs) = inl (vs, refl)
as_array-cases other = inr (λ s e. absurd (cc), refl)

all_labels_sound :
    (ps : List (String × Json)) (ls : Labels) → all_labels ps ≡ some ls → ps ≡ map text_pair ls
unfolding all_labels
all_labels_sound [] ls h = let same : [] ≡ ls = cc in ap (map text_pair) same
all_labels_sound ((k, v) ∷ ps) ls h = elim (as_text-cases v) [
  | inr (_, e) ↦ absurd (cc (rw (all_labels, e) at h))
  | inl (s, e) ↦ elim (Option-cases (all_labels ps)) [
    | inl f ↦ absurd (cc (rw (all_labels, e, f) at h))
    | inr (m, f) ↦
        let same : some ((k, s) ∷ m) ≡ some ls = rw (all_labels, e, f) at h in
        let same' : (k, s) ∷ m ≡ ls = cc in
        ap (λ x. (k, x) ∷ ps) e
        ∙ ap (λ x. (k, string s) ∷ x) (all_labels_sound ps m f)
        ∙ ap (map text_pair) same'
  ]
]

all_labels_complete : (ls : Labels) → all_labels (map text_pair ls) ≡ some ls
unfolding all_labels
all_labels_complete [] = refl
all_labels_complete ((k, s) ∷ ls) = rw (all_labels, all_labels_complete ls)

all_texts_sound : (vs : List Json) (ss : List String) → all_texts vs ≡ some ss → vs ≡ map string ss
unfolding all_texts
all_texts_sound [] ss h = let same : [] ≡ ss = cc in ap (map string) same
all_texts_sound (v ∷ vs) ss h = elim (as_text-cases v) [
  | inr (_, e) ↦ absurd (cc (rw (all_texts, e) at h))
  | inl (s, e) ↦ elim (Option-cases (all_texts vs)) [
    | inl f ↦ absurd (cc (rw (all_texts, e, f) at h))
    | inr (m, f) ↦
        let same : some (s ∷ m) ≡ some ss = rw (all_texts, e, f) at h in
        let same' : s ∷ m ≡ ss = cc in
        ap (λ x. x ∷ vs) e ∙ ap (λ x. string s ∷ x) (all_texts_sound vs m f) ∙ ap (map string) same'
  ]
]

all_texts_complete : (ss : List String) → all_texts (map string ss) ≡ some ss
unfolding all_texts
all_texts_complete [] = refl
all_texts_complete (s ∷ ss) = rw (all_texts, all_texts_complete ss)

objects_of-MapsAmong : (vs : List Json) → MapsAmong vs (objects_of vs)
unfolding objects_of
objects_of-MapsAmong [] = no_values
objects_of-MapsAmong (v ∷ vs) = elim (as_object-cases v) [
  | inl (fs, e) ↦ rw e (is_map (objects_of-MapsAmong vs))
  | inr (n, e) ↦ rw (objects_of, e) (is_other n (objects_of-MapsAmong vs))
]

module _ (api : Unstructured) where
  -- The labels at a path: those of a map of texts, or none where there is no such map.
  pub data LabelsAt (o : Fields) (path : List String) : Option Labels → Type 0 where
    labels_there :
        {fs : Fields} {ls : Labels}
        → api.field_no_copy o path ≡ some (object fs)
        → pairs_of fs ≡ map text_pair ls
        → LabelsAt o path (some ls)
    no_labels :
        ((fs : Fields) (ls : Labels)
          → api.field_no_copy o path ≡ some (object fs)
          → pairs_of fs ≢ map text_pair ls)
        → LabelsAt o path none

  -- The texts at a path: those of a slice of texts, or none where there is no such slice.
  pub data TextsAt (o : Fields) (path : List String) : Option (List String) → Type 0 where
    texts_there :
        {vs : Items} {ss : List String}
        → api.field_no_copy o path ≡ some (array vs)
        → items_of vs ≡ map string ss
        → TextsAt o path (some ss)
    no_texts :
        ((vs : Items) (ss : List String)
          → api.field_no_copy o path ≡ some (array vs)
          → items_of vs ≢ map string ss)
        → TextsAt o path none

  -- The maps at a path: those among the elements of a slice, none where there is no slice.
  pub data MapsAt (o : Fields) (path : List String) : List Fields → Type 0 where
    slice_there :
        {vs : Items} {ms : List Fields}
        → api.field_no_copy o path ≡ some (array vs)
        → MapsAmong (items_of vs) ms
        → MapsAt o path ms
    no_slice : ((vs : Items) → api.field_no_copy o path ≢ some (array vs)) → MapsAt o path []

  pub nested_map_cases :
      (o : Fields) (path : List String)
      → ((fs : Fields) × (api.field_no_copy o path ≡ some (object fs))
          × (nested_map api o path ≡ some fs))
        ⊎ (((fs : Fields) → api.field_no_copy o path ≢ some (object fs))
            × (nested_map api o path ≡ none))
  unfolding nested_map
  nested_map_cases o path = elim (Option-cases (api.field_no_copy o path)) [
    | inl e ↦ inr (λ fs f. cc, rw (nested_map, e))
    | inr (v, e) ↦ elim (as_object-cases v) [
      | inl (fs, f) ↦ inl (fs, e ∙ ap some f, rw (nested_map, e, f))
      | inr (n, f) ↦ inr (λ fs g. n fs (cc), rw (nested_map, e, f))
    ]
  ]

  pub nested_slice_cases :
      (o : Fields) (path : List String)
      → ((vs : Items) × (api.field_no_copy o path ≡ some (array vs))
          × (nested_slice api o path ≡ some (items_of vs)))
        ⊎ (((vs : Items) → api.field_no_copy o path ≢ some (array vs))
            × (nested_slice api o path ≡ none))
  unfolding nested_slice
  nested_slice_cases o path = elim (Option-cases (api.field_no_copy o path)) [
    | inl e ↦ inr (λ fs f. cc, rw (nested_slice, e))
    | inr (v, e) ↦ elim (as_array-cases v) [
      | inl (fs, f) ↦ inl (fs, e ∙ ap some f, rw (nested_slice, e, f))
      | inr (n, f) ↦ inr (λ fs g. n fs (cc), rw (nested_slice, e, f))
    ]
  ]

  pub nested_string_map-LabelsAt :
      (o : Fields) (path : List String) → LabelsAt o path (nested_string_map api o path)
  unfolding nested_string_map
  nested_string_map-LabelsAt o path = elim (nested_map_cases o path) [
    | inr (n, e) ↦ rw (nested_string_map, e) (no_labels (λ fs ls f _. n fs f))
    | inl (fs, f, e) ↦ elim (Option-cases (all_labels (pairs_of fs))) [
      | inr (ls, g) ↦
          rw (nested_string_map, e, g) (labels_there f (all_labels_sound (pairs_of fs) ls g))
      | inl g ↦
          rw (nested_string_map, e, g)
            (no_labels (λ fs' ls f' h.
              let same : fs ≡ fs' = cc in
              cc (
                g,
                ap (λ x. all_labels (pairs_of x)) same,
                ap all_labels h,
                all_labels_complete ls,
              )))
    ]
  ]

  pub nested_string_slice-TextsAt :
      (o : Fields) (path : List String) → TextsAt o path (nested_string_slice api o path)
  unfolding nested_string_slice
  nested_string_slice-TextsAt o path = elim (nested_slice_cases o path) [
    | inr (n, e) ↦ rw (nested_string_slice, e) (no_texts (λ vs ss f _. n vs f))
    | inl (vs, f, e) ↦ elim (Option-cases (all_texts (items_of vs))) [
      | inr (ss, g) ↦
          rw (nested_string_slice, e, g) (texts_there f (all_texts_sound (items_of vs) ss g))
      | inl g ↦
          rw (nested_string_slice, e, g)
            (no_texts (λ vs' ss f' h.
              let same : vs ≡ vs' = cc in
              cc (g, ap (λ x. all_texts (items_of x)) same, ap all_texts h, all_texts_complete ss)))
    ]
  ]

  pub maps_at-MapsAt : (o : Fields) (path : List String) → MapsAt o path (maps_at api o path)
  unfolding maps_at
  maps_at-MapsAt o path = elim (nested_slice_cases o path) [
    | inr (n, e) ↦ rw (maps_at, e) (no_slice n)
    | inl (vs, f, e) ↦ rw (maps_at, e) (slice_there f (objects_of-MapsAmong (items_of vs)))
  ]
