-- ===== src/Cluster/Selectors.antt =====
-- internal/cluster/selector.go: the selectors that are read off unstructured objects.
use krsm.Cluster.{
  BuildError, Unstructured, nested_map, nested_string, nested_string_map, maps_at, requirements_of,
  requirement_of, present, match_labels_from, service_selector, selector_from_unstructured,
}
use krsm.Prelude.{
  String, true, false, Option, none, some, List, [], ◌∷◌, ◌≡◌, refl, sym, ap, ◌∙◌, ◌↔◌, inl, inr,
  ◌∈◌, subst, eq_iff, ◌==◌, if◌then◌else◌, Bool-cases, Option-cases, >>=-eq-ok, ok_injective,
  Result, ok, Fields,
}
use krsm.Selector.{Labels, LabelSelector, SelectorRequirement, is_nil, valid_operator}
use krsm.Model.Clause.{no_selector}

abbrev pub AllValid : List SelectorRequirement → Type 0
AllValid rs = (r : SelectorRequirement) → r ∈ rs → valid_operator r.operator ≡ true

present-is_nil : (m : Option Labels) (rs : List SelectorRequirement) → is_nil (present m rs) ≡ false
unfolding is_nil
present-is_nil none [] = refl
present-is_nil none (r ∷ rs) = refl
present-is_nil (some m) rs = refl

present-expressions :
    (m : Option Labels) (rs : List SelectorRequirement) → (present m rs).match_expressions ≡ rs
present-expressions none [] = refl
present-expressions none (r ∷ rs) = refl
present-expressions (some m) rs = refl

-- The path of the selector of a kind.
abbrev pub selector_path : String → List String
selector_path kind =
    if kind == "NetworkPolicy" then "spec" ∷ "podSelector" ∷ [] else "spec" ∷ "selector" ∷ []

module _ (api : Unstructured) where
  requirements_of-AllValid :
      (ms : List Fields) (rs : List SelectorRequirement)
      → requirements_of api ms ≡ ok rs
      → AllValid rs
  unfolding requirements_of
  requirements_of-AllValid [] rs h = subst AllValid (ok_injective [] rs h) (λ r m. absurd m)
  requirements_of-AllValid (m ∷ ms) rs h =
      elim (Bool-cases (valid_operator (nested_string api m ("operator" ∷ [])))) [
        | inr e ↦ absurd (cc (rw (requirements_of, e) at h))
        | inl e ↦
            let keep : List SelectorRequirement → Result BuildError (List SelectorRequirement) =
              λ qs. ok (requirement_of api m ∷ qs) in
            let (qs, f, g) =
              >>=-eq-ok (requirements_of api ms) keep rs (rw (requirements_of, e) at h) in
            subst AllValid (ok_injective (requirement_of api m ∷ qs) rs g) (λ r k. elim k [
              | inl q ↦ ap (λ (x : SelectorRequirement). valid_operator x.operator) q ∙ e
              | inr k' ↦ requirements_of-AllValid ms qs f r k'
            ])
      ]

  -- What a selector says of the wrapper that it was read from.
  pub record Reads (o : Fields) (path : List String) (sel : LabelSelector) : Type 0 where
    pub presence : (is_nil sel ≡ true) ↔ (nested_map api o path ≡ none)
    pub operators : AllValid sel.match_expressions

  match_labels_from-Reads :
      (o : Fields) (path : List String) (sel : LabelSelector)
      → match_labels_from api o path ≡ ok sel
      → Reads o path sel
  unfolding match_labels_from is_nil
  match_labels_from-Reads o path sel h = elim (Option-cases (nested_map api o path)) [
    | inl e ↦
        subst (Reads o path) (ok_injective no_selector sel (rw (match_labels_from, e) at h))
          (record { presence = (λ _. e, λ _. refl); operators = λ r m. absurd m })
    | inr (wrap, e) ↦
        let labels = nested_string_map api wrap ("matchLabels" ∷ []) in
        let entries = maps_at api wrap ("matchExpressions" ∷ []) in
        let (rs, f, g) =
          >>=-eq-ok (requirements_of api entries) (λ qs. ok (present labels qs)) sel
            (rw (match_labels_from, e) at h) in
        subst (Reads o path) (ok_injective (present labels rs) sel g) (record {
          presence = (λ n. absurd (cc (n, present-is_nil labels rs)), λ n. absurd (cc (n, e)));
          operators =
              subst AllValid (sym (present-expressions labels rs))
                (requirements_of-AllValid entries rs f);
        })
  ]

  service_selector-Reads :
      (o : Fields) → Reads o ("spec" ∷ "selector" ∷ []) (service_selector api o)
  unfolding service_selector is_nil
  service_selector-Reads o =
      let path : List String = "spec" ∷ "selector" ∷ [] in
      elim (Option-cases (nested_map api o path)) [
        | inl e ↦
            rw (service_selector, e)
              (record { presence = (λ _. e, λ _. refl); operators = λ r m. absurd m })
        | inr (m, e) ↦ elim (Option-cases (nested_string_map api o path)) [
          | inl f ↦
              rw (service_selector, e, f)
                (record {
                  presence = (λ n. absurd (cc), λ n. absurd (cc (n, e)));
                  operators = λ r k. absurd k;
                })
          | inr (ls, f) ↦
              rw (service_selector, e, f)
                (record {
                  presence = (λ n. absurd (cc), λ n. absurd (cc (n, e)));
                  operators = λ r k. absurd k;
                })
        ]
      ]

  -- A selector that is read off an object of any kind is nil exactly if the object has no map at
  -- the path of the selectors of its kind, and every operator in it is one of the four.
  pub selector_from_unstructured-Reads :
      (kind : String) (o : Fields) (sel : LabelSelector)
      → selector_from_unstructured api kind o ≡ ok sel
      → Reads o (selector_path kind) sel
  unfolding selector_from_unstructured
  selector_from_unstructured-Reads kind o sel h = elim (Bool-cases (kind == "Service")) [
    | inl e ↦
        let f : (kind == "NetworkPolicy") ≡ false =
          ap (λ k. k == "NetworkPolicy") ((eq_iff kind "Service").0 e) in
        rw f (
          subst (Reads o ("spec" ∷ "selector" ∷ []))
            (ok_injective (service_selector api o) sel (rw (selector_from_unstructured, e) at h))
            (service_selector-Reads o))
    | inr n ↦ elim (Bool-cases (kind == "NetworkPolicy")) [
      | inl e ↦ rw e (
          match_labels_from-Reads o ("spec" ∷ "podSelector" ∷ []) sel
            (rw (n, selector_from_unstructured, e) at h))
      | inr e ↦ rw e (
          match_labels_from-Reads o ("spec" ∷ "selector" ∷ []) sel
            (rw (n, selector_from_unstructured, e) at h))
    ]
  ]
