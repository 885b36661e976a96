-- ===== src/Scenario/Encoded.antt =====
-- internal/scenario/scenario.go: a selector as it stands in a manifest, and what `matchLabels` decodes
-- it to.
use krsm.Prelude.{
  String, Option, none, some, List, [], ◌∷◌, ◌++◌, ◌≡◌, refl, sym, ap, ◌∙◌, inl, inr, ◌∈◌, ∈-append,
  Distinct, keys, insert, append_assoc, append_nil, eq_iff, ◌==◌, Bool-cases, Json, string, object,
  array, Fields, no_fields, field, Items, no_items, item, pairs_of, items_of,
}
use krsm.Selector.{Labels, SelectorRequirement, entries}
use krsm.Scenario.Decode.{
  set, no_requirement, decode_items, decode_text, decode_entries, decode_slice, decode_requirement,
  set_requirement, decode_fields, decode_map, decode_wrapper, set_wrapper,
}

abbrev pub string_items : List String → Items
string_items [] = no_items
string_items (v ∷ vs) = item (string v) (string_items vs)

abbrev pub label_fields : Labels → Fields
label_fields [] = no_fields
label_fields ((k, v) ∷ m) = field k (string v) (label_fields m)

abbrev pub requirement_fields : SelectorRequirement → Fields
requirement_fields r = field "key" (string r.key) (
    field "operator" (string r.operator) (field "values" (array (string_items r.values)) no_fields))

abbrev pub requirement_items : List SelectorRequirement → Items
requirement_items [] = no_items
requirement_items (r ∷ rs) = item (object (requirement_fields r)) (requirement_items rs)

-- A wrapper with the expressions, and with the labels unless the map is nil.
abbrev pub wrapper_fields : Option Labels → List SelectorRequirement → Fields
wrapper_fields none es = field "matchExpressions" (array (requirement_items es)) no_fields
wrapper_fields (some m) es =
    field "matchLabels" (object (label_fields m))
      (field "matchExpressions" (array (requirement_items es)) no_fields)

decode_string_items :
    (vs : List String) → decode_items decode_text "" [] (items_of (string_items vs)) ≡ some vs
unfolding decode_items items_of
decode_string_items [] = refl
decode_string_items (v ∷ vs) = rw (decode_string_items vs)

-- One field of a struct.
next_field :
    {S : Type 0} (set_field : S → String → Json → Option S) (s t : S) (k : String) (v : Json)
    (ps : List (String × Json))
    → set_field s k v ≡ some t
    → decode_fields set_field s ((k, v) ∷ ps) ≡ decode_fields set_field t ps
unfolding decode_fields
next_field set_field s t k v ps h = rw (decode_fields, h)

decode_requirement_fields :
    (r : SelectorRequirement)
    → decode_requirement no_requirement (object (requirement_fields r)) ≡ some r
unfolding decode_requirement decode_slice
decode_requirement_fields r =
    next_field set_requirement (record no_requirement { key = r.key })
      (record no_requirement { key = r.key; operator = r.operator }) "operator" (string r.operator)
      (("values", array (string_items r.values)) ∷ []) refl
    ∙ next_field set_requirement (record no_requirement { key = r.key; operator = r.operator }) r
        "values" (array (string_items r.values)) []
        (ap (λ x. set x (λ vs. record r { values = vs })) (decode_string_items r.values))

next_item :
    {A : Type 0} (decode : A → Json → Option A) (z a : A) (v : Json) (vs : List Json)
    (rest : List A)
    → decode z v ≡ some a
    → decode_items decode z [] vs ≡ some rest
    → decode_items decode z [] (v ∷ vs) ≡ some (a ∷ rest)
unfolding decode_items
next_item decode z a v vs rest h g = rw (decode_items, h, g)

decode_requirement_items :
    (es : List SelectorRequirement)
    → decode_items decode_requirement no_requirement [] (items_of (requirement_items es)) ≡ some es
unfolding decode_items items_of
decode_requirement_items [] = refl
decode_requirement_items (e ∷ es) =
    next_item decode_requirement no_requirement e (object (requirement_fields e))
      (items_of (requirement_items es)) es (decode_requirement_fields e)
      (decode_requirement_items es)

-- A new key is added at the end.
insert-new : (k v : String) (m : Labels) → ¬ (k ∈ keys m) → insert k v m ≡ (m ++ ((k, v) ∷ []))
unfolding insert
insert-new k v [] n = refl
insert-new k v ((j, w) ∷ m) n = elim (Bool-cases (j == k)) [
  | inl e ↦ absurd (n (inl (sym ((eq_iff j k).0 e))))
  | inr e ↦ rw e (ap (λ l. (j, w) ∷ l) (insert-new k v m (λ h. n (inr h))))
]

keys-append : (m : Labels) (k v : String) → keys (m ++ ((k, v) ∷ [])) ≡ (keys m ++ (k ∷ []))
keys-append [] k v = refl
keys-append ((j, w) ∷ m) k v = ap (λ l. j ∷ l) (keys-append m k v)

decode_label_fields :
    (m acc : Labels)
    → Distinct (keys m)
    → ((k : String) → k ∈ keys m → ¬ (k ∈ keys acc))
    → decode_entries (pairs_of (label_fields m)) acc ≡ some (acc ++ m)
unfolding decode_entries pairs_of
decode_label_fields [] acc d n = ap some (sym (append_nil acc))
decode_label_fields ((k, v) ∷ m) acc (new, d) n =
    ap (decode_entries (pairs_of (label_fields m))) (insert-new k v acc (n k (inl refl)))
    ∙ decode_label_fields m (acc ++ ((k, v) ∷ [])) d later
    ∙ ap some (append_assoc acc ((k, v) ∷ []) m)
  where
    later : (j : String) → j ∈ keys m → ¬ (j ∈ keys (acc ++ ((k, v) ∷ [])))
    later j h g = elim ((∈-append j (keys acc) (k ∷ [])).0 (rw (keys-append acc k v) at g)) [
      | inl a ↦ n j (inr h) a
      | inr (inl e) ↦ new (rw e at h)
      | inr (inr a) ↦ a
    ]

pub decode_wrapper_fields :
    (ls : Option Labels) (es : List SelectorRequirement)
    → Distinct (keys (entries ls))
    → decode_wrapper (object (wrapper_fields ls es))
      ≡ some (record { match_labels = ls; match_expressions = es })
unfolding decode_wrapper decode_slice decode_map
decode_wrapper_fields none es d =
    next_field set_wrapper (record { match_labels = none; match_expressions = [] })
      (record { match_labels = none; match_expressions = es }) "matchExpressions"
      (array (requirement_items es)) []
      (ap (λ x. set x (λ rs. record { match_labels = none; match_expressions = rs }))
        (decode_requirement_items es))
decode_wrapper_fields (some m) es d =
    next_field set_wrapper (record { match_labels = none; match_expressions = [] })
      (record { match_labels = some m; match_expressions = [] }) "matchLabels"
      (object (label_fields m)) (("matchExpressions", array (requirement_items es)) ∷ [])
      (ap
        (λ x.
          set (elim x [ none ↦ none | some l ↦ some (some l) ])
            (λ l. record { match_labels = l; match_expressions = [] }))
        (decode_label_fields m [] d (λ k h a. a)))
    ∙ next_field set_wrapper (record { match_labels = some m; match_expressions = [] })
        (record { match_labels = some m; match_expressions = es }) "matchExpressions"
        (array (requirement_items es)) []
        (ap (λ x. set x (λ rs. record { match_labels = some m; match_expressions = rs }))
          (decode_requirement_items es))
