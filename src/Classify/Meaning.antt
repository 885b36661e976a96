-- ===== src/Classify/Meaning.antt =====
-- closure/classify.go: `classify`, by the verbs, kinds and payloads of an action.
use krsm.Prelude.{
  Bool, true, false, ◌&&◌, ◌||◌, [], ◌∷◌, ◌++◌, ◌≡◌, refl, ◌≢◌, ◌⊎◌, inl, inr, ◌↔◌, ◌∈◌, arith,
  eq_iff, any, has_key_iff, nat_eq, ne, text_dec,
}
use krsm.Selector.{equal}
use krsm.Model.{Action, Verb, delete, update, patch, scale, restart}
use krsm.Classify.{
  workload_kinds, mountable_kinds, EffectClass, cascade_delete, containment, disruptive,
  mutate_selector, mutate_labels, mutate_config, scale_effect, finalizer_removal, class_index,
  EffectSet, has, same_labels, when, classify,
}
use krsm.Classify.Payloads.{
  Between, Drops, selector_changed_iff, labels_changed_iff, finalizers_removed_iff,
}

-- An update or a patch, which carry payloads.
abbrev pub IsMutation : Verb → Type 0
IsMutation v = (v ≡ update) ⊎ (v ≡ patch)

-- What each class stands for.
abbrev pub Stands : Action → EffectClass → Type 0
Stands a cascade_delete = (a.verb ≡ delete) × (a.cascade ≡ true)
Stands a containment = (a.verb ≡ delete) × (a.target.gvk.kind ≡ "Namespace")
Stands a disruptive =
    ((a.verb ≡ delete) ⊎ ((a.verb ≡ scale) ⊎ ((a.verb ≡ restart) ⊎ IsMutation a.verb)))
    × (a.target.gvk.kind ∈ workload_kinds)
Stands a mutate_selector =
    IsMutation a.verb × Between a (λ o n. equal o.selector n.selector ≡ false)
Stands a mutate_labels =
    IsMutation a.verb × Between a (λ o n. same_labels o.labels n.labels ≡ false)
Stands a mutate_config =
    ((a.verb ≡ delete) ⊎ IsMutation a.verb) × (a.target.gvk.kind ∈ mountable_kinds)
Stands a scale_effect = (a.verb ≡ scale) × (a.target.gvk.kind ∈ workload_kinds)
Stands a finalizer_removal = IsMutation a.verb × Between a (λ o n. Drops o.finalizers n.finalizers)

has-append : (xs ys : EffectSet) (c : EffectClass) → has (xs ++ ys) c ≡ (has xs c || has ys c)
unfolding has any
has-append [] ys c = refl
has-append (x ∷ xs) ys c = ground (arith, has-append xs ys c)

abbrev same_class : EffectClass → EffectClass → Bool
same_class d c = nat_eq (class_index d) (class_index c)

has-when : (b : Bool) (d c : EffectClass) → has (when b d) c ≡ (b && same_class d c)
unfolding has any class_index
has-when true d c = ground arith
has-when false d c = refl

delete_row :
    (a : Action) (c : EffectClass) → a.verb ≡ delete → (has (classify a) c ≡ true) ↔ Stands a c
unfolding classify class_index
delete_row a cascade_delete h = rw (h, classify) (simp (has-append, has-when) (ground (arith)))
delete_row a containment h =
    rw (h, classify)
      (simp (has-append, has-when) (ground (arith, eq_iff a.target.gvk.kind "Namespace")))
delete_row a disruptive h =
    rw (h, classify)
      (simp (has-append, has-when) (ground (arith, has_key_iff workload_kinds a.target.gvk.kind)))
delete_row a mutate_config h =
    rw (h, classify)
      (simp (has-append, has-when) (ground (arith, has_key_iff mountable_kinds a.target.gvk.kind)))
delete_row a c h =
    rw (h, classify)
      (simp (has-append, has-when)
        (ground (
          arith,
          ne delete scale refl,
          ne delete restart refl,
          ne delete update refl,
          ne delete patch refl,
        )))

scale_row :
    (a : Action) (c : EffectClass) → a.verb ≡ scale → (has (classify a) c ≡ true) ↔ Stands a c
unfolding classify class_index
scale_row a disruptive h =
    rw (h, classify)
      (simp (has-append, has-when) (ground (arith, has_key_iff workload_kinds a.target.gvk.kind)))
scale_row a scale_effect h =
    rw (h, classify)
      (simp (has-append, has-when) (ground (arith, has_key_iff workload_kinds a.target.gvk.kind)))
scale_row a c h =
    rw (h, classify)
      (simp (has-append, has-when)
        (ground (
          arith,
          ne scale delete refl,
          ne scale restart refl,
          ne scale update refl,
          ne scale patch refl,
        )))

restart_row :
    (a : Action) (c : EffectClass) → a.verb ≡ restart → (has (classify a) c ≡ true) ↔ Stands a c
unfolding classify class_index
restart_row a disruptive h =
    rw (h, classify) (simp has-when (ground (arith, has_key_iff workload_kinds a.target.gvk.kind)))
restart_row a c h =
    rw (h, classify)
      (simp has-when (
        ground (
          arith,
          ne restart delete refl,
          ne restart scale refl,
          ne restart update refl,
          ne restart patch refl,
        )))

update_row :
    (a : Action) (c : EffectClass) → a.verb ≡ update → (has (classify a) c ≡ true) ↔ Stands a c
unfolding classify class_index
update_row a disruptive h =
    rw (h, classify)
      (simp (has-append, has-when) (ground (arith, has_key_iff workload_kinds a.target.gvk.kind)))
update_row a mutate_selector h =
    rw (h, classify) (simp (has-append, has-when) (ground (arith, selector_changed_iff a)))
update_row a mutate_labels h =
    rw (h, classify) (simp (has-append, has-when) (ground (arith, labels_changed_iff a)))
update_row a mutate_config h =
    rw (h, classify)
      (simp (has-append, has-when) (ground (arith, has_key_iff mountable_kinds a.target.gvk.kind)))
update_row a finalizer_removal h =
    rw (h, classify) (simp (has-append, has-when) (ground (arith, finalizers_removed_iff a)))
update_row a c h =
    rw (h, classify)
      (simp (has-append, has-when)
        (ground (
          arith,
          ne update delete refl,
          ne update scale refl,
          ne update restart refl,
          ne update patch refl,
        )))

patch_row :
    (a : Action) (c : EffectClass) → a.verb ≡ patch → (has (classify a) c ≡ true) ↔ Stands a c
unfolding classify class_index
patch_row a disruptive h =
    rw (h, classify)
      (simp (has-append, has-when) (ground (arith, has_key_iff workload_kinds a.target.gvk.kind)))
patch_row a mutate_selector h =
    rw (h, classify) (simp (has-append, has-when) (ground (arith, selector_changed_iff a)))
patch_row a mutate_labels h =
    rw (h, classify) (simp (has-append, has-when) (ground (arith, labels_changed_iff a)))
patch_row a mutate_config h =
    rw (h, classify)
      (simp (has-append, has-when) (ground (arith, has_key_iff mountable_kinds a.target.gvk.kind)))
patch_row a finalizer_removal h =
    rw (h, classify) (simp (has-append, has-when) (ground (arith, finalizers_removed_iff a)))
patch_row a c h =
    rw (h, classify)
      (simp (has-append, has-when)
        (ground (
          arith,
          ne patch delete refl,
          ne patch scale refl,
          ne patch restart refl,
          ne patch update refl,
        )))

-- A verb that the code does not know has no effect class.
unknown_row :
    (a : Action) (c : EffectClass)
    → a.verb ≢ delete
    → a.verb ≢ scale
    → a.verb ≢ restart
    → ¬ IsMutation a.verb
    → (has (classify a) c ≡ true) ↔ Stands a c
unfolding classify has any
unknown_row a cascade_delete n₁ n₂ n₃ n₄ = ground (
  arith,
  eq_iff a.verb delete,
  eq_iff a.verb scale,
  eq_iff a.verb restart,
  eq_iff a.verb update,
  eq_iff a.verb patch,
)
unknown_row a c n₁ n₂ n₃ n₄ = ground (
  arith,
  eq_iff a.verb delete,
  eq_iff a.verb scale,
  eq_iff a.verb restart,
  eq_iff a.verb update,
  eq_iff a.verb patch,
)

-- An effect class is set for an action exactly where its verb, kind, flag and payloads are those
-- that the class stands for.
pub classify_iff : (a : Action) (c : EffectClass) → (has (classify a) c ≡ true) ↔ Stands a c
classify_iff a c = elim (text_dec a.verb delete) [
  | inl h ↦ delete_row a c h
  | inr n₁ ↦ elim (text_dec a.verb scale) [
    | inl h ↦ scale_row a c h
    | inr n₂ ↦ elim (text_dec a.verb restart) [
      | inl h ↦ restart_row a c h
      | inr n₃ ↦ elim (text_dec a.verb update) [
        | inl h ↦ update_row a c h
        | inr n₄ ↦ elim (text_dec a.verb patch) [
          | inl h ↦ patch_row a c h
          | inr n₅ ↦ unknown_row a c n₁ n₂ n₃ (λ m. elim m [ inl h ↦ n₄ h | inr h ↦ n₅ h ])
        ]
      ]
    ]
  ]
]
