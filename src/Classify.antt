-- ===== src/Classify.antt =====
-- closure/classify.go: the kind groups and the effect classes of an action.
pub mod Payloads
pub mod Missed
pub mod Meaning
use krsm.Prelude.{
  ℕ, String, Bool, true, false, not, ◌&&◌, ◌||◌, Option, none, some, List, [], ◌∷◌, ◌++◌, ◌==◌,
  nat_eq, length, any, filter, has_key, if◌then◌else◌,
}
use krsm.Selector.{Labels, LabelSelector, equal, entries_agree}
use krsm.Model.{Object, Action, delete, update, patch, scale, restart}

abbrev pub workload_kinds : List String
workload_kinds = "Deployment" ∷ "ReplicaSet" ∷ "StatefulSet" ∷ "DaemonSet" ∷ []

abbrev pub selector_kinds : List String
selector_kinds = "Service" ∷ "PodDisruptionBudget" ∷ "NetworkPolicy" ∷ []

abbrev pub mountable_kinds : List String
mountable_kinds = "ConfigMap" ∷ "Secret" ∷ "PersistentVolumeClaim" ∷ []

pub data EffectClass : Type 0 where
  cascade_delete containment disruptive mutate_selector : EffectClass
  mutate_labels mutate_config scale_effect finalizer_removal : EffectClass

-- The value that `iota` gives the constant.
unfoldable pub class_index : EffectClass → ℕ
class_index cascade_delete = 0
class_index containment = 1
class_index disruptive = 2
class_index mutate_selector = 3
class_index mutate_labels = 4
class_index mutate_config = 5
class_index scale_effect = 6
class_index finalizer_removal = 7

abbrev pub EffectSet : Type 0
EffectSet = List EffectClass

unfoldable pub has : EffectSet → EffectClass → Bool
unfolding any class_index
has e c = any (λ d. nat_eq (class_index d) (class_index c)) e

unfoldable pub same_labels : Labels → Labels → Bool
unfolding entries_agree
same_labels a b = nat_eq (length a) (length b) && entries_agree a b

-- A test of the two payloads of a mutation, false where one is missing.
abbrev pub with_payloads : Action → (Object → Object → Bool) → Bool
with_payloads a test = elim a.old [
  | none ↦ false
  | some o ↦ elim a.new [ none ↦ false | some n ↦ test o n ]
]

unfoldable pub selector_changed : Action → Bool
unfolding equal
selector_changed a = with_payloads a (λ o n. not (equal o.selector n.selector))

unfoldable pub labels_changed : Action → Bool
unfolding same_labels
labels_changed a = with_payloads a (λ o n. not (same_labels o.labels n.labels))

unfoldable pub finalizers_removed : Action → Bool
unfolding any has_key
finalizers_removed a = with_payloads a (λ o n. any (λ f. not (has_key n.finalizers f)) o.finalizers)

-- `if b { s[c] = true }`
abbrev pub when : Bool → EffectClass → EffectSet
when b c = if b then c ∷ [] else []

unfoldable pub classify : Action → EffectSet
classify a =
    let kind = a.target.gvk.kind in
    let workload = has_key workload_kinds kind in
    let mountable = has_key mountable_kinds kind in
    if a.verb == delete
    then when a.cascade cascade_delete
      ++ (when (kind == "Namespace") containment
          ++ (when workload disruptive ++ when mountable mutate_config))
    else if a.verb == scale
    then when workload disruptive ++ when workload scale_effect
    else if a.verb == restart
    then when workload disruptive
    else if a.verb == update || a.verb == patch
    then when workload disruptive
      ++ (when mountable mutate_config
          ++ (when (selector_changed a) mutate_selector
              ++ (when (labels_changed a) mutate_labels
                  ++ when (finalizers_removed a) finalizer_removal)))
    else []
