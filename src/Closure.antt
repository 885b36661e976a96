-- ===== src/Closure.antt =====
-- closure/closure.go: the affected-resource closure of an action. The queue loop takes fuel, one
-- unit for each resource that it expands; `none` means that the fuel ran out. A Go map that is
-- ranged over in an unspecified order is an association list in order of insertion.
pub mod External
pub mod Keys
pub mod Bounds
pub mod Noted
pub mod Exact
pub mod Expand
pub mod Relation
pub mod Added
pub mod Walk
pub mod Sorted
use krsm.Prelude.{
  ℕ, zero, suc, String, Bool, true, false, not, ◌&&◌, ◌||◌, Option, none, some, List, [], ◌∷◌, ◌++◌,
  map, ◌==◌, any, filter, has_key, insert, values, text_lt, if◌then◌else◌,
}
use krsm.Selector.{Labels, LabelSelector, is_none}
use krsm.Model.{Gvk, Ref, Object, Action, key, human}
use krsm.Classify.{
  EffectSet, has, classify, workload_kinds, mountable_kinds, cascade_delete, containment,
  disruptive, scale_effect, mutate_config, mutate_selector, mutate_labels, finalizer_removal,
}
use krsm.State.{State}

-- `affected`: the references by their keys.
abbrev pub Affected : Type 0
Affected = List (String × Ref)

-- `for _, r := range refs { out[r.key()] = r }`
unfoldable pub add_all : List Ref → Affected → Affected
add_all [] m = m
add_all (r ∷ rs) m = add_all rs (insert (key r) r m)

-- What `add` adds for a payload that may be nil.
abbrev pub from_payload : Option Object → (Object → List Ref) → Affected → Affected
from_payload none f m = m
from_payload (some o) f m = add_all (f o) m

unfoldable pub selector_mutation_affected : State → Action → List Ref
unfolding add_all
selector_mutation_affected s a =
    let pods = λ (o : Object). s.pods_matching a.target.namespace o.selector a.target.gvk.kind in
    values (from_payload a.new pods (from_payload a.old pods []))

unfoldable pub label_mutation_affected : State → Action → List Ref
unfolding add_all
label_mutation_affected s a =
    let owners = λ (o : Object). s.selectors_matching_labels a.target.namespace o.labels in
    values (from_payload a.new owners (from_payload a.old owners []))

abbrev pub when_refs : Bool → List Ref → List Ref
when_refs b rs = if b then rs else []

-- The blocks 1 to 6b of the loop's body: what each queues behind a visited resource.
module _ (s : State) (a : Action) (cur : Ref) where
  unfoldable pub cascade_block : List Ref
  unfolding has
  cascade_block = when_refs (has (classify a) cascade_delete) (s.owned_children cur)

  unfoldable pub containment_block : List Ref
  unfolding has
  containment_block =
      when_refs (has (classify a) containment && (cur.gvk.kind == "Namespace"))
        (s.namespace_contents cur.name)

  unfoldable pub disruption_block : List Ref
  unfolding has has_key
  disruption_block =
      when_refs (has (classify a) disruptive && has_key workload_kinds cur.gvk.kind)
        (s.pods_selected_by cur)

  unfoldable pub scale_block : List Ref
  unfolding has has_key
  scale_block =
      when_refs (has (classify a) scale_effect && has_key workload_kinds cur.gvk.kind)
        (s.controllers_targeting cur)

  unfoldable pub config_block : List Ref
  unfolding has has_key
  config_block =
      when_refs (has (classify a) mutate_config && has_key mountable_kinds cur.gvk.kind)
        (s.consumers cur)

  unfoldable pub selector_block : List Ref
  unfolding has selector_mutation_affected
  selector_block =
      when_refs (has (classify a) mutate_selector && (key cur == key a.target))
        (selector_mutation_affected s a)

  unfoldable pub label_block : List Ref
  unfolding has label_mutation_affected
  label_block =
      when_refs (has (classify a) mutate_labels && (key cur == key a.target))
        (label_mutation_affected s a)

  unfoldable pub expand : List Ref
  unfolding cascade_block containment_block disruption_block scale_block config_block selector_block
      label_block
  expand =
      cascade_block
      ++ (containment_block
          ++ (disruption_block
              ++ (scale_block ++ (config_block ++ (selector_block ++ label_block)))))

-- The writes of the loop's body to `affected`: the resource itself, and what selects it (block 7).
unfoldable pub note : State → Ref → Affected → Affected
unfolding add_all
note s cur affected =
    add_all (when_refs (cur.gvk.kind == "Pod") (s.selectors_targeting cur))
      (insert (key cur) cur affected)

unfoldable pub closure_loop :
    State → Action → ℕ → List Ref → List String → Affected → Option Affected
unfolding expand note
closure_loop s a fuel [] visited affected = some affected
closure_loop s a zero (cur ∷ queue) visited affected = elim (has_key visited (key cur)) [
  | true ↦ closure_loop s a zero queue visited affected
  | false ↦ none
]
closure_loop s a (suc fuel) (cur ∷ queue) visited affected = elim (has_key visited (key cur)) [
  | true ↦ closure_loop s a (suc fuel) queue visited affected
  | false ↦
      closure_loop s a fuel (queue ++ expand s a cur) (key cur ∷ visited) (note s cur affected)
]

-- Insertion by `human`, for `sort.Slice`, which leaves the order of equal names open.
unfoldable pub insert_sorted : Ref → List Ref → List Ref
insert_sorted r [] = r ∷ []
insert_sorted r (q ∷ qs) =
    if text_lt (human r) (human q) then r ∷ q ∷ qs else q ∷ insert_sorted r qs

unfoldable pub sort_refs : List Ref → List Ref
unfolding insert_sorted text_lt
sort_refs [] = []
sort_refs (r ∷ rs) = insert_sorted r (sort_refs rs)

unfoldable pub sorted_refs : Affected → List Ref
unfolding sort_refs
sorted_refs m = sort_refs (values m)

-- The initial queue: the target, if it is tracked.
unfoldable pub seeds : State → Action → List Ref
seeds s a = if is_none (s.get a.target) then [] else a.target ∷ []

abbrev pub sort_affected : Option Affected → Option (List Ref)
sort_affected none = none
sort_affected (some affected) = some (sorted_refs affected)

unfoldable pub closure : ℕ → State → Action → Option (List Ref)
unfolding closure_loop sorted_refs seeds
closure fuel s a = sort_affected (closure_loop s a fuel (seeds s a) [] [])

unfoldable pub removed_finalizers : Action → List String
unfolding filter has_key
removed_finalizers a = elim a.old [
  | none ↦ []
  | some o ↦
      let kept : List String = elim a.new [ none ↦ [] | some n ↦ n.finalizers ] in
      filter (λ f. not (has_key kept f)) o.finalizers
]

-- The resource outside the cluster that a finalizer guards.
abbrev pub external_ref : Action → String → Ref
external_ref a f = record {
  gvk = record { group = ""; version = ""; kind = "External" };
  namespace = a.target.namespace;
  name = f;
  uid = "";
}

unfoldable pub external_effects : State → Action → List Ref
unfolding removed_finalizers has
external_effects s a =
    if is_none (s.get a.target)
    then []
    else if not (has (classify a) finalizer_removal)
    then []
    else map (external_ref a) (removed_finalizers a)
