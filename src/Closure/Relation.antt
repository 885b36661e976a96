-- ===== src/Closure/Relation.antt =====
-- What an action affects, as a relation that knows nothing of queues, visited sets or keys of maps
-- (docs/DESIGN.md, sections 3 and 4).
use krsm.Prelude.{
  String, true, some, List, ◌≡◌, refl, sym, ap, ◌∙◌, ◌⊎◌, inl, inr, ◌∈◌, ∈-map, ∈-insert, subst,
  insert, values,
}
use krsm.Model.{Ref, Object, Action, key}
use krsm.Classify.{
  has, classify, workload_kinds, mountable_kinds, cascade_delete, containment, disruptive,
  scale_effect, mutate_config, mutate_selector, mutate_labels,
}
use krsm.State.{State}
use krsm.Closure.{Affected}

-- An effect class of the action lets `p` affect `q`.
pub data Licensed (s : State) (a : Action) (p q : Ref) : Type 0 where
  cascades : has (classify a) cascade_delete ≡ true → q ∈ s.owned_children p → Licensed s a p q
  contains :
      has (classify a) containment ≡ true
      → p.gvk.kind ≡ "Namespace"
      → q ∈ s.namespace_contents p.name
      → Licensed s a p q
  disrupts :
      has (classify a) disruptive ≡ true
      → p.gvk.kind ∈ workload_kinds
      → q ∈ s.pods_selected_by p
      → Licensed s a p q
  rescales :
      has (classify a) scale_effect ≡ true
      → p.gvk.kind ∈ workload_kinds
      → q ∈ s.controllers_targeting p
      → Licensed s a p q
  reconfigures :
      has (classify a) mutate_config ≡ true
      → p.gvk.kind ∈ mountable_kinds
      → q ∈ s.consumers p
      → Licensed s a p q
  reselects :
      has (classify a) mutate_selector ≡ true
      → key p ≡ key a.target
      → (o : Object) → (a.old ≡ some o) ⊎ (a.new ≡ some o)
      → q ∈ s.pods_matching a.target.namespace o.selector a.target.gvk.kind
      → Licensed s a p q
  relabels :
      has (classify a) mutate_labels ≡ true
      → key p ≡ key a.target
      → (o : Object) → (a.old ≡ some o) ⊎ (a.new ≡ some o)
      → q ∈ s.selectors_matching_labels a.target.namespace o.labels
      → Licensed s a p q

-- The tracked target, and all that is affected by licensed steps from it.
pub data Touched (s : State) (a : Action) : Ref → Type 0 where
  target : (o : Object) → s.get a.target ≡ some o → Touched s a a.target
  spreads : {p q : Ref} → Touched s a p → Licensed s a p q → Touched s a q

-- A Service, budget or policy that selects a touched pod is affected, and affects nothing further.
pub data Affects (s : State) (a : Action) (r : Ref) : Type 0 where
  touched : Touched s a r → Affects s a r
  binds :
      (pod : Ref)
      → Touched s a pod
      → pod.gvk.kind ≡ "Pod"
      → r ∈ s.selectors_targeting pod
      → Affects s a r

-- Among the listed references, a key stands for one.
abbrev pub Identified : List Ref → Type 0
Identified us = (x y : Ref) → x ∈ us → y ∈ us → key x ≡ key y → x ≡ y

-- Every entry is stored under the key of its reference.
abbrev pub IsKeyed : Affected → Type 0
IsKeyed m = (k : String) (r : Ref) → (k, r) ∈ m → k ≡ key r

pub insert-IsKeyed : (r : Ref) (m : Affected) → IsKeyed m → IsKeyed (insert (key r) r m)
insert-IsKeyed r m h k q p = elim (∈-insert (key r) r (k, q) m p) [
  | inl e ↦ ap (λ (x : String × Ref). x.0) e ∙ ap (λ (x : String × Ref). key x.1) (sym e)
  | inr old ↦ h k q old
]

pub ∈-values : (r : Ref) (m : Affected) → r ∈ values m → (k : String) × ((k, r) ∈ m)
∈-values r m h =
    let ((k, q), p, e) = (∈-map (λ (x : String × Ref). x.1) r m).0 h in
    (k, subst (λ y. (k, y) ∈ m) e p)

pub values-insert :
    (k : String) (x r : Ref) (m : Affected) → r ∈ values (insert k x m) → (r ≡ x) ⊎ (r ∈ values m)
values-insert k x r m h =
    let (j, p) = ∈-values r (insert k x m) h in
    elim (∈-insert k x (j, r) m p) [
      | inl e ↦ inl (ap (λ (y : String × Ref). y.1) e)
      | inr old ↦ inr ((∈-map (λ (y : String × Ref). y.1) r m).1 ((j, r), old, refl))
    ]
