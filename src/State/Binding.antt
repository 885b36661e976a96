-- ===== src/State/Binding.antt =====
-- closure/state.go: owners and their children, and the two directions of the selector relation.
use krsm.Prelude.{
  Bool, true, not, ◌&&◌, List, ◌≡◌, refl, ap, ◌≢◌, ◌↔◌, ◌∈◌, arith, ◌==◌, eq_iff, has_key,
  has_key_iff, any_iff, subst,
}
use krsm.Classify.{selector_kinds}
use krsm.Model.{Ref, Object, OwnerRef, human}
use krsm.State.{
  new_scan_state, scan, is_owned_by, owned_children, selector_binds, pods_matching,
  pods_selected_by, selectors_matching_labels, selectors_targeting,
}
use krsm.State.Laws.{∈-scan, new_scan_state-PointsInto}
use krsm.State.Lookup.{Unique, lookup_ref_self}

-- The object carries an owner entry with the uid of the owner, which is not empty.
abbrev pub OwnedBy : Object → Object → Type 0
OwnedBy owner o = (ow : OwnerRef) × (ow ∈ o.owners) × (ow.uid ≢ "") × (ow.uid ≡ owner.ref.uid)

pub is_owned_by_iff : (owner o : Object) → (is_owned_by owner o ≡ true) ↔ OwnedBy owner o
unfolding is_owned_by
is_owned_by_iff owner o = (
  λ h.
      let (ow, m, e) = (any_iff test o.owners).0 h in
      let (n, e') = (test_iff ow).0 e in (ow, m, n, e'),
  λ (ow, m, n, e). (any_iff test o.owners).1 (ow, m, (test_iff ow).1 (n, e)),
)
  where
    test : OwnerRef → Bool
    test ow = not (ow.uid == "") && (ow.uid == owner.ref.uid)

    test_iff : (ow : OwnerRef) → (test ow ≡ true) ↔ ((ow.uid ≢ "") × (ow.uid ≡ owner.ref.uid))
    test_iff ow = ground (arith, eq_iff ow.uid "", eq_iff ow.uid owner.ref.uid)

scanned : (objs : List Object) → (new_scan_state objs).objs ≡ objs
scanned objs = (new_scan_state-PointsInto objs).scanned

-- Membership in a scan of the objects that the state was built from.
∈-scan_objs :
    (objs : List Object) (test : Object → Bool) (q : Ref)
    → (q ∈ scan test (new_scan_state objs).objs)
      ↔ ((o : Object) × (o ∈ objs) × (test o ≡ true) × (o.ref ≡ q))
∈-scan_objs objs test q = rw (scanned objs) (∈-scan test objs q)

-- Among objects whose uids and names identify them, the children that the scanning state lists for
-- an owner are exactly the objects with an owner entry of its uid, which is not empty.
pub owned_children_iff :
    (objs : List Object) (owner : Object) (q : Ref)
    → owner ∈ objs
    → Unique objs
    → (q ∈ owned_children (new_scan_state objs) owner.ref)
      ↔ ((o : Object) × (o ∈ objs) × OwnedBy owner o × (o.ref ≡ q))
unfolding owned_children
owned_children_iff objs owner q m u =
    rw (lookup_ref_self objs owner m u, owned_children)
      (
        λ h.
            let (o, k, t, e) = (∈-scan_objs objs (is_owned_by owner) q).0 h in
            (o, k, (is_owned_by_iff owner o).0 t, e),
        λ (o, k, w, e).
            (∈-scan_objs objs (is_owned_by owner) q).1 (o, k, (is_owned_by_iff owner o).1 w, e),
      )

-- The object is a pod of the owner's namespace that the owner's selector binds.
pub record Binds (owner pod : Object) : Type 0 where
  pub is_pod : pod.ref.gvk.kind ≡ "Pod"
  pub one_namespace : pod.ref.namespace ≡ owner.ref.namespace
  pub bound : selector_binds owner.ref.gvk.kind owner.selector pod.labels ≡ true

module _ (objs : List Object) (owner pod : Object) (u : Unique objs) where
  pod_test : Object → Bool
  pod_test o =
      (o.ref.gvk.kind == "Pod")
      && (o.ref.namespace == owner.ref.namespace)
      && selector_binds owner.ref.gvk.kind owner.selector o.labels

  pod_test_iff : (o : Object) → (pod_test o ≡ true) ↔ Binds owner o
  unfolding pod_test
  pod_test_iff o = (
    λ h. ground (arith, eq_iff o.ref.gvk.kind "Pod", eq_iff o.ref.namespace owner.ref.namespace),
    λ b. ground (arith, eq_iff o.ref.gvk.kind "Pod", eq_iff o.ref.namespace owner.ref.namespace),
  )

  selected_iff :
      owner ∈ objs
      → pod ∈ objs
      → (pod.ref ∈ pods_selected_by (new_scan_state objs) owner.ref) ↔ Binds owner pod
  unfolding pods_selected_by pods_matching pod_test
  selected_iff ho hp =
      rw (lookup_ref_self objs owner ho u, pods_selected_by)
        (
          λ h.
              let (o, k, t, e) = (∈-scan_objs objs pod_test pod.ref).0 h in
              subst (Binds owner) (u.by_human o pod k hp (ap human e)) ((pod_test_iff o).0 t),
          λ b. (∈-scan_objs objs pod_test pod.ref).1 (pod, hp, (pod_test_iff pod).1 b, refl),
        )

  owner_test : Object → Bool
  owner_test o =
      has_key selector_kinds o.ref.gvk.kind
      && (o.ref.namespace == pod.ref.namespace)
      && selector_binds o.ref.gvk.kind o.selector pod.labels

  owner_test_iff :
      (o : Object)
      → pod.ref.gvk.kind ≡ "Pod"
      → (owner_test o ≡ true) ↔ ((o.ref.gvk.kind ∈ selector_kinds) × Binds o pod)
  unfolding owner_test
  owner_test_iff o p = (
    λ h. ground (
      arith,
      has_key_iff selector_kinds o.ref.gvk.kind,
      eq_iff o.ref.namespace pod.ref.namespace,
    ),
    λ b. ground (
      arith,
      has_key_iff selector_kinds o.ref.gvk.kind,
      eq_iff o.ref.namespace pod.ref.namespace,
    ),
  )

  targeting_iff :
      owner ∈ objs
      → pod ∈ objs
      → pod.ref.gvk.kind ≡ "Pod"
      → (owner.ref ∈ selectors_targeting (new_scan_state objs) pod.ref)
        ↔ ((owner.ref.gvk.kind ∈ selector_kinds) × Binds owner pod)
  unfolding selectors_targeting selectors_matching_labels owner_test
  targeting_iff ho hp p =
      rw (lookup_ref_self objs pod hp u, selectors_targeting)
        (
          λ h.
              let (o, k, t, e) = (∈-scan_objs objs owner_test owner.ref).0 h in
              subst (λ x. (x.ref.gvk.kind ∈ selector_kinds) × Binds x pod)
                (u.by_human o owner k ho (ap human e)) ((owner_test_iff o p).0 t),
          λ b.
              (∈-scan_objs objs owner_test owner.ref).1
                (owner, ho, (owner_test_iff owner p).1 b, refl),
        )

-- Among objects whose uids and names identify them, a Service, budget or policy selects a pod by
-- `PodsSelectedBy` exactly if `SelectorsTargeting` of the pod lists it.
pub selection_agrees :
    (objs : List Object) (owner pod : Object)
    → Unique objs
    → owner ∈ objs
    → pod ∈ objs
    → owner.ref.gvk.kind ∈ selector_kinds
    → pod.ref.gvk.kind ≡ "Pod"
    → (pod.ref ∈ pods_selected_by (new_scan_state objs) owner.ref)
      ↔ (owner.ref ∈ selectors_targeting (new_scan_state objs) pod.ref)
selection_agrees objs owner pod u ho hp k p =
    let there = selected_iff objs owner pod u ho hp in
    let back = targeting_iff objs owner pod u ho hp p in
    (λ m. back.1 (k, there.0 m), λ m. there.1 (back.0 m).1)
