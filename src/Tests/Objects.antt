-- ===== src/Tests/Objects.antt =====
-- The scanning state of the sample cluster.
use krsm.Prelude.{some, ◌≡◌, refl, inl, inr, ◌↔◌, ◌∈◌, ne}
use krsm.Model.{Ref, Object}
use krsm.State.{new_scan_state, lookup_ref, owned_children, pods_selected_by, selectors_targeting}
use krsm.State.Lookup.{lookup_ref-finds}
use krsm.State.Binding.{OwnedBy, owned_children_iff, selection_agrees}
use krsm.Tests.Cluster.{deployment, replica_set, pod, service, cluster, cluster-Unique}

-- The pod under the uid of the sample, but under an older name.
abbrev renamed : Ref
renamed = record pod.ref { name = "web-old" }

lookup_ref-finds_example : lookup_ref (new_scan_state cluster) renamed ≡ some pod
lookup_ref-finds_example =
    lookup_ref-finds cluster pod renamed (inr (inr (inl refl))) cluster-Unique
      (inl (ne "p1" "" refl, refl))

owned_children_iff_example :
    (replica_set.ref ∈ owned_children (new_scan_state cluster) deployment.ref)
    ↔ ((o : Object) × (o ∈ cluster) × OwnedBy deployment o × (o.ref ≡ replica_set.ref))
owned_children_iff_example =
    owned_children_iff cluster deployment replica_set.ref (inl refl) cluster-Unique

selection_agrees_example :
    (pod.ref ∈ pods_selected_by (new_scan_state cluster) service.ref)
    ↔ (service.ref ∈ selectors_targeting (new_scan_state cluster) pod.ref)
selection_agrees_example =
    selection_agrees cluster service pod cluster-Unique (inr (inr (inr (inl refl))))
      (inr (inr (inl refl))) (inl refl) refl
