-- ===== src/Tests/Engine.antt =====
-- The closure of a deletion on the sample cluster.
use krsm.Prelude.{
  ◌≤◌, some, List, [], ◌∷◌, ◌≡◌, refl, inl, inr, ◌∈◌, length, map, Distinct, lookup, insert,
  has_key,
}
use krsm.Selector.{matches}
use krsm.Model.{Ref, key}
use krsm.Classify.{classify, has}
use krsm.State.{new_scan_state, selectors_targeting, pods_selected_by, owned_children}
use krsm.Closure.{closure}
use krsm.Closure.Relation.{Affects, binds, target, spreads, disrupts}
use krsm.Closure.Exact.{closure_sound, closure_complete, closure_total}
use krsm.Closure.Bounds.{closure_ordered, closure_bounded}
use krsm.Closure.Sorted.{IsSorted}
use krsm.Tests.Cluster.{
  deployment, replica_set, pod, service, cluster, state, tracked, delete_web, over, web-Identified,
  web-found,
}

abbrev web_closure : List Ref
web_closure = deployment.ref ∷ pod.ref ∷ replica_set.ref ∷ service.ref ∷ []

-- The Deployment, its ReplicaSet and pod, and the Service that loses its endpoint.
web_closure_run : closure 6 state delete_web ≡ some web_closure
unfolding closure new_scan_state selectors_targeting pods_selected_by owned_children lookup insert
    classify key matches
web_closure_run = refl

disrupts_pod : pod.ref ∈ pods_selected_by (new_scan_state cluster) deployment.ref
unfolding pods_selected_by new_scan_state lookup insert matches
disrupts_pod = inl refl

selects_pod : service.ref ∈ selectors_targeting (new_scan_state cluster) pod.ref
unfolding selectors_targeting new_scan_state lookup insert matches
selects_pod = inl refl

service_affected : Affects state delete_web service.ref
unfolding classify has has_key
service_affected =
    binds pod.ref (spreads (target deployment web-found) (disrupts refl (inl refl) disrupts_pod))
      refl selects_pod

closure_complete_example : service.ref ∈ web_closure
closure_complete_example =
    closure_complete state delete_web tracked over web-Identified 6 web_closure service.ref
      web_closure_run service_affected

closure_sound_example : Affects state delete_web replica_set.ref
closure_sound_example =
    closure_sound 6 state delete_web web_closure replica_set.ref web_closure_run
      (inr (inr (inl refl)))

closure_total_example : (c : List Ref) × (closure 6 state delete_web ≡ some c)
closure_total_example = closure_total state delete_web tracked over

closure_ordered_example : IsSorted web_closure × Distinct (map key web_closure)
closure_ordered_example = closure_ordered 6 state delete_web web_closure web_closure_run

closure_bounded_example : length web_closure ≤ 5
closure_bounded_example =
    closure_bounded 6 state delete_web tracked web_closure over (inl refl) web_closure_run
