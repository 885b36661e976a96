-- ===== src/Tests/Cluster.antt =====
-- A small cluster: a Deployment, its ReplicaSet and pod, a Service that selects the pod, and a
-- ConfigMap that the pod mounts.
use krsm.Prelude.{
  String, true, false, some, none, List, [], ◌∷◌, map, ◌≡◌, refl, inl, inr, lookup, insert,
  Distinct-map_injective,
}
use krsm.State.Lookup.{Unique}
use krsm.Selector.{Labels, LabelSelector}
use krsm.Model.{Ref, Object, OwnerRef, ref_volume, Action, delete, key, human}
use krsm.Model.Clause.{no_selector}
use krsm.State.{State, new_scan_state, scan_state, lookup_ref}
use krsm.State.Laws.{IsOver, refs_of, new_scan_state-IsOver}
use krsm.Closure.Relation.{Identified}
use krsm.Closure.Keys.{are_distinct-Distinct, Distinct-Identified, Identified-cons, are_distinct}

abbrev pub shop : String → String → String → Ref
shop kind name uid = record {
  gvk = record { group = ""; version = "v1"; kind = kind };
  namespace = "shop";
  name = name;
  uid = uid;
}

abbrev pub owner : String → OwnerRef
owner uid = record { kind = ""; name = ""; uid = uid }

abbrev pub app_web : Labels
app_web = ("app", "web") ∷ []

abbrev pub select_web : LabelSelector
select_web = record { match_labels = some app_web; match_expressions = [] }

abbrev pub deployment : Object
deployment = record {
  ref = shop "Deployment" "web" "d1";
  labels = [];
  selector = select_web;
  owners = [];
  cross_refs = [];
  finalizers = [];
}

abbrev pub replica_set : Object
replica_set = record {
  ref = shop "ReplicaSet" "web-rs" "r1";
  labels = [];
  selector = select_web;
  owners = owner "d1" ∷ [];
  cross_refs = [];
  finalizers = [];
}

abbrev pub pod : Object
pod = record {
  ref = shop "Pod" "web-0" "p1";
  labels = app_web;
  selector = no_selector;
  owners = owner "r1" ∷ [];
  cross_refs = record { kind = ref_volume; ref = shop "ConfigMap" "cfg" "c1" } ∷ [];
  finalizers = [];
}

abbrev pub service : Object
service = record {
  ref = shop "Service" "web" "s1";
  labels = [];
  selector = select_web;
  owners = [];
  cross_refs = [];
  finalizers = [];
}

abbrev pub config : Object
config = record {
  ref = shop "ConfigMap" "cfg" "c1";
  labels = [];
  selector = no_selector;
  owners = [];
  cross_refs = [];
  finalizers = [];
}

abbrev pub cluster : List Object
cluster = deployment ∷ replica_set ∷ pod ∷ service ∷ config ∷ []

abbrev pub state : State
state = scan_state (new_scan_state cluster)

abbrev pub tracked : List Ref
tracked = refs_of cluster

-- `kubectl delete service web --cascade=orphan`.
abbrev pub delete_service : Action
delete_service = record {
  verb = delete;
  target = service.ref;
  cascade = false;
  old = none;
  new = none;
}

-- `kubectl delete deployment web`, cascading.
abbrev pub delete_web : Action
delete_web = record {
  verb = delete;
  target = deployment.ref;
  cascade = true;
  old = none;
  new = none;
}

pub over : IsOver state tracked
over = new_scan_state-IsOver cluster

pub with_tracked :
    (r : Ref) → are_distinct (map key (r ∷ tracked)) ≡ true → Identified (r ∷ tracked)
with_tracked r h =
    Distinct-Identified (r ∷ tracked) (are_distinct-Distinct (map key (r ∷ tracked)) h)

pub tracked-Identified : Identified tracked
unfolding are_distinct key
tracked-Identified = Distinct-Identified tracked (are_distinct-Distinct (map key tracked) refl)

pub web-Identified : Identified (deployment.ref ∷ tracked)
web-Identified = Identified-cons deployment.ref tracked (inl refl) tracked-Identified

pub service-Identified : Identified (service.ref ∷ tracked)
service-Identified =
    Identified-cons service.ref tracked (inr (inr (inr (inl refl)))) tracked-Identified

pub web-found : state.get deployment.ref ≡ some deployment
unfolding lookup_ref new_scan_state lookup insert
web-found = refl

pub service-found : state.get service.ref ≡ some service
unfolding lookup_ref new_scan_state lookup insert
service-found = refl

pub cluster-Unique : Unique cluster
unfolding are_distinct human
cluster-Unique = record {
  by_uid = λ x y hx hy n e.
      Distinct-map_injective (λ o. o.ref.uid) cluster
        (are_distinct-Distinct (map (λ (o : Object). o.ref.uid) cluster) refl) x y hx hy e;
  by_human = λ x y hx hy e.
      Distinct-map_injective (λ o. human o.ref) cluster
        (are_distinct-Distinct (map (λ (o : Object). human o.ref) cluster) refl) x y hx hy e;
}
