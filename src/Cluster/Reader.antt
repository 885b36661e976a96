-- ===== src/Cluster/Reader.antt =====
-- internal/cluster/reader.go: what is listed of a live cluster, and how it becomes a state. The calls
-- of client-go and `ParseGroupVersion` of apimachinery are the record `Client`; the texts of errors
-- are left out. `strings.ToLower` is that of ASCII texts.
use krsm.Prelude.{
  lower_eq, String, Bool, true, false, not, ◌&&◌, ◌||◌, Option, none, some, List, [], ◌∷◌, ◌++◌,
  ◌==◌, has_key, has_slash, if◌then◌else◌, Result, ok, err, ◌>>=◌, Fields,
}
use krsm.Selector.{is_empty}
use krsm.Model.{Gvk, gvk_eq}
use krsm.State.{State, scan_state, new_scan_state}
use krsm.Cluster.{Unstructured, BuildError}
use krsm.Cluster.Build.{ScopeInfo, build_objects}

-- What discovery says of a resource, and of a group and version.
pub record ApiResource : Type 0 where
  pub name : String
  pub singular_name : String
  pub namespaced : Bool
  pub kind : String
  pub verbs : List String

pub record ApiResourceList : Type 0 where
  pub group_version : String
  pub resources : List ApiResource

pub record GroupVersion : Type 0 where
  pub group : String
  pub version : String

-- `schema.GroupVersionResource`
pub record Gvr : Type 0 where
  pub group : String
  pub version : String
  pub resource : String

-- `ServerGroupsAndResources`, `ParseGroupVersion` and `Resource(…).List`; `none` is an error.
pub record Client : Type 0 where
  pub server_resources : Option (List ApiResourceList)
  pub parse_group_version : String → Option GroupVersion
  pub list : Gvr → Option (List Fields)

pub data ReadError : Type 0 where
  discovery_failed bad_group_version unknown_kind : ReadError
  list_failed : Gvr → ReadError
  build_failed : BuildError → ReadError

abbrev pub read_targets : List String
read_targets =
    "Pod" ∷ "Service" ∷ "ConfigMap" ∷ "Secret" ∷ "PersistentVolumeClaim" ∷ "Namespace"
    ∷ "Deployment" ∷ "ReplicaSet" ∷ "StatefulSet" ∷ "DaemonSet" ∷ "Job" ∷ "CronJob"
    ∷ "PodDisruptionBudget" ∷ "NetworkPolicy" ∷ "HorizontalPodAutoscaler" ∷ []

abbrev pub built_in_groups : List String
built_in_groups =
    "" ∷ "apps" ∷ "batch" ∷ "policy" ∷ "networking.k8s.io" ∷ "autoscaling"
    ∷ "rbac.authorization.k8s.io" ∷ "storage.k8s.io" ∷ "apiextensions.k8s.io" ∷ []

-- `isSubresource`
abbrev pub is_subresource : String → Bool
is_subresource name = has_slash name

unfoldable pub supports_list : List String → Bool
unfolding has_key
supports_list verbs = if is_empty verbs then true else has_key verbs "list"

-- Go's `==` on two `GroupVersionResource`.
unfoldable pub gvr_eq : Gvr → Gvr → Bool
gvr_eq a b = (a.group == b.group) && (a.version == b.version) && (a.resource == b.resource)

unfoldable pub has_gvr : List Gvr → Gvr → Bool
unfolding gvr_eq
has_gvr [] g = false
has_gvr (h ∷ hs) g = gvr_eq h g || has_gvr hs g

-- The three tests that leave a resource out.
unfoldable pub is_listed : GroupVersion → ApiResource → Bool
unfolding has_slash has_key supports_list
is_listed gv res =
    if is_subresource res.name
    then false
    else if not (has_key read_targets res.kind) && has_key built_in_groups gv.group
    then false
    else supports_list res.verbs

abbrev pub gvr_of : GroupVersion → ApiResource → Gvr
gvr_of gv res = record { group = gv.group; version = gv.version; resource = res.name }

-- One round of the inner loop of `selectTargets`: `seen` holds what `out` holds.
unfoldable pub add_target : GroupVersion → ApiResource → List Gvr → List Gvr
unfolding is_listed has_gvr
add_target gv res out =
    if not (is_listed gv res)
    then out
    else if has_gvr out (gvr_of gv res)
    then out
    else out ++ (gvr_of gv res ∷ [])

unfoldable pub add_targets : GroupVersion → List ApiResource → List Gvr → List Gvr
unfolding add_target
add_targets gv [] out = out
add_targets gv (res ∷ ress) out = add_targets gv ress (add_target gv res out)

-- The test of `ResolveKind`, on a token and a resource.
unfoldable pub names_resource : String → ApiResource → Bool
unfolding lower_eq
names_resource token res =
    lower_eq token res.kind
    || (lower_eq token res.name
        || (not (res.singular_name == "") && lower_eq token res.singular_name))

unfoldable pub resolve_in : String → List ApiResource → Option String
unfolding names_resource has_slash
resolve_in token [] = none
resolve_in token (res ∷ ress) =
    let rest = resolve_in token ress in
    if is_subresource res.name
    then rest
    else if names_resource token res
    then some res.kind
    else rest

unfoldable pub resolve_lists : String → List ApiResourceList → Result ReadError String
unfolding resolve_in
resolve_lists token [] = err unknown_kind
resolve_lists token (l ∷ ls) = elim (resolve_in token l.resources) [
  | some kind ↦ ok kind
  | none ↦ resolve_lists token ls
]

-- A map from kinds to whether they are namespaced, the newest entry first.
abbrev pub DiscoveryScope : Type 0
DiscoveryScope = List (Gvk × Bool)

unfoldable pub add_scopes : GroupVersion → List ApiResource → DiscoveryScope → DiscoveryScope
unfolding has_slash
add_scopes gv [] m = m
add_scopes gv (res ∷ ress) m = add_scopes gv ress (
    if is_subresource res.name
    then m
    else (record { group = gv.group; version = gv.version; kind = res.kind }, res.namespaced) ∷ m)

-- `discoveryScope.Namespaced`
unfoldable pub namespaced_in : DiscoveryScope → ScopeInfo
unfolding gvk_eq
namespaced_in [] gvk = none
namespaced_in ((g, b) ∷ m) gvk = if gvk_eq g gvk then some b else namespaced_in m gvk

-- `fmt.Errorf("build objects: %w", err)`
abbrev pub wrap_build {ℓ} : {A : Type ℓ} → Result BuildError A → Result ReadError A
wrap_build (ok a) = ok a
wrap_build (err e) = err (build_failed e)

module _ (client : Client) where
  unfoldable pub select_loop : List ApiResourceList → List Gvr → Result ReadError (List Gvr)
  unfolding add_targets
  select_loop [] out = ok out
  select_loop (l ∷ ls) out = elim (client.parse_group_version l.group_version) [
    | none ↦ err bad_group_version
    | some gv ↦ select_loop ls (add_targets gv l.resources out)
  ]

  unfoldable pub select_targets : List ApiResourceList → Result ReadError (List Gvr)
  unfolding select_loop
  select_targets lists = select_loop lists []

  unfoldable pub scope_loop : List ApiResourceList → DiscoveryScope → DiscoveryScope
  unfolding add_scopes
  scope_loop [] m = m
  scope_loop (l ∷ ls) m = elim (client.parse_group_version l.group_version) [
    | none ↦ scope_loop ls m
    | some gv ↦ scope_loop ls (add_scopes gv l.resources m)
  ]

  unfoldable pub scope_from_lists : List ApiResourceList → ScopeInfo
  unfolding scope_loop namespaced_in
  scope_from_lists lists = namespaced_in (scope_loop lists [])

  abbrev pub discovered : Result ReadError (List ApiResourceList)
  discovered = elim client.server_resources [ none ↦ err discovery_failed | some ls ↦ ok ls ]

  unfoldable pub new_discovery_scope : Result ReadError ScopeInfo
  unfolding scope_from_lists
  new_discovery_scope = discovered >>= λ lists. ok (scope_from_lists lists)

  unfoldable pub resolve_kind : String → Result ReadError String
  unfolding resolve_lists
  resolve_kind token = discovered >>= λ lists. resolve_lists token lists

  -- The loop of `State` over the targets, which appends what each list call returns.
  unfoldable pub list_all : List Gvr → List Fields → Result ReadError (List Fields)
  list_all [] objs = ok objs
  list_all (t ∷ ts) objs = elim (client.list t) [
    | none ↦ err (list_failed t)
    | some items ↦ list_all ts (objs ++ items)
  ]

  unfoldable pub read_state : Unstructured → Result ReadError State
  unfolding select_targets scope_from_lists list_all build_objects new_scan_state
  read_state api = do
    lists ← discovered
    targets ← select_targets lists
    objs ← list_all targets []
    built ← wrap_build (build_objects api (scope_from_lists lists) objs)
    ok (scan_state (new_scan_state built))
